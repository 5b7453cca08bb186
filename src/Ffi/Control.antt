-- ===== src/Ffi/Control.antt =====
-- Stopping and asking, and what a running instance does to the state: the rest of the entry points of
-- native/sslocal-ffi/src/lib.rs.
use shadowsocks_ohos.Prelude.{
  ◌++◌, Option, none, some, Text, Bytes, [], ◌∷◌, codes, is_empty, if◌then◌else◌,
}
use shadowsocks_ohos.Encode.{utf8}
use shadowsocks_ohos.Ffi.State.{
  ℤ, pos, sslocal_err_invalid_arg, sslocal_err_not_running, Globals, ok, Action, ◌>>=◌, raise,
  attempt, set_last_error, CStrArg, null, cstr_arg,
}
use shadowsocks_ohos.Ffi.Start.{Env}

-- `*STAT_ADDR.lock().unwrap() = addr`.
unfoldable pub put_stat_addr : Option Text → Action (Unit {0})
put_stat_addr addr g = (ok tt, record g { stat_addr = addr })

abbrev pub invalid_address : Text → Text → Text
invalid_address s e = codes "invalid stat address \"" ++ (s ++ (codes "\": " ++ e))

-- The address that the text gives, or none where it is empty.
unfoldable pub parse_stat_addr : Env → Text → Action (Unit {0})
unfolding put_stat_addr
parse_stat_addr env s =
    if is_empty s
    then put_stat_addr none
    else (attempt (invalid_address s) sslocal_err_invalid_arg (env.parse_addr s) >>= λ socket_addr.
        put_stat_addr (some socket_addr))

-- `sslocal_set_stat_address`.
unfoldable pub sslocal_set_stat_address : Env → CStrArg → Action (Unit {0})
unfolding put_stat_addr parse_stat_addr
sslocal_set_stat_address env null = put_stat_addr none
sslocal_set_stat_address env addr = cstr_arg addr (codes "stat address") >>= parse_stat_addr env

-- `sslocal_stop`: the instance is taken out, and its runtime shut down.
unfoldable pub sslocal_stop : Action (Unit {0})
sslocal_stop g = elim g.instance_slot [
  | some instance ↦ (ok tt, record g { instance_slot = none })
  | none ↦ raise (codes "sslocal is not running") sslocal_err_not_running g
]

abbrev pub as_int : {A : Type 0} → Option A → ℤ
as_int none = pos 0
as_int (some _) = pos 1

-- `sslocal_is_running`.
unfoldable pub sslocal_is_running : Globals → ℤ
sslocal_is_running g = as_int g.instance_slot

-- `sslocal_last_error`: the message that the pointer returned points to, or none for null.
unfoldable pub sslocal_last_error : Globals → Option Text × Globals
sslocal_last_error g = (g.last_error, record g { last_error_handed_out = g.last_error })

-- The task of `start_with_json`, when `run_local` ends with an error.
unfoldable pub core_failed : Text → Globals → Globals
unfolding set_last_error
core_failed e g = set_last_error (codes "sslocal exited with error: " ++ e) g

-- `sslocal_version`: what its pointer points to, for the version of the package.
unfoldable pub sslocal_version : Text → Bytes
sslocal_version version = utf8 version ++ (0 ∷ [])
