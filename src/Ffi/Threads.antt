-- ===== src/Ffi/Threads.antt =====
-- native/sslocal-ffi/src/lib.rs called from several threads: each step of a call is what it does around one
-- access to a static that other threads can change meanwhile, under the mutex that guards it. `INSTANCE`
-- alone is held over several steps.
pub mod Run
pub mod Order
pub mod Local
pub mod Serial
pub mod Stages
pub mod Invariant
pub mod Moves
pub mod Keeps
pub mod Settles
pub mod Others
pub mod Running
pub mod Counts
pub mod Readable
pub mod Calm
pub mod Progress
use shadowsocks_ohos.Prelude.{ℕ, Option, none, some, List, [], Text, codes, ◌++◌, if◌then◌else◌}
use shadowsocks_ohos.Json.{Value}
use shadowsocks_ohos.Ffi.State.{
  ℤ, sslocal_err_invalid_arg, sslocal_err_bad_config, sslocal_err_runtime, Config, Forwarder,
  Globals, Outcome, Action, pure, ◌>>=◌, raise, attempt, CStrArg,
}
use shadowsocks_ohos.Ffi.Specs.{PluginSpec, extract_plugin_specs, apply_plugin_forwarders}
use shadowsocks_ohos.Ffi.Start.{
  Env, is_negative, int_text, invalid_config, parse_config_json, attach_tun, sslocal_start,
  sslocal_start_tun_fd,
}
use shadowsocks_ohos.Ffi.Control.{
  sslocal_set_stat_address, sslocal_stop, sslocal_is_running, sslocal_last_error,
}

-- A call of an entry point, with what the system answers to it.
pub data Call : Type 0 where
  start : Env → CStrArg → Call
  start_tun : Env → CStrArg → ℤ → Call
  stop : Call
  is_running : Call
  last_error : Call
  set_stat : Env → CStrArg → Call

-- What it returns: a code, an `int`, or a message by its text.
pub data Returned : Type 0 where
  code : Outcome (Unit {0}) → Returned
  flag : ℤ → Returned
  message : Option Text → Returned

-- A call on its own.
unfoldable pub call : Call → Globals → Returned × Globals
unfolding sslocal_start sslocal_start_tun_fd sslocal_stop sslocal_is_running sslocal_last_error
    sslocal_set_stat_address
call (start env config_json) g = let (r, g') = sslocal_start env config_json g in (code r, g')
call (start_tun env config_json tun_fd) g =
    let (r, g') = sslocal_start_tun_fd env config_json tun_fd g in (code r, g')
call stop g = let (r, g') = sslocal_stop g in (code r, g')
call is_running g = (flag (sslocal_is_running g), g)
call last_error g = let (r, g') = sslocal_last_error g in (message r, g')
call (set_stat env addr) g = let (r, g') = sslocal_set_stat_address env addr g in (code r, g')

-- A call that starts an instance: what the system answers to it, its config, and the tun device if it has
-- one.
pub record Start : Type 0 where
  pub env : Env
  pub config_json : CStrArg
  pub tun_fd : Option ℤ

abbrev pub call_of : Start → Call
call_of s = elim s.tun_fd [
  | none ↦ start s.env s.config_json
  | some fd ↦ start_tun s.env s.config_json fd
]

module _ (env : Env) where
  -- The entry point up to the lock: the config is parsed and its plugins are read.
  unfoldable pub parse_specs : CStrArg → Action (Value × List PluginSpec)
  unfolding parse_config_json extract_plugin_specs
  parse_specs config_json = parse_config_json env config_json >>= λ json.
      extract_plugin_specs json >>= λ specs. pure (json, specs)

  unfoldable pub before_lock : Start → Action (Value × List PluginSpec)
  unfolding parse_specs
  before_lock s = elim s.tun_fd [
    | none ↦ parse_specs s.config_json
    | some fd ↦
        if is_negative fd
        then raise (codes "invalid tun file descriptor: " ++ int_text fd) sslocal_err_invalid_arg
        else parse_specs s.config_json
  ]

  -- `start_with_json` from the runtime to the loaded config.
  unfoldable pub launch : Value × List PluginSpec → Action (Config × List Forwarder)
  unfolding apply_plugin_forwarders
  launch (json, specs) =
      attempt (λ e. codes "failed to create tokio runtime: " ++ e) sslocal_err_runtime
        env.build_runtime
      >>= λ _. apply_plugin_forwarders env.listen [] json specs >>= λ (json', forwarders).
          attempt invalid_config sslocal_err_bad_config (env.load_config json') >>= λ loaded.
          pure (loaded, forwarders)

  -- `prepare(config)`.
  unfoldable pub prepare : Start → Config → Action Config
  unfolding attach_tun
  prepare s = elim s.tun_fd [ none ↦ pure | some fd ↦ attach_tun env fd ]

-- Where a thread stands that does not hold `INSTANCE`: outside of the library, in a start before its
-- lock, in one that waits for it, in `sslocal_last_error` with its clone, or inside the lock.
pub data Pc : Type 0 where
  outside : Pc
  begun : Start → Pc
  waits : Start → Value × List PluginSpec → Pc
  cloned : Option Text → Pc
  inside : Pc

-- Where the thread stands that holds `INSTANCE`.
pub data Held : Type 0 where
  locked : Start → Value × List PluginSpec → Held
  checked : Start → Value × List PluginSpec → Held
  loaded : Start → Config × List Forwarder → Held
  attached : Start → Config × List Forwarder → Held
  prepared : Start → Config × List Forwarder → Held
  stopping : Held
  leaving : Held

pub data Lock : Type 0 where
  free : Lock
  held : ℕ → Held → Lock

abbrev pub Log : Type 0
Log = List (Call × Returned)

-- The statics, the lock of `INSTANCE`, the threads, and what the calls have returned, the last one first;
-- each is written down as it is settled, which is before the call's locks are released.
pub record System : Type 0 where
  pub globals : Globals
  pub lock : Lock
  pub pc : ℕ → Pc
  pub log : Log
