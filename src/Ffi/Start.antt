-- ===== src/Ffi/Start.antt =====
-- Starting, stopping and asking: the entry points of native/sslocal-ffi/src/lib.rs.
use shadowsocks_ohos.Prelude.{
  ℕ, zero, suc, Bool, true, false, ◌++◌, Option, none, some, List, [], ◌∷◌, length, Text, Bytes,
  codes, is_empty, ◌==◌, if◌then◌else◌,
}
use shadowsocks_ohos.Encode.{decimal}
use shadowsocks_ohos.Json.{Value}
use shadowsocks_ohos.Ffi.State.{
  ℤ, pos, negsuc, sslocal_err_invalid_arg, sslocal_err_bad_config, sslocal_err_already_running,
  sslocal_err_runtime, Protocol, tun, other, Local, Config, Instance, ok, Action, pure, ◌>>=◌,
  Fallible, raise, attempt, CStrArg, cstr_arg,
}
use shadowsocks_ohos.Ffi.Specs.{extract_plugin_specs, apply_plugin_forwarders}

-- What the crate calls: tokio, serde_json, shadowsocks-service, libc and the standard library.
pub record Env : Type 0 where
  -- `Builder::build`.
  pub build_runtime : Fallible (Unit {0})
  -- `TcpListener::bind` on the loopback's port 0 and `local_addr`, for a runtime's listener number.
  pub listen : ℕ → Fallible ℕ
  -- `serde_json::from_str`.
  pub from_str : Text → Fallible Value
  -- `Config::load_from_str` on the printed value.
  pub load_config : Value → Fallible Config
  -- `libc::dup`, and `last_os_error`.
  pub dup : ℤ → ℤ
  pub last_os_error : Text
  -- The `ioctl` that asks for the name of a tun interface, if it succeeds.
  pub tun_name : ℤ → Option Bytes
  -- `String::from_utf8`.
  pub from_utf8 : Bytes → Option Text
  -- `str::parse::<SocketAddr>`; the address is kept by its text.
  pub parse_addr : Text → Fallible Text

-- A number as `{}` prints it.
unfoldable pub int_text : ℤ → Text
int_text (pos n) = decimal n
int_text (negsuc n) = codes "-" ++ decimal (suc n)

-- `fd < 0`.
abbrev pub is_negative : ℤ → Bool
is_negative (pos n) = false
is_negative (negsuc n) = true

abbrev pub invalid_config : Text → Text
invalid_config e = codes "invalid sslocal config: " ++ e

-- `if guard.is_some() { ... }`.
unfoldable pub not_running : Action (Unit {0})
not_running g = elim g.instance_slot [
  | some _ ↦ raise (codes "sslocal is already running") sslocal_err_already_running g
  | none ↦ (ok tt, g)
]

-- `attach_stat_address`.
unfoldable pub attach_stat_address : Config → Action Config
attach_stat_address config g = (
  ok (elim g.stat_addr [
    | some addr ↦ record config { local_stat_addr = some addr }
    | none ↦ config
  ]),
  g,
)

-- `*guard = Some(Instance { runtime })`, with what runs on the runtime.
unfoldable pub store : Instance → Action (Unit {0})
store instance g = (ok tt, record g { instance_slot = some instance })

-- `take_while(|&&c| c != 0)`.
unfoldable pub until_nul : Bytes → Bytes
until_nul [] = []
until_nul (c ∷ s) = let rest = until_nul s in if c == 0 then [] else c ∷ rest

-- `filter(|s| !s.is_empty())`.
abbrev pub if_named : Option Text → Option Text
if_named none = none
if_named (some name) = if is_empty name then none else some name

-- The first local whose protocol is tun.
abbrev pub is_tun : Protocol → Bool
is_tun tun = true
is_tun (other n) = false

unfoldable pub position : ℕ → List Local → Option ℕ
position i [] = none
position i (l ∷ ls) = let rest = position (suc i) ls in if is_tun l.protocol then some i else rest

-- `position(...).or(if len() == 1 { Some(0) } else { None })`.
unfoldable pub tun_index : List Local → Option ℕ
unfolding position
tun_index locals = elim (position 0 locals) [
  | some i ↦ some i
  | none ↦ if length locals == 1 then some 0 else none
]

unfoldable pub change_at : ℕ → (Local → Local) → List Local → List Local
change_at i f [] = []
change_at zero f (l ∷ ls) = f l ∷ ls
change_at (suc i) f (l ∷ ls) = l ∷ change_at i f ls

module _ (env : Env) where
  -- `parse_config_json`.
  unfoldable pub parse_config_json : CStrArg → Action Value
  parse_config_json config_json = cstr_arg config_json (codes "config_json") >>= λ s.
      attempt invalid_config sslocal_err_bad_config (env.from_str s)

  -- `start_with_json`; `ok` is `SSLOCAL_OK`.
  unfoldable pub start_with_json : Value → (Config → Action Config) → Action (Unit {0})
  unfolding extract_plugin_specs not_running apply_plugin_forwarders attach_stat_address store
  start_with_json json prepare = extract_plugin_specs json >>= λ specs. not_running >>= λ _.
      attempt (λ e. codes "failed to create tokio runtime: " ++ e) sslocal_err_runtime
        env.build_runtime
      >>= λ _. apply_plugin_forwarders env.listen [] json specs >>= λ (json', forwarders).
          attempt invalid_config sslocal_err_bad_config (env.load_config json') >>= λ loaded.
          attach_stat_address loaded >>= λ attached.
          prepare attached >>= λ config. store (record { config = config; forwarders = forwarders })

  -- `sslocal_start`.
  unfoldable pub sslocal_start : CStrArg → Action (Unit {0})
  unfolding parse_config_json start_with_json
  sslocal_start config_json = parse_config_json config_json >>= λ json. start_with_json json pure

  -- `recover_tun_name`.
  unfoldable pub recover_tun_name : ℤ → Option Text
  unfolding until_nul
  recover_tun_name fd = elim (env.tun_name fd) [
    | none ↦ none
    | some name ↦ if_named (env.from_utf8 (until_nul name))
  ]

  -- The fields that the closure of `sslocal_start_tun_fd` sets on the local it has chosen.
  unfoldable pub tun_local : ℤ → ℤ → Local → Local
  unfolding recover_tun_name
  tun_local tun_fd owned_fd l = record l {
    protocol = tun;
    tun_device_fd = some owned_fd;
    tun_interface_name = elim l.tun_interface_name [
      | some name ↦ some name
      | none ↦ recover_tun_name tun_fd
    ];
  }

  -- The closure itself.
  unfoldable pub attach_tun : ℤ → Config → Action Config
  unfolding tun_index change_at tun_local int_text
  attach_tun tun_fd config = elim (tun_index config.locals) [
    | none ↦
        raise (codes "config must contain a local with \"protocol\": \"tun\"")
          sslocal_err_bad_config
    | some i ↦
        let owned_fd = env.dup tun_fd in
        if is_negative owned_fd
        then raise
            (codes "failed to duplicate tun file descriptor "
              ++ (int_text tun_fd ++ (codes ": " ++ env.last_os_error)))
            sslocal_err_invalid_arg
        else pure (record config { locals = change_at i (tun_local tun_fd owned_fd) config.locals })
  ]

  -- `sslocal_start_tun_fd`.
  unfoldable pub sslocal_start_tun_fd : CStrArg → ℤ → Action (Unit {0})
  unfolding parse_config_json start_with_json attach_tun int_text
  sslocal_start_tun_fd config_json tun_fd =
      if is_negative tun_fd
      then raise (codes "invalid tun file descriptor: " ++ int_text tun_fd) sslocal_err_invalid_arg
      else parse_config_json config_json >>= λ json. start_with_json json (attach_tun tun_fd)
