-- ===== src/Ffi/State.antt =====
-- The statics of native/sslocal-ffi/src/lib.rs, and actions on them.
use shadowsocks_ohos.Prelude.{
  ℕ, Bool, true, false, ◌++◌, Option, some, List, [], ◌∷◌, Text, codes, ◌==◌, if◌then◌else◌,
}
use shadowsocks_ohos.Plugin.{PluginKind}

-- A `c_int`; `negsuc n` is -(n + 1).
pub data ℤ : Type 0 where
  pos : ℕ → ℤ
  negsuc : ℕ → ℤ

abbrev pub sslocal_ok : ℤ
sslocal_ok = pos 0

abbrev pub sslocal_err_invalid_arg : ℤ
sslocal_err_invalid_arg = negsuc 0

abbrev pub sslocal_err_bad_config : ℤ
sslocal_err_bad_config = negsuc 1

abbrev pub sslocal_err_already_running : ℤ
sslocal_err_already_running = negsuc 2

abbrev pub sslocal_err_not_running : ℤ
sslocal_err_not_running = negsuc 3

abbrev pub sslocal_err_runtime : ℤ
sslocal_err_runtime = negsuc 4

-- `ProtocolType`, of which the code names one.
pub data Protocol : Type 0 where
  tun : Protocol
  other : ℕ → Protocol

-- What the code reads and writes of shadowsocks-service's local server entries and `Config`; `rest`
-- is all else. A `SocketAddr` is opaque, by its text.
pub record Local : Type 0 where
  pub protocol : Protocol
  pub tun_device_fd : Option ℤ
  pub tun_interface_name : Option Text
  pub rest : ℕ

pub record Config : Type 0 where
  pub locals : List Local
  pub local_stat_addr : Option Text
  pub rest : ℕ

-- A forwarder: where it listens on the loopback, the plugin, and the server behind it.
pub record Forwarder : Type 0 where
  pub local_port : ℕ
  pub kind : PluginKind
  pub host : Text
  pub port : ℕ

-- `struct Instance`: its runtime, by what runs on it.
pub record Instance : Type 0 where
  pub config : Config
  pub forwarders : List Forwarder

-- `INSTANCE`, `LAST_ERROR`, `LAST_ERROR_HANDED_OUT`, `STAT_ADDR`.
pub record Globals : Type 0 where
  pub instance_slot : Option Instance
  pub last_error : Option Text
  pub last_error_handed_out : Option Text
  pub stat_addr : Option Text

-- `Result<A, c_int>`, and a panic.
pub data Outcome (A : Type 0) : Type 0 where
  ok : A → Outcome A
  err : ℤ → Outcome A
  panic : Outcome A

abbrev pub Action : Type 0 → Type 0
Action A = Globals → Outcome A × Globals

unfoldable pub pure : {A : Type 0} → A → Action A
pure a g = (ok a, g)

-- What a call outside the crate answers: a value, or an error by its text.
pub data Fallible (A : Type 0) : Type 0 where
  done : A → Fallible A
  failed : Text → Fallible A

-- What comes after an outcome.
unfoldable pub bound : {A B : Type 0} → (A → Action B) → Outcome A × Globals → Outcome B × Globals
bound f (ok a, g) = f a g
bound f (err code, g) = (err code, g)
bound f (panic, g) = (panic, g)

infixl 5 ◌>>=◌
unfoldable pub ◌>>=◌ : {A B : Type 0} → Action A → (A → Action B) → Action B
unfolding bound
◌>>=◌ m f g = bound f (m g)

unfoldable pub has_nul : Text → Bool
has_nul [] = false
has_nul (c ∷ s) = if c == 0 then true else has_nul s

-- `CString::new(message).unwrap_or_default()`.
unfoldable pub to_c_string : Text → Text
unfolding has_nul
to_c_string message = if has_nul message then [] else message

-- `set_last_error`.
unfoldable pub set_last_error : Text → Globals → Globals
unfolding to_c_string
set_last_error message g = record g { last_error = some (to_c_string message) }

-- `set_last_error(message); return Err(code)`.
unfoldable pub raise : {A : Type 0} → Text → ℤ → Action A
unfolding set_last_error
raise message code g = (err code, set_last_error message g)

-- A `*const c_char` as it comes in: null, UTF-8 text, or other bytes with `to_str`'s error.
pub data CStrArg : Type 0 where
  null : CStrArg
  text : Text → CStrArg
  not_utf8 : Text → CStrArg

-- `cstr_arg`.
unfoldable pub cstr_arg : CStrArg → Text → Action Text
unfolding raise pure
cstr_arg null what = raise (what ++ codes " is null") sslocal_err_invalid_arg
cstr_arg (text s) what = pure s
cstr_arg (not_utf8 e) what =
    raise (what ++ (codes " is not valid UTF-8: " ++ e)) sslocal_err_invalid_arg

-- `?` on a call outside the crate, with the message that records its error.
unfoldable pub attempt : {A : Type 0} → (Text → Text) → ℤ → Fallible A → Action A
unfolding pure raise
attempt message code (done a) = pure a
attempt message code (failed e) = raise (message e) code
