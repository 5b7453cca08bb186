-- ===== src/Plugin/Accept.antt =====
-- The accept loop of `start_forwarder` in native/sslocal-ffi/src/plugin.rs.
pub mod Serves
use shadowsocks_ohos.Prelude.{
  ℕ, Bool, true, false, ◌||◌, List, [], ◌∷◌, Option, none, some, Text, ◌==◌, if◌then◌else◌,
}
use shadowsocks_ohos.Io.{
  ErrorKind, connection_aborted, connection_reset, interrupted, would_block, timed_out, write_zero,
  invalid_data, other, IoError,
}
use shadowsocks_ohos.Plugin.{PluginKind}

-- The numbers that libc gives to the shortages that `accept` may meet.
pub record Errno : Type 0 where
  pub emfile : ℕ
  pub enfile : ℕ
  pub enobufs : ℕ
  pub enomem : ℕ

-- `ACCEPT_RETRY_DELAY`, in milliseconds.
abbrev pub accept_retry_delay : ℕ
accept_retry_delay = 100

-- The first `matches!` of `is_transient_accept_error`.
unfoldable pub is_transient_kind : ErrorKind → Bool
is_transient_kind connection_aborted = true
is_transient_kind connection_reset = true
is_transient_kind interrupted = true
is_transient_kind would_block = true
is_transient_kind timed_out = true
is_transient_kind write_zero = false
is_transient_kind invalid_data = false
is_transient_kind (other n) = false

-- The second.
unfoldable pub is_shortage : Errno → Option ℕ → Bool
is_shortage os none = false
is_shortage os (some n) = n == os.emfile || n == os.enfile || n == os.enobufs || n == os.enomem

-- `is_transient_accept_error`.
unfoldable pub is_transient_accept_error : Errno → IoError → Bool
unfolding is_transient_kind is_shortage
is_transient_accept_error os e = is_transient_kind e.kind || is_shortage os e.raw_os_error

-- What `listener.accept()` answers: a peer, by a number of its own, or an error.
pub data Accepted : Type 0 where
  connection : ℕ → Accepted
  failed : IoError → Accepted

-- What the loop does with it: it starts a task that relays the peer, waits, or gives up.
pub data Action : Type 0 where
  relay : (peer : ℕ) → PluginKind → Text → ℕ → Action
  sleep : ℕ → Action
  give_up : IoError → Action

-- The error arms of the `match`; `again` is the rest of the loop.
unfoldable pub on_error : Errno → IoError → List Action → List Action
unfolding is_transient_accept_error
on_error os e again =
    if is_transient_accept_error os e then sleep accept_retry_delay ∷ again else give_up e ∷ []

-- The loop, on all that `accept` answers while the runtime lives.
unfoldable pub accept_loop : Errno → PluginKind → Text → ℕ → List Accepted → List Action
unfolding on_error
accept_loop os kind server_host server_port [] = []
accept_loop os kind server_host server_port (connection peer ∷ rest) =
    relay peer kind server_host server_port ∷ accept_loop os kind server_host server_port rest
accept_loop os kind server_host server_port (failed e ∷ rest) =
    on_error os e (accept_loop os kind server_host server_port rest)
