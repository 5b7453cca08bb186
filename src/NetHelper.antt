-- ===== src/NetHelper.antt =====
-- native/sslocal-ffi/examples/net_helper.rs: the helper of the end-to-end test, which plays every role of
-- it, and drives the library through a tun device.
pub mod Tun
pub mod Client
pub mod Roles
pub mod Echo
use shadowsocks_ohos.Prelude.{
  ℕ, zero, suc, ◌+◌, Bool, true, false, List, [], ◌∷◌, Option, none, some, Text, Bytes, codes,
  length, ltb, get_elem?, equal, replicate, if◌then◌else◌,
}
use shadowsocks_ohos.Encode.{utf8}
use shadowsocks_ohos.Io.{Answer, done, failed, IoError}
use shadowsocks_ohos.Ffi.State.{ℤ, pos, Outcome, ok, err, panic, Globals, text, has_nul}
use shadowsocks_ohos.Ffi.Start.{Env, is_negative, sslocal_start_tun_fd}
use shadowsocks_ohos.Ffi.Control.{sslocal_last_error}

-- What the command line asks for: a role, or an exit with code 2 behind a message.
pub data Command : Type 0 where
  echo : Text → Command
  server : Text → Command
  tun : Text → Text → Command
  client : Text → Text → Command
  usage : Text → Command
  unknown : Text → Command

-- `arg`, with what is done with the argument.
unfoldable pub arg : List Text → ℕ → Text → (Text → Command) → Command
arg args index message use_it = elim (get_elem? args index) [
  | some value ↦ use_it value
  | none ↦ usage message
]

-- The `match` of `main`.
unfoldable pub dispatch : List Text → Text → Command
unfolding arg
dispatch args name =
    if equal name (codes "echo")
    then arg args 2 (codes "echo <bind_addr>") echo
    else if equal name (codes "server")
    then arg args 2 (codes "server <config_json>") server
    else if equal name (codes "tun")
    then arg args 2 (codes "tun <config_json> <ifname>") (λ config_json.
      arg args 3 (codes "tun <config_json> <ifname>") (λ ifname. tun config_json ifname))
    else if equal name (codes "client")
    then arg args 2 (codes "client <host:port> <message>") (λ target.
      arg args 3 (codes "client <host:port> <message>") (λ message. client target message))
    else unknown name

-- `main`, up to the role.
unfoldable pub main : List Text → Command
unfolding dispatch
main args = elim (get_elem? args 1) [
  | some name ↦ dispatch args name
  | none ↦ usage (codes "<echo|server|tun|client> ...")
]

-- The first `n` bytes of a name, written over the front of a buffer.
unfoldable pub overlay : ℕ → Bytes → Bytes → Bytes
overlay zero name buf = buf
overlay (suc n) [] buf = buf
overlay (suc n) (b ∷ name) [] = []
overlay (suc n) (b ∷ name) (_ ∷ buf) = b ∷ overlay n name buf

-- `libc::IFNAMSIZ`.
abbrev pub ifnamsiz : ℕ
ifnamsiz = 16

-- `ifr.ifr_name` in `open_tun`.
unfoldable pub ifr_name : Text → Bytes
unfolding overlay
ifr_name ifname = overlay 15 (utf8 ifname) (replicate ifnamsiz 0)

-- The kernel, as `open_tun` asks it: `/dev/net/tun` opened, and the `ioctl` on its descriptor.
pub record Kernel : Type 0 where
  pub open_dev : Answer IoError ℕ
  pub set_iff : ℕ → Bytes → ℕ → ℤ
  pub last_os_error : IoError

abbrev pub iff_tun : ℕ
iff_tun = 0x0001

abbrev pub iff_no_pi : ℕ
iff_no_pi = 0x1000

unfoldable pub tun_set : Kernel → ℕ → ℤ → Answer IoError ℕ
tun_set kernel fd rc = if is_negative rc then failed kernel.last_os_error else done fd

-- `open_tun`; on an error the descriptor is closed.
unfoldable pub open_tun : Kernel → Text → Answer IoError ℕ
unfolding ifr_name tun_set
open_tun kernel ifname = elim kernel.open_dev [
  | failed e ↦ failed e
  | done fd ↦ tun_set kernel fd (kernel.set_iff fd (ifr_name ifname) (iff_tun + iff_no_pi))
]

-- How `run_tun` goes on: it panics where it opens the device or copies the config, exits with code 1
-- behind the library's message, or routes for ever.
pub data TunEnd : Type 0 where
  no_device : IoError → TunEnd
  nul_in_config : TunEnd
  core_panicked : TunEnd
  start_failed : ℤ → Option Text → Globals → TunEnd
  routes : ℕ → Globals → TunEnd

unfoldable pub tun_started : ℕ → Outcome (Unit {0}) × Globals → TunEnd
unfolding sslocal_last_error
tun_started fd (ok _, g) = routes fd g
tun_started fd (err code, g) =
    let (message, g') = sslocal_last_error g in start_failed code message g'
tun_started fd (panic, g) = core_panicked

-- `run_tun`.
unfoldable pub run_tun : Env → Kernel → Text → Text → Globals → TunEnd
unfolding open_tun has_nul tun_started sslocal_start_tun_fd
run_tun env kernel config_json ifname g = elim (open_tun kernel ifname) [
  | failed e ↦ no_device e
  | done fd ↦
      if has_nul config_json
      then nul_in_config
      else tun_started fd (sslocal_start_tun_fd env (text config_json) (pos fd) g)
]

-- What a failed attempt of the client prints.
pub data Report : Type 0 where
  mismatch : ℕ → Report
  failed_with : ℕ → IoError → Report

-- The client: what it has printed, how long it has slept, and its exit code.
pub record ClientEnd : Type 0 where
  pub reports : List Report
  pub slept : ℕ
  pub code : ℕ

-- In milliseconds.
abbrev pub client_retry_delay : ℕ
client_retry_delay = 500

abbrev pub retried : Report → ClientEnd → ClientEnd
retried report rest = record {
  reports = report ∷ rest.reports;
  slept = client_retry_delay + rest.slept;
  code = rest.code;
}

-- One attempt, from its answer; `rest` is the rest of the loop.
unfoldable pub on_attempt : ℕ → ClientEnd → Answer IoError Bool → ClientEnd
on_attempt attempt rest (done true) = record { reports = []; slept = 0; code = 0 }
on_attempt attempt rest (done false) = retried (mismatch attempt) rest
on_attempt attempt rest (failed e) = retried (failed_with attempt e) rest

-- The attempts from number `i` on, `n` of them.
unfoldable pub attempts : (ℕ → Answer IoError Bool) → ℕ → ℕ → ClientEnd
unfolding on_attempt
attempts try_it zero i = record { reports = []; slept = 0; code = 1 }
attempts try_it (suc n) i = on_attempt i (attempts try_it n (suc i)) (try_it i)

-- `run_client`; `try_it i` is what `try_client` answers to attempt `i`.
unfoldable pub run_client : (ℕ → Answer IoError Bool) → ClientEnd
unfolding attempts
run_client try_it = attempts try_it 30 0

-- A blocking `TcpStream`.
pub record Socket (Tcp : Type 0) : Type 0 where
  pub connect : Text → Answer IoError Tcp
  pub set_read_timeout : ℕ → Tcp → Answer IoError Tcp
  pub set_write_timeout : ℕ → Tcp → Answer IoError Tcp
  pub write_all : Bytes → Tcp → Answer IoError Tcp
  pub read_exact : ℕ → Tcp → Answer IoError Bytes

abbrev and_then : {A B : Type 0} → Answer IoError A → (A → Answer IoError B) → Answer IoError B
and_then (done a) f = f a
and_then (failed e) f = failed e

-- `try_client`.
unfoldable pub try_client : {Tcp : Type 0} → Socket Tcp → Text → Text → Answer IoError Bool
try_client net target message = and_then (net.connect target) (λ stream.
    and_then (net.set_read_timeout 5 stream) (λ stream.
      and_then (net.set_write_timeout 5 stream) (λ stream.
        and_then (net.write_all (utf8 message) stream) (λ stream.
          and_then (net.read_exact (length (utf8 message)) stream)
            (λ buf. done (equal buf (utf8 message)))))))
