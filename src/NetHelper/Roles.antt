-- ===== src/NetHelper/Roles.antt =====
-- The echo and server roles of native/sslocal-ffi/examples/net_helper.rs.
use shadowsocks_ohos.Prelude.{ℕ, Bool, true, false, List, [], ◌∷◌, map, Text, Bytes}
use shadowsocks_ohos.Io.{Answer, done, failed, IoError}

-- One round of a connection of the echo role: what `read` answers to a buffer's room, and what
-- `write_all` answers to what was read.
pub record Round : Type 0 where
  pub read : ℕ → Answer IoError Bytes
  pub write_all : Bytes → Answer IoError (Unit {0})

-- What a connection has handed to `write_all`, and whether its thread has returned.
pub record Echoed : Type 0 where
  pub written : List Bytes
  pub returned : Bool

-- `let mut buf = [0u8; 4096]`.
abbrev pub echo_room : ℕ
echo_room = 4096

-- `if stream.write_all(&buf[..n]).is_err() { return; }`, with the rest of the loop.
unfoldable pub on_written : Bytes → Echoed → Answer IoError (Unit {0}) → Echoed
on_written chunk rest (done _) = record { written = chunk ∷ rest.written; returned = rest.returned }
on_written chunk rest (failed e) = record { written = chunk ∷ []; returned = true }

-- The `match` on what was read.
unfoldable pub on_read : Round → Echoed → Answer IoError Bytes → Echoed
unfolding on_written
on_read round rest (failed e) = record { written = []; returned = true }
on_read round rest (done []) = record { written = []; returned = true }
on_read round rest (done (b ∷ chunk)) = on_written (b ∷ chunk) rest (round.write_all (b ∷ chunk))

-- The `loop`, on all the rounds that there are.
unfoldable pub echo_loop : List Round → Echoed
unfolding on_read
echo_loop [] = record { written = []; returned = false }
echo_loop (round ∷ rounds) = on_read round (echo_loop rounds) (round.read echo_room)

-- The thread of a connection, or of an `accept` that failed.
unfoldable pub echo_thread : Answer IoError (List Round) → Echoed
unfolding echo_loop
echo_thread (failed e) = record { written = []; returned = true }
echo_thread (done rounds) = echo_loop rounds

-- The echo role panics where it binds, or has a thread for each connection. It does not end, since
-- `incoming` does not.
pub data EchoEnd : Type 0 where
  no_listener : IoError → EchoEnd
  serves : List Echoed → EchoEnd

-- `run_echo`, on all that `incoming` gives.
unfoldable pub run_echo :
    (Text → Answer IoError (Unit {0})) → List (Answer IoError (List Round)) → Text → EchoEnd
unfolding echo_thread
run_echo listen incoming bind = elim (listen bind) [
  | failed e ↦ no_listener e
  | done _ ↦ serves (map echo_thread incoming)
]

-- What the server role calls: shadowsocks-service, for a server, and tokio.
pub record Service (Config Runtime : Type 0) : Type 0 where
  pub load_from_str : Text → Answer Text Config
  pub new_runtime : Answer IoError Runtime
  pub run_server : Runtime → Config → Answer IoError (Unit {0})

-- How the server role ends: a panic with the message of one of its three `expect`s, or an exit code.
pub data ServerEnd : Type 0 where
  bad_config : Text → ServerEnd
  no_runtime : IoError → ServerEnd
  server_failed : IoError → ServerEnd
  exits : ℕ → ServerEnd

-- `run_server`.
unfoldable pub run_server : {Config Runtime : Type 0} → Service Config Runtime → Text → ServerEnd
run_server service config_json = elim (service.load_from_str config_json) [
  | failed e ↦ bad_config e
  | done config ↦ elim service.new_runtime [
    | failed e ↦ no_runtime e
    | done runtime ↦ elim (service.run_server runtime config) [
      | failed e ↦ server_failed e
      | done _ ↦ exits 0
    ]
  ]
]
