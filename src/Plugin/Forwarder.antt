-- ===== src/Plugin/Forwarder.antt =====
-- `start_forwarder` of native/sslocal-ffi/src/plugin.rs: its listener, and the task that it starts for
-- each connection.
use shadowsocks_ohos.Prelude.{ℕ, List, Option, none, some, Text, codes}
use shadowsocks_ohos.Io.{IoError, Answer, done, failed}
use shadowsocks_ohos.PluginError.{PluginError, Result, ok, err}
use shadowsocks_ohos.V2rayPlugin.Dial.{Network}
use shadowsocks_ohos.Plugin.{PluginKind}
use shadowsocks_ohos.Plugin.Accept.{Errno, Accepted, Action, accept_loop}
use shadowsocks_ohos.Plugin.Wrap.{Wrapped, wrap_stream}

-- How the task of a connection ends: the relay is over, with an error or without, or there is no
-- connection to the server.
pub data TaskEnd : Type 0 where
  relayed : TaskEnd
  relay_failed : IoError → TaskEnd
  connect_failed : PluginError → TaskEnd

unfoldable pub after_copy : Option IoError → TaskEnd
after_copy none = relayed
after_copy (some e) = relay_failed e

unfoldable pub on_wrapped : {A : Type 0} → (A → Option IoError) → Result A → TaskEnd
unfolding after_copy
on_wrapped copy (ok wrapped) = after_copy (copy wrapped)
on_wrapped copy (err e) = connect_failed e

-- The task; `copy` is tokio's `copy_bidirectional` on the accepted connection.
unfoldable pub relay_task :
    {Tcp Stream : Type 0}
    → Network Tcp Stream
    → (Wrapped Tcp Stream → Option IoError)
    → PluginKind
    → Text
    → ℕ
    → TaskEnd
unfolding on_wrapped wrap_stream
relay_task net copy kind server_host server_port =
    on_wrapped copy (wrap_stream net kind server_host server_port)

-- tokio's `TcpListener`: `port` is that of its `local_addr`, and `accepts` what it answers while the
-- runtime lives.
pub record Listening (Listener : Type 0) : Type 0 where
  pub bind : Text → ℕ → Answer IoError Listener
  pub port : Listener → Answer IoError ℕ
  pub accepts : Listener → List Accepted

module _ {Listener : Type 0} (os : Errno) (net : Listening Listener) where
  open net use {bind, port, accepts}

  unfoldable pub spawned :
      PluginKind → Text → ℕ → Listener → Answer IoError ℕ → Answer IoError (ℕ × List Action)
  unfolding accept_loop
  spawned kind server_host server_port listener (done p) =
      done (p, accept_loop os kind server_host server_port (accepts listener))
  spawned kind server_host server_port listener (failed e) = failed e

  unfoldable pub bound :
      PluginKind → Text → ℕ → Answer IoError Listener → Answer IoError (ℕ × List Action)
  unfolding spawned
  bound kind server_host server_port (done listener) =
      spawned kind server_host server_port listener (port listener)
  bound kind server_host server_port (failed e) = failed e

  -- `start_forwarder`: the port that it returns, and what its accept loop does from then on.
  unfoldable pub start_forwarder : PluginKind → Text → ℕ → Answer IoError (ℕ × List Action)
  unfolding bound
  start_forwarder kind server_host server_port =
      bound kind server_host server_port (bind (codes "127.0.0.1") 0)
