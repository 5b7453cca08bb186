-- ===== src/Plugin/Wrap.antt =====
-- `PluginKind::wrap_stream` of native/sslocal-ffi/src/plugin.rs.
use shadowsocks_ohos.Prelude.{ℕ, Text, is_empty, if◌then◌else◌}
use shadowsocks_ohos.Obfs.Http.{HttpObfs}
use shadowsocks_ohos.Obfs.Tls.{TlsObfs}
use shadowsocks_ohos.Obfs.Http
use shadowsocks_ohos.Obfs.Tls
use shadowsocks_ohos.PluginError.{Result, ok}
use shadowsocks_ohos.V2rayPlugin.Dial.{Network, from_io, ◌>>=◌, dial}
use shadowsocks_ohos.Plugin.{PluginKind, simple_obfs_http, simple_obfs_tls, v2ray}

-- A boxed stream, by what is in the box.
pub data Wrapped (Tcp Stream : Type 0) : Type 0 where
  http : HttpObfs Tcp → Wrapped Tcp Stream
  tls : TlsObfs Tcp → Wrapped Tcp Stream
  websocket : Stream → Wrapped Tcp Stream

-- The host of the options, or else the server's.
unfoldable pub host_or : Text → Text → Text
host_or host server_host = if is_empty host then server_host else host

module _ {Tcp Stream : Type 0} (net : Network Tcp Stream) where
  open net use {connect}

  -- `wrap_stream`.
  unfoldable pub wrap_stream : PluginKind → Text → ℕ → Result (Wrapped Tcp Stream)
  unfolding host_or from_io dial Http.new Tls.new
  wrap_stream (simple_obfs_http host) server_host server_port = do
    tcp ← from_io (connect server_host server_port)
    ok (http (Http.new tcp (host_or host server_host) server_port))
  wrap_stream (simple_obfs_tls host) server_host server_port = do
    tcp ← from_io (connect server_host server_port)
    ok (tls (Tls.new tcp (host_or host server_host)))
  wrap_stream (v2ray cfg) server_host server_port = do
    stream ← dial net cfg server_host server_port
    ok (websocket stream)
