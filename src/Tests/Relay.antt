-- ===== src/Tests/Relay.antt =====
-- A simple-obfs connection from end to end, on pipes.
use shadowsocks_ohos.Prelude.{◌≡◌, refl, [], ◌∷◌, ◌++◌, some, Bytes, take}
use shadowsocks_ohos.PluginError
use shadowsocks_ohos.Obfs.Http.{poll_write}
use shadowsocks_ohos.Io.{done}
use shadowsocks_ohos.V2rayPlugin.Dial.{Network, TlsConfig, WsConfig}
use shadowsocks_ohos.Plugin.{PluginKind, simple_obfs_http}
use shadowsocks_ohos.Plugin.Wrap.{http, host_or, wrap_stream}
use shadowsocks_ohos.Plugin.Relay.{
  server_reads, server_sends, over_http, wrap_stream-Uploads, wrap_stream-Downloads,
}
use shadowsocks_ohos.Plugin.Relay as Relay
use shadowsocks_ohos.Tests.Pipe.{Pipe, pipe, pipe-IsStream, fresh}
use shadowsocks_ohos.Tests.Http.{
  start, rng, greeting, written, response, server, server-NoCr, key-NoCr, start_write, later_write,
}
use shadowsocks_ohos.Tests.Duplex.Http.{two, calls}

abbrev net : Network Pipe Pipe
net = record {
  TlsLayer = TlsConfig;
  WsLayer = WsConfig;
  connect = λ host port. done (fresh response);
  boxed = λ p. p;
  tls_layer = λ config. done config;
  tls_connect = λ layer p. done p;
  ws_layer = λ config. done config;
  ws_connect = λ layer p. done p;
}

abbrev kind : PluginKind
kind = simple_obfs_http []

wrapped : wrap_stream net kind server 8388 ≡ PluginError.ok (http start)
unfolding wrap_stream
wrapped = refl

abbrev sent_to : Pipe
sent_to = (poll_write pipe rng (8 ∷ 9 ∷ []) written).1.inner

wrap_stream-Uploads_example :
    server_reads kind sent_to.sent ≡ some (take 3 greeting ++ ([] ++ take 2 (8 ∷ 9 ∷ [])))
unfolding host_or
wrap_stream-Uploads_example =
    wrap_stream-Uploads pipe pipe-IsStream net kind server 8388 refl refl server-NoCr wrapped
      (over_http key-NoCr start_write later_write)

wrap_stream-Downloads_example : (rest : Bytes) × (server_sends kind response ≡ ([] ++ two) ++ rest)
wrap_stream-Downloads_example =
    wrap_stream-Downloads pipe pipe-IsStream net kind server 8388 refl wrapped
      (Relay.Downloads.over_http calls)
