-- ===== src/Tests/Dial.antt =====
-- A v2ray-plugin connection whose TLS handshake fails.
use shadowsocks_ohos.Prelude.{equal, ◌≡◌, refl, true, Text, codes, ◌++◌}
use shadowsocks_ohos.Options.{pairs}
use shadowsocks_ohos.PluginError.{transport, ok, err}
use shadowsocks_ohos.V2rayPlugin.{V2rayPluginConfig, default, parse_opts}
use shadowsocks_ohos.Io.{done, failed}
use shadowsocks_ohos.V2rayPlugin.Dial.{Network, TlsConfig, WsConfig, dial}
use shadowsocks_ohos.V2rayPlugin.Dial.Layers.{layers, from_ground, dial-climb}

-- A stream is the text of its layers, and no server speaks TLS.
abbrev net : Network Text Text
net = record {
  TlsLayer = TlsConfig;
  WsLayer = WsConfig;
  connect = λ host port. done host;
  boxed = λ tcp. tcp;
  tls_layer = λ config. done config;
  tls_connect = λ layer s. failed (codes "refused: " ++ layer.host);
  ws_layer = λ config. done config;
  ws_connect = λ layer s. done (codes "ws " ++ s);
}

abbrev options : V2rayPluginConfig
options = record default { tls = true }

no_tls : dial net options (codes "a.org") 443 ≡ err (transport (codes "refused: a.org"))
unfolding dial
no_tls = refl

parsed : parse_opts (codes "tls;host=b.org;host=") ≡ ok options
unfolding parse_opts equal
parsed = refl

dial-climb_example :
    dial net options (codes "a.org") 443
    ≡ from_ground net
        (net.connect (codes "a.org") 443)
        (layers (codes "a.org") (pairs (codes "true") (codes "tls;host=b.org;host=")))
dial-climb_example =
    dial-climb net (codes "tls;host=b.org;host=") options (codes "a.org") 443 parsed
