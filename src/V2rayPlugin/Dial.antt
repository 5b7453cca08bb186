-- ===== src/V2rayPlugin/Dial.antt =====
-- `dial` of native/sslocal-ffi/src/v2ray_plugin.rs: the order in which a v2ray-plugin connection is set
-- up, over the layers of the meow-transport crate.
pub mod Layers
use shadowsocks_ohos.Prelude.{ℕ, Bool, Option, some, Text, is_empty, if◌then◌else◌}
use shadowsocks_ohos.Io.{Answer, done, failed, IoError}
use shadowsocks_ohos.PluginError.{PluginError, io, transport, Result, ok, err}
use shadowsocks_ohos.V2rayPlugin.{V2rayPluginConfig, Headers}

-- The fields of a `TlsConfig` that `dial` sets, `host` being the argument of `TlsConfig::new`.
pub record TlsConfig : Type 0 where
  pub host : Text
  pub skip_cert_verify : Bool

-- The fields of a `WsConfig` that `dial` sets.
pub record WsConfig : Type 0 where
  pub path : Text
  pub host_header : Option Text
  pub extra_headers : Headers

-- tokio's `TcpStream::connect`, and the layers of meow-transport with their errors by their texts.
-- `Tcp` is a connected stream and `Stream` a boxed one.
pub record Network (Tcp Stream : Type 0) : Type 1 where
  pub TlsLayer : Type 0
  pub WsLayer : Type 0
  pub connect : Text → ℕ → Answer IoError Tcp
  pub boxed : Tcp → Stream
  pub tls_layer : TlsConfig → Answer Text TlsLayer
  pub tls_connect : TlsLayer → Stream → Answer Text Stream
  pub ws_layer : WsConfig → Answer Text WsLayer
  pub ws_connect : WsLayer → Stream → Answer Text Stream

-- `?` on an `io::Error` and on a `TransportError`, by the `From` of `PluginError`.
unfoldable pub from_io : {A : Type 0} → Answer IoError A → Result A
from_io (done a) = ok a
from_io (failed e) = err (io e)

unfoldable pub from_transport : {A : Type 0} → Answer Text A → Result A
from_transport (done a) = ok a
from_transport (failed e) = err (transport e)

infixl 5 ◌>>=◌
abbrev pub ◌>>=◌ : {A B : Type 0} → Result A → (A → Result B) → Result B
◌>>=◌ (ok a) f = f a
◌>>=◌ (err e) f = err e

-- The name for the SNI and for the `Host` header.
unfoldable pub host_header : V2rayPluginConfig → Text → Text
host_header cfg server_host = if is_empty cfg.host then server_host else cfg.host

module _ {Tcp Stream : Type 0} (net : Network Tcp Stream) where
  open net use {connect, boxed, tls_layer, tls_connect, ws_layer, ws_connect}

  -- Step 2 of `dial`.
  unfoldable pub secured : V2rayPluginConfig → Text → Stream → Result Stream
  unfolding from_transport
  secured cfg name stream =
      if cfg.tls
      then (do
        layer ←
            from_transport
              (tls_layer (record { host = name; skip_cert_verify = cfg.skip_cert_verify }))
        from_transport (tls_connect layer stream))
      else ok stream

  -- `dial`.
  unfoldable pub dial : V2rayPluginConfig → Text → ℕ → Result Stream
  unfolding host_header secured from_io from_transport
  dial cfg server_host server_port = do
    let name = host_header cfg server_host
    tcp ← from_io (connect server_host server_port)
    stream ← secured cfg name (boxed tcp)
    layer ← from_transport (
        ws_layer (record { path = cfg.path; host_header = some name; extra_headers = cfg.headers }))
    from_transport (ws_connect layer stream)
