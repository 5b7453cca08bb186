-- ===== src/V2rayPlugin/Dial/Layers.antt =====
-- Over which layers `dial` of native/sslocal-ffi/src/v2ray_plugin.rs goes, for the options of a plugin.
use shadowsocks_ohos.Prelude.{
  ℕ, ◌≡◌, refl, sym, ap, ◌∙◌, Bool, true, false, List, [], ◌∷◌, ◌++◌, Option, none, some, Text,
  codes, is_empty, if◌then◌else◌,
}
use shadowsocks_ohos.Io.{IoError, Answer, done, failed}
use shadowsocks_ohos.Options.{pairs}
use shadowsocks_ohos.Options.Last.{last_value, read_as}
use shadowsocks_ohos.PluginError.{io, transport, Result, ok, err}
use shadowsocks_ohos.V2rayPlugin.{V2rayPluginConfig, default, parse_bool, parse_opts}
use shadowsocks_ohos.V2rayPlugin.Meaning.{
  all_headers, described, bad_mode, unless_bad, parse_opts-described,
}
use shadowsocks_ohos.V2rayPlugin.Dial.{
  TlsConfig, WsConfig, Network, from_io, from_transport, ◌>>=◌, host_header, secured, dial,
}

-- A layer that a connection is put under.
pub data Layer : Type 0 where
  over_tls : TlsConfig → Layer
  over_ws : WsConfig → Layer

-- The name that the layers carry: what `host` was last given, if anything, or else the server's.
abbrev pub server_name : Text → Option Text → Text
server_name server none = server
server_name server (some []) = server
server_name server (some (c ∷ cs)) = c ∷ cs

abbrev pub if_asked : Bool → TlsConfig → List Layer
if_asked true c = over_tls c ∷ []
if_asked false c = []

-- The layers that the options describe, the first of them on the connection itself.
abbrev pub layers : Text → List (Text × Text) → List Layer
layers server ps =
    let name = server_name server (last_value (codes "host") ps) in
    if_asked (read_as parse_bool false (last_value (codes "tls") ps)) (record {
      host = name;
      skip_cert_verify = read_as parse_bool false (last_value (codes "skip-cert-verify") ps);
    })
    ++ over_ws (record {
      path = read_as (λ v. v) (codes "/") (last_value (codes "path") ps);
      host_header = some name;
      extra_headers = all_headers ps [];
    })
      ∷ []

abbrev pub then_ask : {A B : Type 0} → Answer Text A → (A → Answer Text B) → Answer Text B
then_ask (failed e) f = failed e
then_ask (done a) f = f a

abbrev pub then_go : {A B : Type 0} → Answer Text A → (A → Result B) → Result B
then_go (failed e) f = err (transport e)
then_go (done a) f = f a

module _ {Tcp Stream : Type 0} (net : Network Tcp Stream) where
  open net use {connect, boxed, tls_layer, tls_connect, ws_layer, ws_connect}

  -- One layer on a stream, and all of them up to the first that fails.
  abbrev pub added : Layer → Stream → Answer Text Stream
  added (over_tls c) s = then_ask (tls_layer c) (λ l. tls_connect l s)
  added (over_ws c) s = then_ask (ws_layer c) (λ l. ws_connect l s)

  abbrev pub climb : List Layer → Stream → Result Stream
  climb [] s = ok s
  climb (l ∷ ls) s = then_go (added l s) (climb ls)

  abbrev pub from_ground : Answer IoError Tcp → List Layer → Result Stream
  from_ground (failed e) ls = err (io e)
  from_ground (done tcp) ls = climb ls (boxed tcp)

  ask-go :
      {A B C : Type 0} (a : Answer Text A) (f : A → Answer Text B) (k k' : B → Result C)
      → ((b : B) → k b ≡ k' b)
      → ((from_transport a >>= λ l. from_transport (f l)) >>= k) ≡ then_go (then_ask a f) k'
  unfolding from_transport
  ask-go (failed e) f k k' h = refl
  ask-go (done a) f k k' h = answered (f a)
    where
      answered : (b : Answer Text _) → (from_transport b >>= k) ≡ then_go b k'
      answered (failed e) = refl
      answered (done b) = h b

  last_step :
      {A B : Type 0} (a : Answer Text A) (f : A → Answer Text B)
      → (from_transport a >>= λ l. from_transport (f l))
        ≡ ((from_transport a >>= λ l. from_transport (f l)) >>= ok)
  last_step {A} {B} a f = bound _
    where
      bound : (r : Result B) → r ≡ (r >>= ok)
      bound (ok b) = refl
      bound (err e) = refl

  -- The layers of a configuration, under a name.
  abbrev configured : V2rayPluginConfig → Text → List Layer
  configured cfg name =
      if_asked cfg.tls (record { host = name; skip_cert_verify = cfg.skip_cert_verify })
      ++ over_ws (record { path = cfg.path; host_header = some name; extra_headers = cfg.headers })
        ∷ []

  upgrades :
      (c : WsConfig) (s : Stream)
      → (from_transport (ws_layer c) >>= λ l. from_transport (ws_connect l s))
        ≡ climb (over_ws c ∷ []) s
  upgrades c s =
      last_step (ws_layer c) (λ l. ws_connect l s)
      ∙ ask-go (ws_layer c) (λ l. ws_connect l s) ok (climb []) (λ s'. refl)

  dial-configured :
      (cfg : V2rayPluginConfig) (server : Text) (port : ℕ) (name : Text)
      → host_header cfg server ≡ name
      → dial net cfg server port ≡ from_ground (connect server port) (configured cfg name)
  unfolding dial secured from_io
  dial-configured cfg server port name e = rw e (on_ground (connect server port))
    where
      ws : WsConfig
      ws = record { path = cfg.path; host_header = some name; extra_headers = cfg.headers }

      tls : TlsConfig
      tls = record { host = name; skip_cert_verify = cfg.skip_cert_verify }

      upgrade : Stream → Result Stream
      upgrade s = from_transport (ws_layer ws) >>= λ l. from_transport (ws_connect l s)

      handshake : Stream → Result Stream
      handshake s = from_transport (tls_layer tls) >>= λ l. from_transport (tls_connect l s)

      on_tls :
          (b : Bool) (s : Stream)
          → ((if b then handshake s else ok s) >>= upgrade)
            ≡ climb (if_asked b tls ++ over_ws ws ∷ []) s
      on_tls true s =
          ask-go (tls_layer tls) (λ l. tls_connect l s) upgrade (climb (over_ws ws ∷ []))
            (upgrades ws)
      on_tls false s = upgrades ws s

      on_ground :
          (a : Answer IoError Tcp)
          → (from_io a >>= λ tcp.
              (if cfg.tls then handshake (boxed tcp) else ok (boxed tcp)) >>= upgrade)
            ≡ from_ground a (configured cfg name)
      on_ground (failed x) = refl
      on_ground (done tcp) = on_tls cfg.tls (boxed tcp)

  named :
      (server : Text) (o : Option Text)
      → (if is_empty (read_as (λ v. v) [] o) then server else read_as (λ v. v) [] o)
        ≡ server_name server o
  named server none = refl
  named server (some []) = refl
  named server (some (c ∷ cs)) = refl

  parsed : (b : Option Text) (c d : V2rayPluginConfig) → unless_bad b c ≡ ok d → d ≡ c
  parsed none c d e = cc
  parsed (some v) c d e = absurd cc

  -- A dial under options that parse connects to the server, and puts the connection under TLS if `tls`
  -- was last given as true, and then under a WebSocket with the last `path`, or `/`, and the headers of
  -- the options. Both layers carry the last `host` as their name, or the server's if that is empty or
  -- missing. The first step that fails ends it with that step's error, and no layer is asked for after it.
  pub dial-climb :
      (opts : Text) (cfg : V2rayPluginConfig) (server : Text) (port : ℕ)
      → parse_opts opts ≡ ok cfg
      → dial net cfg server port
        ≡ from_ground (connect server port) (layers server (pairs (codes "true") opts))
  unfolding host_header
  dial-climb opts cfg server port e =
      let ps = pairs (codes "true") opts in
      ap (λ c. dial net c server port)
        (parsed (bad_mode ps) (described ps default) cfg (sym (parse_opts-described opts) ∙ e))
      ∙ dial-configured (described ps default) server port
          (server_name server (last_value (codes "host") ps))
          (named server (last_value (codes "host") ps))
