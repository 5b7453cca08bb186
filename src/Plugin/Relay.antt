-- ===== src/Plugin/Relay.antt =====
-- A connection of a simple-obfs forwarder in native/sslocal-ffi/src/plugin.rs from end to end: the
-- wrapper that `wrap_stream` makes, and a server of the same obfuscation at the other end.
use shadowsocks_ohos.Prelude.{
  ℕ, ◌≤◌, ◌≡◌, refl, sym, ap, ◌∙◌, [], ◌++◌, List, false, Option, none, some, Bytes, Text, length,
  take, is_empty, take_all, arith,
}
use mathlib.Core.Option
use mathlib.Core.Path.{subst}
use shadowsocks_ohos.Encode.{utf8, NoCr}
use shadowsocks_ohos.Io.{Transport, IsStream, done}
use shadowsocks_ohos.PluginError.{Result, ok, err}
use shadowsocks_ohos.Obfs.Http
use shadowsocks_ohos.Obfs.Tls
use shadowsocks_ohos.Obfs.Http.{HttpObfs, find_double_crlf}
use shadowsocks_ohos.Obfs.Tls.{TlsObfs}
use shadowsocks_ohos.Obfs.Http.Read.{behind_head, behind_match}
use shadowsocks_ohos.Obfs.Http.Read as HttpRead
use shadowsocks_ohos.Obfs.Http.Duplex as HttpDuplex
use shadowsocks_ohos.Obfs.Http.Write.Session as HttpSession
use shadowsocks_ohos.Obfs.Tls.Surface.{skip, surface, joined}
use shadowsocks_ohos.Obfs.Tls.Read as TlsRead
use shadowsocks_ohos.Obfs.Tls.Duplex as TlsDuplex
use shadowsocks_ohos.Obfs.Tls.Write.Session as TlsSession
use shadowsocks_ohos.Obfs.Tls.Hello.Record.{tls_server, tls_server-hello}
use shadowsocks_ohos.V2rayPlugin.{V2rayPluginConfig}
use shadowsocks_ohos.V2rayPlugin.Dial.{Network, from_io, ◌>>=◌, dial}
use shadowsocks_ohos.Plugin.{PluginKind, simple_obfs_http, simple_obfs_tls, v2ray}
use shadowsocks_ohos.Plugin.Wrap.{Wrapped, http, tls, websocket, host_or, wrap_stream}

-- What a simple-obfs server makes of a connection; one of the other kind makes nothing of it.
abbrev pub server_reads : PluginKind → Bytes → Option Bytes
server_reads (simple_obfs_http host) wire =
    Option.map (λ i. behind_match wire (some i)) (find_double_crlf wire)
server_reads (simple_obfs_tls host) wire = tls_server wire
server_reads (v2ray cfg) wire = none

-- What such a server has for the caller, of all that it sends.
abbrev pub server_sends : PluginKind → Bytes → Bytes
server_sends (simple_obfs_http host) wire = behind_head wire
server_sends (simple_obfs_tls host) wire = surface (skip 105) wire
server_sends (v2ray cfg) wire = []

-- The host can stand in a request, or in a ClientHello.
abbrev pub HostFits : PluginKind → Text → Type 0
HostFits (simple_obfs_http host) server_host = NoCr (host_or host server_host)
HostFits (simple_obfs_tls host) server_host = length (utf8 (host_or host server_host)) ≤ 48_939
HostFits (v2ray cfg) server_host = Unit {0}

module _ {Tcp Stream : Type 0} (t : Transport Tcp) where
  -- The bytes that a wrapper takes in a first write and in later ones, and the connection behind them,
  -- where the random source gives bytes as many as it is asked for, and the encoder no line end.
  pub data Uploads : Wrapped Tcp Stream → Bytes → Tcp → Type 0 where
    over_http :
        {buf taken : Bytes} {n : ℕ} {h g g' : HttpObfs Tcp} {r : Http.Entropy}
        → NoCr (r.encode r.rand_bytes)
        → HttpSession.Accepts t buf n g r h
        → HttpSession.Follows t g taken g'
        → Uploads (http h) (take n buf ++ taken) g'.inner
    over_tls :
        {buf : Bytes} {chunks : List Bytes} {n : ℕ} {h g g' : TlsObfs Tcp} {r : Tls.Entropy}
        → length r.random ≡ 28
        → length r.session_id ≡ 32
        → is_empty buf ≡ false
        → TlsSession.Accepts t buf n g r h
        → TlsSession.Follows t g chunks g'
        → Uploads (tls h) (take n buf ++ joined chunks) g'.inner

module _ {Tcp Stream : Type 0} (t : Transport Tcp) (law : IsStream t) where
  -- The bytes that reads of a wrapper have answered with, whatever was called between them.
  pub data Downloads : Wrapped Tcp Stream → Bytes → Type 0 where
    over_http :
        {bytes : Bytes} {h g : HttpObfs Tcp}
        → HttpDuplex.Calls t h bytes g
        → Downloads (http h) bytes
    over_tls :
        {bytes : Bytes} {h g : TlsObfs Tcp}
        → TlsDuplex.Calls t law h bytes g
        → Downloads (tls h) bytes

module _ {Tcp Stream : Type 0} (t : Transport Tcp) (law : IsStream t)
    (net : Network Tcp Stream) where
  open law use {incoming, outgoing}
  open net use {connect}

  http-Uploads :
      {tcp tcp' : Tcp} {bytes : Bytes} (host : Text) (port : ℕ)
      → outgoing tcp ≡ []
      → NoCr host
      → Uploads {Stream = Stream} t (http (Http.new tcp host port)) bytes tcp'
      → Option.map (λ i. behind_match (outgoing tcp') (some i)) (find_double_crlf (outgoing tcp'))
        ≡ some bytes
  unfolding Http.new
  http-Uploads host port fresh plain (over_http {buf} {taken} {n} key first more) =
      let (whole, (wire, i, sent, found, body)) =
        HttpSession.writes-payload t law _ refl refl plain key first more in
      let all : outgoing _ ≡ wire = sent ∙ ap (λ o. o ++ wire) fresh in
      ap (λ w. Option.map (λ i. behind_match w (some i)) (find_double_crlf w)) all
      ∙ ap (Option.map (λ i. behind_match wire (some i))) found
      ∙ ap some body
      ∙ ap (λ b. some (b ++ taken)) (sym (take_all n buf (omega (arith, whole))))

  tls-Uploads :
      {tcp tcp' : Tcp} {bytes : Bytes} (host : Text)
      → outgoing tcp ≡ []
      → length (utf8 host) ≤ 48_939
      → Uploads {Stream = Stream} t (tls (Tls.new tcp host)) bytes tcp'
      → tls_server (outgoing tcp') ≡ some bytes
  unfolding Tls.new
  tls-Uploads host fresh short (over_tls {buf} {chunks} random session input first more) =
      let (_, (hello, later, sent, read, surfaced)) =
        TlsSession.writes-records t law buf _ refl refl input random session short first more in
      ap tls_server (sent ∙ ap (λ o. o ++ (hello ++ later)) fresh)
      ∙ tls_server-hello hello later read surfaced

  http-Downloads :
      (tcp : Tcp) {bytes : Bytes} (host : Text) (port : ℕ)
      → Downloads {Stream = Stream} t law (http (Http.new tcp host port)) bytes
      → (rest : Bytes) × (behind_head (incoming tcp) ≡ bytes ++ rest)
  unfolding Http.new
  http-Downloads tcp host port (over_http calls) =
      (_, (HttpDuplex.Calls-Delivers t law _ (HttpRead.new-IsValid t law _ host port) calls).0)

  tls-Downloads :
      (tcp : Tcp) {bytes : Bytes} (host : Text)
      → Downloads {Stream = Stream} t law (tls (Tls.new tcp host)) bytes
      → (rest : Bytes) × (surface (skip 105) (incoming tcp) ≡ bytes ++ rest)
  unfolding Tls.new
  tls-Downloads tcp host (over_tls calls) =
      (_, (TlsDuplex.Calls-Conveys t law _ (TlsRead.new-IsValid t law _ host) calls).0)

  -- What `wrap_stream` wraps is the connection that it made.
  wraps-http :
      {tcp : Tcp} {w : Wrapped Tcp Stream} (host server_host : Text) (port : ℕ)
      → connect server_host port ≡ done tcp
      → wrap_stream net (simple_obfs_http host) server_host port ≡ ok w
      → w ≡ http (Http.new tcp (host_or host server_host) port)
  unfolding wrap_stream from_io
  wraps-http host server_host port e f = let f' = rw e at f in cc

  wraps-tls :
      {tcp : Tcp} {w : Wrapped Tcp Stream} (host server_host : Text) (port : ℕ)
      → connect server_host port ≡ done tcp
      → wrap_stream net (simple_obfs_tls host) server_host port ≡ ok w
      → w ≡ tls (Tls.new tcp (host_or host server_host))
  unfolding wrap_stream from_io
  wraps-tls host server_host port e f = let f' = rw e at f in cc

  in_websocket :
      {w : Wrapped Tcp Stream} (r : Result Stream)
      → (r >>= λ s. ok (websocket s)) ≡ ok w
      → (s : Stream) × (w ≡ websocket s)
  in_websocket (ok s) e = (s, cc)
  in_websocket (err x) e = cc

  wraps-websocket :
      {w : Wrapped Tcp Stream} (cfg : V2rayPluginConfig) (server_host : Text) (port : ℕ)
      → wrap_stream net (v2ray cfg) server_host port ≡ ok w
      → (s : Stream) × (w ≡ websocket s)
  unfolding wrap_stream
  wraps-websocket cfg server_host port e = in_websocket (dial net cfg server_host port) e

  -- On a connection on which nothing was sent yet, a simple-obfs server reads the bytes that the
  -- wrapper of `wrap_stream` took and nothing else, whatever is read and flushed between the
  -- writes: in HTTP, if the host and the encoded key hold no carriage return, and in TLS, if the
  -- first write has a byte to send, 28 and 32 random bytes are drawn, and the server's name has
  -- at most 48939 bytes.
  pub wrap_stream-Uploads :
      (kind : PluginKind) (server_host : Text) (port : ℕ) {tcp tcp' : Tcp} {w : Wrapped Tcp Stream}
      {bytes : Bytes}
      → connect server_host port ≡ done tcp
      → outgoing tcp ≡ []
      → HostFits kind server_host
      → wrap_stream net kind server_host port ≡ ok w
      → Uploads t w bytes tcp'
      → server_reads kind (outgoing tcp') ≡ some bytes
  wrap_stream-Uploads (simple_obfs_http host) server_host port {tcp' = tcp'} {bytes = bytes} e fresh
        fits f u =
      http-Uploads (host_or host server_host) port fresh fits
        (subst (λ w. Uploads t w bytes tcp') (wraps-http host server_host port e f) u)
  wrap_stream-Uploads (simple_obfs_tls host) server_host port {tcp' = tcp'} {bytes = bytes} e fresh
        fits f u =
      tls-Uploads (host_or host server_host) fresh fits
        (subst (λ w. Uploads t w bytes tcp') (wraps-tls host server_host port e f) u)
  wrap_stream-Uploads (v2ray cfg) server_host port {tcp' = tcp'} {bytes = bytes} e fresh fits f u =
      absurd (
        no-uploads
          (subst (λ w. Uploads t w bytes tcp') (wraps-websocket cfg server_host port f).1 u))
    where
      no-uploads : {s : Stream} → Uploads {Stream = Stream} t (websocket s) bytes tcp' → ⊥
      no-uploads d = elim d [ ]

  -- What a caller reads of the wrapper of `wrap_stream` is the front of what a simple-obfs server has
  -- for it, whatever is written, flushed and shut down between the reads, and whichever of them wait
  -- or fail.
  pub wrap_stream-Downloads :
      (kind : PluginKind) (server_host : Text) (port : ℕ) {tcp : Tcp} {w : Wrapped Tcp Stream}
      {bytes : Bytes}
      → connect server_host port ≡ done tcp
      → wrap_stream net kind server_host port ≡ ok w
      → Downloads t law w bytes
      → (rest : Bytes) × (server_sends kind (incoming tcp) ≡ bytes ++ rest)
  wrap_stream-Downloads (simple_obfs_http host) server_host port {bytes = bytes} e f d =
      http-Downloads _ (host_or host server_host) port
        (subst (λ w. Downloads t law w bytes) (wraps-http host server_host port e f) d)
  wrap_stream-Downloads (simple_obfs_tls host) server_host port {bytes = bytes} e f d =
      tls-Downloads _ (host_or host server_host)
        (subst (λ w. Downloads t law w bytes) (wraps-tls host server_host port e f) d)
  wrap_stream-Downloads (v2ray cfg) server_host port {bytes = bytes} e f d = absurd (
      no-downloads
        (subst (λ w. Downloads t law w bytes) (wraps-websocket cfg server_host port f).1 d))
    where
      no-downloads : {s : Stream} → Downloads {Stream = Stream} t law (websocket s) bytes → ⊥
      no-downloads d = elim d [ ]
