-- ===== src/Obfs/Tls/Write/Session.antt =====
-- Whole exchanges on the write side of `TlsObfs` in native/sslocal-ffi/src/obfs.rs.
use shadowsocks_ohos.Prelude.{
  drop, ℕ, ◌≤◌, ◌<◌, ◌^◌, min, ◌≡◌, refl, sym, ap, ◌∙◌, List, [], ◌∷◌, ◌++◌, Bytes, Text, Bool,
  true, false, length, take, length-take, arith, append-nil, append_assoc, is_empty, some, All,
  All-append,
}
use shadowsocks_ohos.Encode.{utf8}
use shadowsocks_ohos.Io.{Poll, pending, ok, Transport, IsStream}
use shadowsocks_ohos.Obfs.Tls.{
  TlsObfs, Entropy, build_client_hello, framed, poll_write, tls_chunk_size,
}
use shadowsocks_ohos.Obfs.Tls.Hello.{read_client_hello}
use shadowsocks_ohos.Obfs.Tls.Hello.RoundTrip.{read_client_hello-build_client_hello}
use shadowsocks_ohos.Obfs.Tls.Surface.{skip, surface, records, joined, surface-records}
use shadowsocks_ohos.Obfs.Tls.Write.{
  committed, wrapped, chunk_of, record_of, poll_write-resumes, poll_write-wraps,
}
use shadowsocks_ohos.Obfs.Tls.{poll_read, poll_flush, after_drain, on_inner}
use shadowsocks_ohos.Obfs.Tls.Read.Frame.{poll_read-SameWrites}

module _ {S : Type 0} (t : Transport S) where
  -- The caller of `AsyncWrite` writes `buf`, again after each `Pending`, until `n` of it is taken.
  pub data Accepts (buf : Bytes) (n : ℕ) (g : TlsObfs S) : Entropy → TlsObfs S → Type 0 where
    answered :
        {r : Entropy} {h : TlsObfs S} → poll_write t r buf h ≡ (ok n, g) → Accepts buf n g r h
    retried :
        {r r' : Entropy} {h h' : TlsObfs S}
        → poll_write t r buf h ≡ (pending, h')
        → Accepts buf n g r' h'
        → Accepts buf n g r h
    read_meanwhile :
        {r : Entropy} {h h' : TlsObfs S} {x : Poll Bytes} (f m : ℕ)
        → poll_read t f m h ≡ some (x, h')
        → Accepts buf n g r h'
        → Accepts buf n g r h

  -- Some writes of bytes in a row, reads and flushes between them, and the chunks that they took.
  pub data Follows (h : TlsObfs S) : List Bytes → TlsObfs S → Type 0 where
    none_yet : Follows h [] h
    then_write :
        {chunks : List Bytes} {buf : Bytes} {n : ℕ} {r : Entropy} {g g' : TlsObfs S}
        → Follows h chunks g
        → is_empty buf ≡ false
        → Accepts buf n g' r g
        → Follows h (chunks ++ take n buf ∷ []) g'
    then_read :
        {chunks : List Bytes} {x : Poll Bytes} {g g' : TlsObfs S} (f m : ℕ)
        → Follows h chunks g
        → poll_read t f m g ≡ some (x, g')
        → Follows h chunks g'
    then_flush :
        {chunks : List Bytes} {g : TlsObfs S}
        → Follows h chunks g
        → Follows h chunks (poll_flush t g).1

module _ {S : Type 0} (t : Transport S) (law : IsStream t) where
  open law use {outgoing, flush_keeps}

  record_not_empty :
      (r : Entropy) (first : Bool) (server : Text) (chunk : Bytes)
      → is_empty (record_of t law r first server chunk) ≡ false
  unfolding build_client_hello framed
  record_not_empty r true server chunk = refl
  record_not_empty r false server chunk = refl

  -- What a drained record leaves.
  abbrev pub Drained : ℕ → TlsObfs S → TlsObfs S → Type 0
  Drained n h g =
      (n ≡ h.pending_input)
      × (outgoing g.inner ≡ committed t law h)
      × (g.write_buf ≡ [])
      × (g.first_request ≡ h.first_request)

  Accepts-Drained :
      {buf : Bytes} {n : ℕ} {g : TlsObfs S} {r : Entropy} (h : TlsObfs S)
      → is_empty h.write_buf ≡ false
      → h.write_buf_off ≤ length h.write_buf
      → Accepts t buf n g r h
      → Drained n h g
  Accepts-Drained {buf} {r = r} h busy le (answered e) =
      let (s, n) = rw e at (poll_write-resumes t law r buf h busy le) in (n, s.2, s.0, s.3)
  Accepts-Drained {buf} {r = r} h busy le (retried {h' = h'} e next) =
      let k = rw e at (poll_write-resumes t law r buf h busy le) in
      let d = Accepts-Drained h' (ap is_empty k.0 ∙ busy) k.2 next in
      (d.0 ∙ k.3, d.1 ∙ k.1, d.2, d.3 ∙ k.4)
  Accepts-Drained h busy le (read_meanwhile {h' = h'} f m e next) =
      let s = poll_read-SameWrites t law f m h h' e in
      let d =
        Accepts-Drained h' (ap is_empty s.same_write_buf ∙ busy)
          (omega (arith, s.same_write_buf_off, ap length s.same_write_buf)) next in
      (
        d.0 ∙ s.same_pending_input,
        d.1 ∙ (λ i. s.same_outgoing i ++ drop (s.same_write_buf_off i) (s.same_write_buf i)),
        d.2,
        d.3 ∙ s.same_first_request,
      )

  Accepts-wraps :
      {buf : Bytes} {n : ℕ} {g : TlsObfs S} {r : Entropy} (h : TlsObfs S)
      → h.write_buf ≡ []
      → is_empty buf ≡ false
      → Accepts t buf n g r h
      → Drained n (wrapped t law r buf h) g
  Accepts-wraps {buf} {r = r} h idle input (answered e) =
      let (s, n) = rw e at (poll_write-wraps t law r buf h idle input) in (n, s.2, s.0, s.3)
  Accepts-wraps {buf} {r = r} h idle input (retried {h' = h'} e next) =
      let k = rw e at (poll_write-wraps t law r buf h idle input) in
      let full = record_not_empty r h.first_request h.server (chunk_of t law buf) in
      let d = Accepts-Drained h' (ap is_empty k.0 ∙ full) k.2 next in
      (d.0 ∙ k.3, d.1 ∙ k.1, d.2, d.3 ∙ k.4)
  Accepts-wraps {buf} {r = r} h idle input (read_meanwhile {h' = h'} f m e next) =
      let s = poll_read-SameWrites t law f m h h' e in
      let d = Accepts-wraps h' (s.same_write_buf ∙ idle) input next in
      (
        d.0,
        d.1 ∙ (λ i.
            s.same_outgoing i
            ++ record_of t law r (s.same_first_request i) (s.same_server i) (chunk_of t law buf)),
        d.2,
        d.3,
      )

  -- A flush of an idle wrapper sends nothing.
  poll_flush_idle :
      (h : TlsObfs S)
      → h.write_buf ≡ []
      → (outgoing (poll_flush t h).1.inner ≡ outgoing h.inner)
        × ((poll_flush t h).1.write_buf ≡ [])
        × ((poll_flush t h).1.first_request ≡ h.first_request)
  unfolding poll_flush after_drain on_inner
  poll_flush_idle h e = rw (ap is_empty e) (flush_keeps h.inner, e, refl)

  -- A chunk fits the sixteen bits of its length.
  abbrev Fits : Bytes → Type 0
  Fits chunk = length chunk < 2 ^ 16

  records-append : (ps : List Bytes) (p : Bytes) → records (ps ++ p ∷ []) ≡ records ps ++ framed p
  records-append [] p = append-nil (framed p)
  records-append (q ∷ ps) p =
      ap (λ b. framed q ++ b) (records-append ps p)
      ∙ sym (append_assoc (framed q) (records ps) (framed p))

  Follows-records :
      (h : TlsObfs S) {chunks : List Bytes} {g : TlsObfs S}
      → h.write_buf ≡ []
      → h.first_request ≡ false
      → Follows t h chunks g
      → (outgoing g.inner ≡ outgoing h.inner ++ records chunks)
        × All Fits chunks
        × (g.write_buf ≡ [])
        × (g.first_request ≡ false)
  Follows-records h idle later none_yet = (sym (append-nil _), tt, idle, later)
  Follows-records h idle later (then_write {chunks} {buf} {n} {r} {g = g} before input more) =
      let (o, fits, b, f) = Follows-records h idle later before in
      let d = Accepts-wraps g b input more in
      let same : take n buf ≡ chunk_of t law buf = ap (λ k. take k buf) d.0 in
      let sent : committed t law (wrapped t law r buf g)
          ≡ outgoing g.inner ++ framed (chunk_of t law buf) =
        ap (λ x. outgoing g.inner ++ record_of t law r x g.server (chunk_of t law buf)) f in
      (
        d.1
            ∙ sent
            ∙ ap (λ x. x ++ framed (chunk_of t law buf)) o
            ∙ append_assoc (outgoing h.inner) (records chunks) (framed (chunk_of t law buf))
            ∙ ap (λ x. outgoing h.inner ++ x)
                (ap (λ x. records chunks ++ framed x) (sym same)
                  ∙ sym (records-append chunks (take n buf))),
        All-append Fits chunks (take n buf ∷ []) fits (omega (arith, d.0, length-take n buf), tt),
        d.2,
        d.3,
      )
  Follows-records h idle later (then_read {g = g} {g' = g'} f m before e) =
      let (o, fits, b, first) = Follows-records h idle later before in
      let s = poll_read-SameWrites t law f m g g' e in
      (s.same_outgoing ∙ o, fits, s.same_write_buf ∙ b, s.same_first_request ∙ first)
  Follows-records h idle later (then_flush {g = g} before) =
      let (o, fits, b, first) = Follows-records h idle later before in
      let (o', b', first') = poll_flush_idle g b in (o' ∙ o, fits, b', first' ∙ first)

  -- On a fresh wrapper the first accepted write of some bytes takes at most 16 KiB of them and sends
  -- one fake ClientHello; every later one takes a chunk likewise and sends one application-data
  -- record. A TLS server finds the first chunk in the session ticket and the server's name in the
  -- SNI, and behind it the records surface the later chunks, whole and in order, whatever is read
  -- between the writes, and whatever is flushed between two of them. It takes 28 and 32 random bytes,
  -- and a name of at most 48939 bytes.
  pub writes-records :
      (buf : Bytes) {n : ℕ} {chunks : List Bytes} {g g' : TlsObfs S} {r : Entropy} (h : TlsObfs S)
      → h.write_buf ≡ []
      → h.first_request ≡ true
      → is_empty buf ≡ false
      → length r.random ≡ 28
      → length r.session_id ≡ 32
      → length (utf8 h.server) ≤ 48_939
      → Accepts t buf n g r h
      → Follows t g chunks g'
      → (n ≡ min (length buf) tls_chunk_size)
        × ((hello : Bytes) × (later : Bytes) × (outgoing g'.inner
              ≡ outgoing h.inner ++ (hello ++ later))
            × (read_client_hello hello ≡ some (take n buf, utf8 h.server))
            × (surface (skip 3) later ≡ joined chunks))
  writes-records buf {n} {chunks} {g} {r = r} h idle first input e k name a more =
      let d = Accepts-wraps h idle input a in
      let chunk = chunk_of t law buf in
      let (o, fits, _, _) = Follows-records g d.2 d.3 more in
      let hello = build_client_hello r chunk h.server in
      let sent : committed t law (wrapped t law r buf h) ≡ outgoing h.inner ++ hello =
        ap (λ x. outgoing h.inner ++ record_of t law r x h.server chunk) first in
      let (read, _) =
        read_client_hello-build_client_hello r chunk h.server e k
          (omega (arith, length-take (min (length buf) tls_chunk_size) buf)) in
      (
        d.0,
        (
          hello,
          records chunks,
          o
              ∙ ap (λ x. x ++ records chunks) (d.1 ∙ sent)
              ∙ append_assoc (outgoing h.inner) hello (records chunks),
          read ∙ ap (λ x. some (x, utf8 h.server)) (ap (λ j. take j buf) (sym d.0)),
          surface-records chunks fits,
        ),
      )
