-- ===== src/Obfs/Http/Write/Session.antt =====
-- Whole exchanges on the write side of `HttpObfs` in native/sslocal-ffi/src/obfs.rs.
use shadowsocks_ohos.Prelude.{
  arith, ℕ, ◌+◌, ◌≤◌, ◌≡◌, refl, sym, ap, ◌∙◌, [], ◌++◌, Bytes, true, false, length, take, drop,
  append-nil, append_assoc, is_empty, some, drop-append,
}
use shadowsocks_ohos.Encode.{NoCr}
use shadowsocks_ohos.Io.{Poll, pending, ok, Transport, IsStream}
use shadowsocks_ohos.Obfs.Http.{HttpObfs, Entropy, build_http_request, find_double_crlf, poll_write}
use shadowsocks_ohos.Obfs.Http.Find.{find_double_crlf-append, find_double_crlf-some, IsAt-le}
use shadowsocks_ohos.Obfs.Http.Request.{build_http_request-body}
use shadowsocks_ohos.Obfs.Http.Write.{
  committed, requested, poll_write-resumes, poll_write-first, poll_write-Passes,
}
use shadowsocks_ohos.Obfs.Http.{poll_read, poll_flush, after_drain, on_inner}
use shadowsocks_ohos.Obfs.Http.Read.Frame.{poll_read-SameWrites}

module _ {S : Type 0} (t : Transport S) where
  -- The caller of `AsyncWrite` writes `buf`, again after each `Pending`, until `n` of it is taken.
  pub data Accepts (buf : Bytes) (n : ℕ) (g : HttpObfs S) : Entropy → HttpObfs S → Type 0 where
    answered :
        {r : Entropy} {h : HttpObfs S} → poll_write t r buf h ≡ (ok n, g) → Accepts buf n g r h
    retried :
        {r r' : Entropy} {h h' : HttpObfs S}
        → poll_write t r buf h ≡ (pending, h')
        → Accepts buf n g r' h'
        → Accepts buf n g r h
    read_meanwhile :
        {r : Entropy} {h h' : HttpObfs S} {x : Poll Bytes} (m : ℕ)
        → poll_read t m h ≡ some (x, h')
        → Accepts buf n g r h'
        → Accepts buf n g r h

  -- Some writes in a row, reads and flushes between them, and the parts of their buffers that were taken.
  pub data Follows (h : HttpObfs S) : Bytes → HttpObfs S → Type 0 where
    none_yet : Follows h [] h
    then_write :
        {taken buf : Bytes} {n : ℕ} {r : Entropy} {g g' : HttpObfs S}
        → Follows h taken g
        → Accepts buf n g' r g
        → Follows h (taken ++ take n buf) g'
    then_read :
        {taken : Bytes} {x : Poll Bytes} {g g' : HttpObfs S} (m : ℕ)
        → Follows h taken g
        → poll_read t m g ≡ some (x, g')
        → Follows h taken g'
    then_flush :
        {taken : Bytes} {g : HttpObfs S} → Follows h taken g → Follows h taken (poll_flush t g).1

module _ {S : Type 0} (t : Transport S) (law : IsStream t) where
  open law use {outgoing, flush_keeps}

  request_not_empty :
      (r : Entropy) (buf : Bytes) (h : HttpObfs S)
      → is_empty (build_http_request r h.host h.port buf) ≡ false
  unfolding build_http_request
  request_not_empty r buf h = refl

  -- What a drained request leaves.
  abbrev pub Drained : ℕ → HttpObfs S → HttpObfs S → Type 0
  Drained n h g =
      (n ≡ h.pending_input)
      × (outgoing g.inner ≡ committed t law h)
      × (g.write_buf ≡ [])
      × (g.first_request ≡ h.first_request)

  Accepts-Drained :
      {buf : Bytes} {n : ℕ} {g : HttpObfs S} {r : Entropy} (h : HttpObfs S)
      → is_empty h.write_buf ≡ false
      → h.write_buf_off ≤ length h.write_buf
      → Accepts t buf n g r h
      → Drained n h g
  Accepts-Drained {buf} {r = r} h busy le (answered e) =
      let (s, n) = rw e at (poll_write-resumes t law r buf h busy le) in (n, s.2, s.0, s.3)
  Accepts-Drained {buf} {r = r} h busy le (retried {h' = h'} e next) =
      let k = rw e at (poll_write-resumes t law r buf h busy le) in
      let d = Accepts-Drained h' (ap is_empty k.0 ∙ busy) k.2 next in
      (d.0 ∙ k.3, d.1 ∙ k.1, d.2, d.3 ∙ k.4)
  Accepts-Drained {buf} {n} {g} h busy le (read_meanwhile {h' = h'} m e next) =
      let s = poll_read-SameWrites t law m h h' e in
      let d =
        Accepts-Drained h' (ap is_empty s.same_write_buf ∙ busy)
          (omega (arith, s.same_write_buf_off, ap length s.same_write_buf)) next in
      (
        d.0 ∙ s.same_pending_input,
        d.1 ∙ (λ i. s.same_outgoing i ++ drop (s.same_write_buf_off i) (s.same_write_buf i)),
        d.2,
        d.3 ∙ s.same_first_request,
      )

  -- The first write.
  Accepts-first :
      {buf : Bytes} {n : ℕ} {g : HttpObfs S} {r : Entropy} (h : HttpObfs S)
      → h.write_buf ≡ []
      → h.first_request ≡ true
      → Accepts t buf n g r h
      → Drained n (requested t law r buf h) g
  Accepts-first {buf} {r = r} h idle first (answered e) =
      let (s, n) = rw e at (poll_write-first t law r buf h idle first) in (n, s.2, s.0, s.3)
  Accepts-first {buf} {r = r} h idle first (retried {h' = h'} e next) =
      let k = rw e at (poll_write-first t law r buf h idle first) in
      let d = Accepts-Drained h' (ap is_empty k.0 ∙ request_not_empty r buf h) k.2 next in
      (d.0 ∙ k.3, d.1 ∙ k.1, d.2, d.3 ∙ k.4)
  Accepts-first {buf} {r = r} h idle first (read_meanwhile {h' = h'} m e next) =
      let s = poll_read-SameWrites t law m h h' e in
      let d = Accepts-first h' (s.same_write_buf ∙ idle) (s.same_first_request ∙ first) next in
      (
        d.0,
        d.1 ∙ (λ i. s.same_outgoing i ++ build_http_request r (s.same_host i) (s.same_port i) buf),
        d.2,
        d.3,
      )

  -- A write behind it.
  Accepts-passes :
      {buf : Bytes} {n : ℕ} {g : HttpObfs S} {r : Entropy} (h : HttpObfs S)
      → h.write_buf ≡ []
      → h.first_request ≡ false
      → Accepts t buf n g r h
      → (outgoing g.inner ≡ outgoing h.inner ++ take n buf)
        × (g.write_buf ≡ [])
        × (g.first_request ≡ false)
  Accepts-passes {buf} {r = r} h idle later (answered e) =
      let (w, b, f) = rw e at (poll_write-Passes t law r buf h idle later) in (w.0, b, f)
  Accepts-passes {buf} {n} {r = r} h idle later (retried {h' = h'} e next) =
      let (w, b, f) = rw e at (poll_write-Passes t law r buf h idle later) in
      let d = Accepts-passes h' b f next in (d.0 ∙ ap (λ o. o ++ take n buf) w, d.1, d.2)
  Accepts-passes {buf} {n} h idle later (read_meanwhile {h' = h'} m e next) =
      let s = poll_read-SameWrites t law m h h' e in
      let d = Accepts-passes h' (s.same_write_buf ∙ idle) (s.same_first_request ∙ later) next in
      (d.0 ∙ ap (λ o. o ++ take n buf) s.same_outgoing, d.1, d.2)

  -- A flush of an idle wrapper sends nothing.
  poll_flush_idle :
      (h : HttpObfs S)
      → h.write_buf ≡ []
      → (outgoing (poll_flush t h).1.inner ≡ outgoing h.inner)
        × ((poll_flush t h).1.write_buf ≡ [])
        × ((poll_flush t h).1.first_request ≡ h.first_request)
  unfolding poll_flush after_drain on_inner
  poll_flush_idle h e = rw (ap is_empty e) (flush_keeps h.inner, e, refl)

  Follows-passes :
      (h : HttpObfs S) {taken : Bytes} {g : HttpObfs S}
      → h.write_buf ≡ []
      → h.first_request ≡ false
      → Follows t h taken g
      → (outgoing g.inner ≡ outgoing h.inner ++ taken)
        × (g.write_buf ≡ [])
        × (g.first_request ≡ false)
  Follows-passes h idle later none_yet = (sym (append-nil _), idle, later)
  Follows-passes h idle later (then_write {taken} {buf} {n} {g = g} before more) =
      let (o, b, f) = Follows-passes h idle later before in
      let (o', b', f') = Accepts-passes g b f more in
      (o' ∙ ap (λ x. x ++ take n buf) o ∙ append_assoc _ taken (take n buf), b', f')
  Follows-passes h idle later (then_read {g = g} {g' = g'} m before e) =
      let (o, b, f) = Follows-passes h idle later before in
      let s = poll_read-SameWrites t law m g g' e in
      (s.same_outgoing ∙ o, s.same_write_buf ∙ b, s.same_first_request ∙ f)
  Follows-passes h idle later (then_flush {g = g} before) =
      let (o, b, f) = Follows-passes h idle later before in
      let (o', b', f') = poll_flush_idle g b in (o' ∙ o, b', f' ∙ f)

  -- On a fresh wrapper the first accepted write sends one fake request that carries the whole of its
  -- buffer, and what later writes take follows it unchanged. A server that cuts this behind the
  -- first double line end, as `find_double_crlf` finds it, reads the taken bytes and nothing else,
  -- whatever is read between the writes, and whatever is flushed between two of them. The host and
  -- the encoded key hold no carriage return.
  pub writes-payload :
      {buf taken : Bytes} {n : ℕ} {g g' : HttpObfs S} {r : Entropy} (h : HttpObfs S)
      → h.write_buf ≡ []
      → h.first_request ≡ true
      → NoCr h.host
      → NoCr (r.encode r.rand_bytes)
      → Accepts t buf n g r h
      → Follows t g taken g'
      → (n ≡ length buf)
        × ((wire : Bytes) × (i : ℕ) × (outgoing g'.inner ≡ outgoing h.inner ++ wire)
            × (find_double_crlf wire ≡ some i)
            × (drop (i + 4) wire ≡ buf ++ taken))
  writes-payload {buf} {taken} {g = g} {r = r} h idle first host key a later =
      let d = Accepts-first h idle first a in
      let (o, _, _) = Follows-passes g d.2 d.3 later in
      let request = build_http_request r h.host h.port buf in
      let (i, found, body) = build_http_request-body r h.host h.port buf host key in
      let fits = IsAt-le i request (find_double_crlf-some request found).here in
      (
        d.0,
        (
          request ++ taken,
          i,
          o ∙ ap (λ x. x ++ taken) d.1 ∙ append_assoc (outgoing h.inner) request taken,
          find_double_crlf-append request taken found,
          drop-append (i + 4) request taken fits ∙ ap (λ x. x ++ taken) body,
        ),
      )
