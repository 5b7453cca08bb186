-- ===== src/Obfs/Http/Write/Flush.antt =====
-- `poll_flush` and `poll_shutdown` of `HttpObfs` in native/sslocal-ffi/src/obfs.rs, and a write
-- that is flushed before it is retried.
use shadowsocks_ohos.Prelude.{
  ℕ, ◌≤◌, ◌≡◌, refl, sym, ap, ◌∙◌, [], ◌++◌, Bytes, true, length, take, drop, drop-nil, append-nil,
  append_assoc, is_empty, is_empty-nil, Bool-cases, inl, inr,
}
use shadowsocks_ohos.Io.{Poll, pending, ok, err, Transport, IsStream}
use shadowsocks_ohos.Obfs.Http.{
  HttpObfs, Entropy, build_http_request, poll_write, poll_flush, poll_shutdown,
  poll_drain_write_buf, after_drain, if_drained, on_inner,
}
use shadowsocks_ohos.Obfs.Http.Write.{
  committed, Drains, poll_drain_write_buf-Drains, poll_write-first, poll_write-Passes,
}

module _ {S : Type 0} (t : Transport S) (law : IsStream t) where
  open law use {outgoing, flush_keeps, shutdown_keeps}

  -- What is committed to stays, and an answer of `ok` says that all of it has been sent.
  abbrev pub Flushes : HttpObfs S → Poll (Unit {0}) × HttpObfs S → Type 0
  Flushes h (r, g) =
      (committed t law g ≡ committed t law h)
      × (g.first_request ≡ h.first_request)
      × (r ≡ ok tt → (g.write_buf ≡ []) × (outgoing g.inner ≡ committed t law h))

  nothing_buffered : (h : HttpObfs S) → h.write_buf ≡ [] → committed t law h ≡ outgoing h.inner
  nothing_buffered h e =
      ap (λ b. outgoing h.inner ++ drop h.write_buf_off b) e
      ∙ ap (λ b. outgoing h.inner ++ b) (drop-nil h.write_buf_off)
      ∙ append-nil (outgoing h.inner)

  module _ (act : S → Poll (Unit {0}) × S) (keeps : (s : S) → outgoing (act s).1 ≡ outgoing s) where
    on_inner-Flushes : (h : HttpObfs S) → h.write_buf ≡ [] → Flushes h (on_inner act h)
    unfolding on_inner
    on_inner-Flushes h e = (
      ap (λ o. o ++ drop h.write_buf_off h.write_buf) (keeps h.inner),
      refl,
      λ _. (e, keeps h.inner ∙ sym (nothing_buffered h e)),
    )

    if_drained-Flushes :
        (h : HttpObfs S) (d : Poll (Unit {0}) × HttpObfs S)
        → Drains t law h d
        → Flushes h (if_drained act d)
    unfolding if_drained
    if_drained-Flushes h (pending, g) k = (k.1, k.4, λ e. cc)
    if_drained-Flushes h (err x, g) k = (k.1, k.4, λ e. cc)
    if_drained-Flushes h (ok u, g) (k, _) =
        let (c, f, o) = on_inner-Flushes g k.0 in
        let same : committed t law g ≡ committed t law h = nothing_buffered g k.0 ∙ k.2 in
        (c ∙ same, f ∙ k.3, λ e. ((o e).0, (o e).1 ∙ same))

    after_drain-Flushes :
        (h : HttpObfs S) → h.write_buf_off ≤ length h.write_buf → Flushes h (after_drain t act h)
    unfolding after_drain
    after_drain-Flushes h le = elim (Bool-cases (is_empty h.write_buf)) [
      | inl idle ↦ rw idle (on_inner-Flushes h (is_empty-nil h.write_buf idle))
      | inr busy ↦
          rw busy (
            if_drained-Flushes h (poll_drain_write_buf t h)
              (poll_drain_write_buf-Drains t law h le))
    ]

  -- Neither a flush nor a shutdown loses, repeats or reorders what the wrapper has taken, and one
  -- that answers `ok` has sent all of it to the inner stream, from any offset inside the buffer.
  pub poll_flush-Flushes :
      (h : HttpObfs S)
      → h.write_buf_off ≤ length h.write_buf
      → Flushes h (poll_flush t h) × Flushes h (poll_shutdown t h)
  unfolding poll_flush poll_shutdown
  poll_flush-Flushes h le = (
    after_drain-Flushes t.poll_flush flush_keeps h le,
    after_drain-Flushes t.poll_shutdown shutdown_keeps h le,
  )

  -- A first write that is left pending, then flushed with the answer `ok`, and only then written
  -- again, as its `Pending` asks, sends its payload twice: inside the request and, as far as it is
  -- taken, behind it.
  pub flush_before_retry :
      (buf : Bytes) {n : ℕ} (r r' : Entropy) (h waiting flushed written : HttpObfs S)
      → h.write_buf ≡ []
      → h.first_request ≡ true
      → poll_write t r buf h ≡ (pending, waiting)
      → poll_flush t waiting ≡ (ok tt, flushed)
      → poll_write t r' buf flushed ≡ (ok n, written)
      → outgoing written.inner
        ≡ outgoing h.inner ++ (build_http_request r h.host h.port buf ++ take n buf)
  flush_before_retry buf {n} r r' h waiting flushed written idle first pends flushes writes =
      let held = rw pends at (poll_write-first t law r buf h idle first) in
      let kept = rw flushes at (poll_flush-Flushes waiting held.2).0 in
      let (empty, sent) = kept.2 refl in
      let (w, _, _) =
        rw writes at (poll_write-Passes t law r' buf flushed empty (kept.1 ∙ held.4)) in
      w.0
      ∙ ap (λ o. o ++ take n buf) (sent ∙ held.1)
      ∙ append_assoc (outgoing h.inner) (build_http_request r h.host h.port buf) (take n buf)
