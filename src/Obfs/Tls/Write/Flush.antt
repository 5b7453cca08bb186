-- ===== src/Obfs/Tls/Write/Flush.antt =====
-- `poll_flush` and `poll_shutdown` of `TlsObfs` in native/sslocal-ffi/src/obfs.rs.
use shadowsocks_ohos.Prelude.{
  append_assoc, Bytes, ℕ, false, ◌≤◌, ◌≡◌, refl, sym, ap, ◌∙◌, [], ◌++◌, length, drop, drop-nil,
  append-nil, is_empty, is_empty-nil, Bool-cases, inl, inr,
}
use shadowsocks_ohos.Io.{Poll, pending, ok, err, Transport, IsStream}
use shadowsocks_ohos.Obfs.Tls.{
  Entropy, framed, poll_write, TlsObfs, poll_flush, poll_shutdown, poll_drain_write_buf,
  after_drain, if_drained, on_inner,
}
use shadowsocks_ohos.Obfs.Tls.Write.{
  committed, Drains, poll_drain_write_buf-Drains, poll_write-wraps, record_of, chunk_of,
}

module _ {S : Type 0} (t : Transport S) (law : IsStream t) where
  open law use {outgoing, flush_keeps, shutdown_keeps}

  -- What is committed to stays, and an answer of `ok` says that all of it has been sent.
  abbrev pub Keeps : TlsObfs S → Poll (Unit {0}) × TlsObfs S → Type 0
  Keeps h (r, g) =
      (committed t law g ≡ committed t law h)
      × (g.first_request ≡ h.first_request)
      × (r ≡ ok tt → (g.write_buf ≡ []) × (outgoing g.inner ≡ committed t law h))

  nothing_buffered : (h : TlsObfs S) → h.write_buf ≡ [] → committed t law h ≡ outgoing h.inner
  nothing_buffered h e =
      ap (λ b. outgoing h.inner ++ drop h.write_buf_off b) e
      ∙ ap (λ b. outgoing h.inner ++ b) (drop-nil h.write_buf_off)
      ∙ append-nil (outgoing h.inner)

  module _ (act : S → Poll (Unit {0}) × S) (keeps : (s : S) → outgoing (act s).1 ≡ outgoing s) where
    on_inner-Keeps : (h : TlsObfs S) → h.write_buf ≡ [] → Keeps h (on_inner act h)
    unfolding on_inner
    on_inner-Keeps h e = (
      ap (λ o. o ++ drop h.write_buf_off h.write_buf) (keeps h.inner),
      refl,
      λ _. (e, keeps h.inner ∙ sym (nothing_buffered h e)),
    )

    if_drained-Keeps :
        (h : TlsObfs S) (d : Poll (Unit {0}) × TlsObfs S)
        → Drains t law h d
        → Keeps h (if_drained act d)
    unfolding if_drained
    if_drained-Keeps h (pending, g) k = (k.1, k.4, λ e. cc)
    if_drained-Keeps h (err x, g) k = (k.1, k.4, λ e. cc)
    if_drained-Keeps h (ok u, g) (k, _) =
        let (c, f, o) = on_inner-Keeps g k.0 in
        let same : committed t law g ≡ committed t law h = nothing_buffered g k.0 ∙ k.2 in
        (c ∙ same, f ∙ k.3, λ e. ((o e).0, (o e).1 ∙ same))

    after_drain-Keeps :
        (h : TlsObfs S) → h.write_buf_off ≤ length h.write_buf → Keeps h (after_drain t act h)
    unfolding after_drain
    after_drain-Keeps h le = elim (Bool-cases (is_empty h.write_buf)) [
      | inl idle ↦ rw idle (on_inner-Keeps h (is_empty-nil h.write_buf idle))
      | inr busy ↦
          rw busy
            (if_drained-Keeps h (poll_drain_write_buf t h) (poll_drain_write_buf-Drains t law h le))
    ]

  -- Neither a flush nor a shutdown loses, repeats or reorders what the wrapper has taken, and one
  -- that answers `ok` has sent all of it to the inner stream, from any offset inside the buffer.
  pub poll_flush-Keeps :
      (h : TlsObfs S)
      → h.write_buf_off ≤ length h.write_buf
      → Keeps h (poll_flush t h) × Keeps h (poll_shutdown t h)
  unfolding poll_flush poll_shutdown
  poll_flush-Keeps h le = (
    after_drain-Keeps t.poll_flush flush_keeps h le,
    after_drain-Keeps t.poll_shutdown shutdown_keeps h le,
  )

  -- A write of some bytes, with nothing buffered before it, that is left pending, then flushed
  -- with the answer `ok`, and only then written again with the answer `ok`, as its `Pending`
  -- asks, sends its chunk twice: in the record that the first call built, a ClientHello or not,
  -- and in a record of its own behind it.
  pub flush_before_rewrite :
      (buf : Bytes) {n : ℕ} (r r' : Entropy) (h waiting flushed written : TlsObfs S)
      → h.write_buf ≡ []
      → is_empty buf ≡ false
      → poll_write t r buf h ≡ (pending, waiting)
      → poll_flush t waiting ≡ (ok tt, flushed)
      → poll_write t r' buf flushed ≡ (ok n, written)
      → outgoing written.inner
        ≡ outgoing h.inner
          ++ (record_of t law r h.first_request h.server (chunk_of t law buf)
              ++ framed (chunk_of t law buf))
  flush_before_rewrite buf {n} r r' h waiting flushed written idle input pends flushes writes =
      let chunk = chunk_of t law buf in
      let first = record_of t law r h.first_request h.server chunk in
      let held = rw pends at (poll_write-wraps t law r buf h idle input) in
      let kept = rw flushes at (poll_flush-Keeps waiting held.2).0 in
      let (empty, sent) = kept.2 refl in
      let (w, _) = rw writes at (poll_write-wraps t law r' buf flushed empty input) in
      w.2
      ∙ ap (λ b. outgoing flushed.inner ++ record_of t law r' b flushed.server chunk)
          (kept.1 ∙ held.4)
      ∙ ap (λ o. o ++ framed chunk) (sent ∙ held.1)
      ∙ append_assoc (outgoing h.inner) first (framed chunk)
