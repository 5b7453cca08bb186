-- ===== src/Obfs/Tls/Write/Willing.antt =====
-- Writes of `TlsObfs` in native/sslocal-ffi/src/obfs.rs on a stream that takes something of every write.
use shadowsocks_ohos.Prelude.{
  ℕ, ◌≤◌, ◌≡◌, refl, ap, Bool, true, false, is_empty-nil, [], ◌∷◌, Bytes, length, min, is_empty,
  if◌then◌else◌, Bool-cases, inl, inr,
}
use shadowsocks_ohos.Io.{Poll, pending, ok, err, Transport, IsStream}
use shadowsocks_ohos.Obfs.Drain.{drain}
use shadowsocks_ohos.Obfs.Drain.Willing.{IsWilling, drain_done}
use shadowsocks_ohos.Obfs.Tls.{
  TlsObfs, Entropy, tls_chunk_size, drained, report, poll_drain_write_buf, drain_pending,
  poll_write,
}
use shadowsocks_ohos.Obfs.Tls.Write.{
  Sends, Reports, wrapped, poll_write-wraps, poll_write-resumes, poll_write-nil,
}

reported :
    {S : Type 0} (h : TlsObfs S) (d : Poll (Unit {0}) × ℕ × S)
    → d.0 ≡ ok tt
    → (report (drained h d)).0 ≡ ok h.pending_input
unfolding report drained
reported h (ok u, off, s) e = refl
reported h (pending, off, s) e = cc
reported h (err x, off, s) e = cc

module _ {S : Type 0} (t : Transport S) where
  drain_pending_done : IsWilling t → (h : TlsObfs S) → (drain_pending t h).0 ≡ ok h.pending_input
  unfolding drain_pending poll_drain_write_buf
  drain_pending_done w h =
      reported h (drain t h.write_buf h.write_buf_off h.inner)
        (drain_done t w h.write_buf h.write_buf_off h.inner)

  answered :
      (r : Entropy) (buf : Bytes) (h : TlsObfs S)
      → IsWilling t
      → (poll_write t r buf h).0
        ≡ ok (if is_empty h.write_buf then min (length buf) tls_chunk_size else h.pending_input)
  unfolding poll_write
  answered r [] h w = elim (Bool-cases (is_empty h.write_buf)) [
    | inl idle ↦ rw idle refl
    | inr busy ↦ rw busy (drain_pending_done w h)
  ]
  answered r (b ∷ buf) h w = elim (Bool-cases (is_empty h.write_buf)) [
    | inl idle ↦ rw idle (drain_pending_done w _)
    | inr busy ↦ rw busy (drain_pending_done w h)
  ]

  module _ (law : IsStream t) where
    Reports-Sends :
        (h : TlsObfs S) (p : Poll ℕ × TlsObfs S) (n : ℕ)
        → p.0 ≡ ok n
        → Reports t law h p
        → Sends t law h p.1
    Reports-Sends h (pending, g) n e d = absurd cc
    Reports-Sends h (err x, g) n e d = absurd cc
    Reports-Sends h (ok m, g) n e d = d.0

    -- What a write comes to when the buffer is empty, or not.
    abbrev pub Takes : Entropy → Bytes → TlsObfs S → (idle : Bool) → Poll ℕ × TlsObfs S → Type 0
    Takes r buf h false (a, g) = (a ≡ ok h.pending_input) × Sends t law h g
    Takes r [] h true (a, g) = (a ≡ ok 0) × (g ≡ h)
    Takes r (b ∷ buf) h true (a, g) =
        (a ≡ ok (min (length (b ∷ buf)) 16_384)) × Sends t law (wrapped t law r (b ∷ buf) h) g

    -- On a stream that takes a byte at least of every write of some bytes, every write is through at
    -- once. A write of some bytes is accepted up to 16 KiB, and the whole record that carries what was
    -- accepted has been sent; a write while a record is buffered answers what was pending, and all of
    -- the record has been sent; the buffer is then empty. A write of nothing otherwise does nothing.
    pub poll_write_taken :
        (r : Entropy) (buf : Bytes) (h : TlsObfs S)
        → IsWilling t
        → h.write_buf_off ≤ length h.write_buf
        → Takes r buf h (is_empty h.write_buf) (poll_write t r buf h)
    poll_write_taken r buf h w inside = on_case buf (is_empty h.write_buf) refl
      where
        on_case :
            (buf : Bytes) (idle : Bool)
            → is_empty h.write_buf ≡ idle
            → Takes r buf h idle (poll_write t r buf h)
        on_case buf false e =
            let a = rw e at (answered r buf h w) in
            (a, Reports-Sends h _ _ a (poll_write-resumes t law r buf h e inside))
        on_case [] true e =
            let p = poll_write-nil t law r h (is_empty-nil h.write_buf e) in
            (ap (λ p. p.0) p, ap (λ p. p.1) p)
        on_case (b ∷ buf) true e =
            let a = rw e at (answered r (b ∷ buf) h w) in
            (
              a,
              Reports-Sends (wrapped t law r (b ∷ buf) h) _ _ a
                  (poll_write-wraps t law r (b ∷ buf) h (is_empty-nil h.write_buf e) refl),
            )
