-- ===== src/Obfs/Tls/Write/Frame.antt =====
-- What the write side of `TlsObfs` in native/sslocal-ffi/src/obfs.rs leaves alone: the read side.
use shadowsocks_ohos.Prelude.{
  ℕ, ◌≡◌, refl, ◌∙◌, Bytes, length, take, min, Bool, false, is_empty, if◌then◌else◌, Bool-cases,
  inl, inr,
}
use shadowsocks_ohos.Io.{Poll, pending, ok, err, Transport, IsStream}
use shadowsocks_ohos.Obfs.Drain.Input.{drain-incoming}
use shadowsocks_ohos.Obfs.Tls.{
  TlsObfs, Entropy, build_client_hello, framed, tls_chunk_size, drained, report, on_inner,
  if_drained, poll_drain_write_buf, drain_pending, poll_write, after_drain, poll_flush,
  poll_shutdown,
}

module _ {S : Type 0} (t : Transport S) (law : IsStream t) where
  open law use {incoming, write_reads_nothing, flush_reads_nothing, shutdown_reads_nothing}

  -- The read side is as it was, and nothing was read.
  pub record SameReads (h g : TlsObfs S) : Type 0 where
    pub same_first_response : g.first_response ≡ h.first_response
    pub same_read_phase : g.read_phase ≡ h.read_phase
    pub same_len_buf : g.len_buf ≡ h.len_buf
    pub same_len_progress : g.len_progress ≡ h.len_progress
    pub same_incoming : incoming g.inner ≡ incoming h.inner

  writing :
      (h : TlsObfs S) (s : S) (first : Bool) (buf : Bytes) (off input : ℕ)
      → incoming s ≡ incoming h.inner
      → SameReads h (record h {
        inner = s;
        first_request = first;
        write_buf = buf;
        write_buf_off = off;
        pending_input = input;
      })
  writing h s first buf off input e = record {
    same_first_response = refl;
    same_read_phase = refl;
    same_len_buf = refl;
    same_len_progress = refl;
    same_incoming = e;
  }

  SameReads-trans : {h g k : TlsObfs S} → SameReads h g → SameReads g k → SameReads h k
  SameReads-trans a b = record {
    same_first_response = b.same_first_response ∙ a.same_first_response;
    same_read_phase = b.same_read_phase ∙ a.same_read_phase;
    same_len_buf = b.same_len_buf ∙ a.same_len_buf;
    same_len_progress = b.same_len_progress ∙ a.same_len_progress;
    same_incoming = b.same_incoming ∙ a.same_incoming;
  }

  drained-SameReads :
      (h : TlsObfs S) (d : Poll (Unit {0}) × ℕ × S)
      → incoming d.2 ≡ incoming h.inner
      → SameReads h (drained h d).1
  unfolding drained
  drained-SameReads h (pending, off, s) e = writing h s _ _ _ _ e
  drained-SameReads h (err x, off, s) e = writing h s _ _ _ _ e
  drained-SameReads h (ok u, off, s) e = writing h s _ _ _ _ e

  poll_drain_write_buf-SameReads : (h : TlsObfs S) → SameReads h (poll_drain_write_buf t h).1
  unfolding poll_drain_write_buf
  poll_drain_write_buf-SameReads h =
      drained-SameReads h _ (drain-incoming t law h.write_buf h.write_buf_off h.inner)

  report-SameReads :
      (h : TlsObfs S) (d : Poll (Unit {0}) × TlsObfs S) → SameReads h d.1 → SameReads h (report d).1
  unfolding report
  report-SameReads h (pending, g) same = same
  report-SameReads h (err e, g) same = same
  report-SameReads h (ok u, g) same = SameReads-trans same (writing g g.inner _ _ _ _ refl)

  drain_pending-SameReads : (h : TlsObfs S) → SameReads h (drain_pending t h).1
  unfolding drain_pending
  drain_pending-SameReads h = report-SameReads h _ (poll_drain_write_buf-SameReads h)

  -- A write leaves all of the read side as it is, what there is to read included.
  pub poll_write-SameReads :
      (r : Entropy) (buf : Bytes) (h : TlsObfs S) → SameReads h (poll_write t r buf h).1
  unfolding poll_write
  poll_write-SameReads r buf h =
      let taken = min (length buf) tls_chunk_size in
      let chunk = take taken buf in
      elim (Bool-cases (is_empty h.write_buf)) [
        | inl idle ↦ elim (Bool-cases (is_empty buf)) [
          | inl no_input ↦ rw (idle, no_input) (writing h h.inner _ _ _ _ refl)
          | inr some_input ↦
              rw (idle, some_input)
                (SameReads-trans
                  (writing h h.inner false
                    (if h.first_request then build_client_hello r chunk h.server else framed chunk)
                    0 taken refl)
                  (drain_pending-SameReads _))
        ]
        | inr busy ↦ rw busy (drain_pending-SameReads h)
      ]

  module _ (act : S → Poll (Unit {0}) × S)
      (reads_nothing : (s : S) → incoming (act s).1 ≡ incoming s) where
    on_inner-SameReads : (h : TlsObfs S) → SameReads h (on_inner act h).1
    unfolding on_inner
    on_inner-SameReads h = writing h _ _ _ _ _ (reads_nothing h.inner)

    if_drained-SameReads :
        (h : TlsObfs S) (d : Poll (Unit {0}) × TlsObfs S)
        → SameReads h d.1
        → SameReads h (if_drained act d).1
    unfolding if_drained
    if_drained-SameReads h (pending, g) same = same
    if_drained-SameReads h (err e, g) same = same
    if_drained-SameReads h (ok u, g) same = SameReads-trans same (on_inner-SameReads g)

    after_drain-SameReads : (h : TlsObfs S) → SameReads h (after_drain t act h).1
    unfolding after_drain
    after_drain-SameReads h = elim (Bool-cases (is_empty h.write_buf)) [
      | inl idle ↦ rw idle (on_inner-SameReads h)
      | inr busy ↦ rw busy (if_drained-SameReads h _ (poll_drain_write_buf-SameReads h))
    ]

  pub poll_flush-SameReads :
      (h : TlsObfs S) → SameReads h (poll_flush t h).1 × SameReads h (poll_shutdown t h).1
  unfolding poll_flush poll_shutdown
  poll_flush-SameReads h = (
    after_drain-SameReads t.poll_flush flush_reads_nothing h,
    after_drain-SameReads t.poll_shutdown shutdown_reads_nothing h,
  )
