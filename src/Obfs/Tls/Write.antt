-- ===== src/Obfs/Tls/Write.antt =====
-- The write side of `TlsObfs` in native/sslocal-ffi/src/obfs.rs: what reaches the wire.
pub mod Session
pub mod Willing
pub mod Flush
pub mod Frame
use shadowsocks_ohos.Prelude.{
  Text, min, ℕ, zero, suc, ◌+◌, ◌-◌, ◌≤◌, ◌<◌, ◌≡◌, ◌≢◌, refl, sym, ap, ◌∙◌, List, [], ◌∷◌, ◌++◌,
  Bytes, Bool, true, false, length, take, drop, drop_all, arith, append-nil, append_assoc, is_empty,
  if◌then◌else◌,
}
use shadowsocks_ohos.Io.{Poll, pending, ok, err, Transport, IsStream, WritesTo}
use shadowsocks_ohos.Obfs.Drain.{drain}
use shadowsocks_ohos.Obfs.Drain.Sends.{Drained, drain-Drained}
use shadowsocks_ohos.Obfs.Tls.{
  TlsObfs, Entropy, drained, report, build_client_hello, framed, tls_chunk_size,
  poll_drain_write_buf, drain_pending, poll_write, on_inner, after_drain, poll_flush, poll_shutdown,
}

module _ {S : Type 0} (t : Transport S) (law : IsStream t) where
  open law use {incoming, outgoing, write_writes, write_reads_nothing, flush_keeps, shutdown_keeps}

  -- All that is promised to the peer: what was sent, then what is still buffered.
  abbrev pub committed : TlsObfs S → Bytes
  committed h = outgoing h.inner ++ drop h.write_buf_off h.write_buf

  -- Nothing is lost: the buffer is still there, and what is committed to is what it was.
  abbrev pub Holds : TlsObfs S → TlsObfs S → Type 0
  Holds h g =
      (g.write_buf ≡ h.write_buf)
      × (committed g ≡ committed h)
      × (g.write_buf_off ≤ length g.write_buf)
      × (g.pending_input ≡ h.pending_input)
      × (g.first_request ≡ h.first_request)

  -- All that was committed to has been sent, and the buffer is empty.
  abbrev pub Sends : TlsObfs S → TlsObfs S → Type 0
  Sends h g =
      (g.write_buf ≡ [])
      × (g.write_buf_off ≡ 0)
      × (outgoing g.inner ≡ committed h)
      × (g.first_request ≡ h.first_request)

  abbrev pub Drains : TlsObfs S → Poll (Unit {0}) × TlsObfs S → Type 0
  Drains h (pending, g) = Holds h g
  Drains h (err _, g) = Holds h g
  Drains h (ok _, g) = Sends h g × (g.pending_input ≡ h.pending_input)

  drained-Drains :
      (h : TlsObfs S) (d : Poll (Unit {0}) × ℕ × S)
      → Drained t law h.write_buf h.write_buf_off h.inner d
      → Drains h (drained h d)
  unfolding drained
  drained-Drains h (pending, off, s) d = (refl, d.0, d.2, refl, refl)
  drained-Drains h (err e, off, s) d = (refl, d.0, d.2, refl, refl)
  drained-Drains h (ok u, off, s) d = ((refl, refl, sent, refl), refl)
    where
      sent : outgoing s ≡ committed h
      sent = rw (drop_all off h.write_buf (omega (arith, d.3 refl)), append-nil) at d.0

  poll_drain_write_buf-Drains :
      (h : TlsObfs S) → h.write_buf_off ≤ length h.write_buf → Drains h (poll_drain_write_buf t h)
  unfolding poll_drain_write_buf
  poll_drain_write_buf-Drains h le =
      drained-Drains h (drain t h.write_buf h.write_buf_off h.inner)
        (drain-Drained t law h.write_buf h.write_buf_off h.inner le)

  -- The same for a drain inside `poll_write`, which reports the input that the buffer stands for.
  abbrev pub Reports : TlsObfs S → Poll ℕ × TlsObfs S → Type 0
  Reports h (pending, g) = Holds h g
  Reports h (err _, g) = Holds h g
  Reports h (ok n, g) = Sends h g × (n ≡ h.pending_input)

  report-Reports :
      (h : TlsObfs S) (d : Poll (Unit {0}) × TlsObfs S) → Drains h d → Reports h (report d)
  unfolding report
  report-Reports h (pending, g) d = d
  report-Reports h (err e, g) d = d
  report-Reports h (ok u, g) d = d

  drain_pending-Reports :
      (h : TlsObfs S) → h.write_buf_off ≤ length h.write_buf → Reports h (drain_pending t h)
  unfolding drain_pending
  drain_pending-Reports h le =
      report-Reports h (poll_drain_write_buf t h) (poll_drain_write_buf-Drains h le)

  -- A write while a record is buffered drains the record, and does not look at its argument.
  pub poll_write-resumes :
      (r : Entropy) (buf : Bytes) (h : TlsObfs S)
      → is_empty h.write_buf ≡ false
      → h.write_buf_off ≤ length h.write_buf
      → Reports h (poll_write t r buf h)
  unfolding poll_write
  poll_write-resumes r buf h busy le = rw busy (drain_pending-Reports h le)

  -- The part of a buffer that one write takes.
  abbrev pub chunk_of : Bytes → Bytes
  chunk_of buf = take (min (length buf) tls_chunk_size) buf

  -- The record that carries a chunk.
  abbrev pub record_of : Entropy → Bool → Text → Bytes → Bytes
  record_of r first server chunk = if first then build_client_hello r chunk server else framed chunk

  -- The state in which a write drains its record.
  abbrev pub wrapped : Entropy → Bytes → TlsObfs S → TlsObfs S
  wrapped r buf h = record h {
    first_request = false;
    write_buf = record_of r h.first_request h.server (chunk_of buf);
    write_buf_off = 0;
    pending_input = min (length buf) tls_chunk_size;
  }

  pub poll_write-wraps :
      (r : Entropy) (buf : Bytes) (h : TlsObfs S)
      → h.write_buf ≡ []
      → is_empty buf ≡ false
      → Reports (wrapped r buf h) (poll_write t r buf h)
  unfolding poll_write
  poll_write-wraps r buf h idle some_input =
      rw (ap is_empty idle, some_input) (drain_pending-Reports (wrapped r buf h) (omega arith))

  -- An empty write takes nothing and sends nothing.
  pub poll_write-nil :
      (r : Entropy) (h : TlsObfs S) → h.write_buf ≡ [] → poll_write t r [] h ≡ (ok 0, h)
  unfolding poll_write
  poll_write-nil r h idle = rw (ap is_empty idle)
