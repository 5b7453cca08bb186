-- ===== src/Obfs/Http/Write.antt =====
-- The write side of `HttpObfs` in native/sslocal-ffi/src/obfs.rs: what reaches the wire.
pub mod Session
pub mod Willing
pub mod Flush
pub mod Frame
use shadowsocks_ohos.Prelude.{
  ℕ, zero, suc, ◌+◌, ◌-◌, ◌≤◌, ◌<◌, ◌≡◌, ◌≢◌, refl, sym, ap, ◌∙◌, List, [], ◌∷◌, ◌++◌, Bytes, Bool,
  true, false, length, take, drop, drop_all, arith, append-nil, append_assoc, is_empty,
  if◌then◌else◌,
}
use shadowsocks_ohos.Io.{Poll, pending, ok, err, Transport, IsStream, WritesTo}
use shadowsocks_ohos.Obfs.Drain.{drain}
use shadowsocks_ohos.Obfs.Drain.Sends.{Drained, drain-Drained}
use shadowsocks_ohos.Obfs.Http.{
  HttpObfs, Entropy, drained, report, build_http_request, poll_drain_write_buf, drain_pending,
  poll_write, on_inner, after_drain, poll_flush, poll_shutdown,
}

module _ {S : Type 0} (t : Transport S) (law : IsStream t) where
  open law use {incoming, outgoing, write_writes, write_reads_nothing, flush_keeps, shutdown_keeps}

  -- All that is promised to the peer: what was sent, then what is still buffered.
  abbrev pub committed : HttpObfs S → Bytes
  committed h = outgoing h.inner ++ drop h.write_buf_off h.write_buf

  -- Nothing is lost: the buffer is still there, and what is committed to is what it was.
  abbrev pub Holds : HttpObfs S → HttpObfs S → Type 0
  Holds h g =
      (g.write_buf ≡ h.write_buf)
      × (committed g ≡ committed h)
      × (g.write_buf_off ≤ length g.write_buf)
      × (g.pending_input ≡ h.pending_input)
      × (g.first_request ≡ h.first_request)

  -- All that was committed to has been sent, and the buffer is empty.
  abbrev pub Sends : HttpObfs S → HttpObfs S → Type 0
  Sends h g =
      (g.write_buf ≡ [])
      × (g.write_buf_off ≡ 0)
      × (outgoing g.inner ≡ committed h)
      × (g.first_request ≡ h.first_request)

  abbrev pub Drains : HttpObfs S → Poll (Unit {0}) × HttpObfs S → Type 0
  Drains h (pending, g) = Holds h g
  Drains h (err _, g) = Holds h g
  Drains h (ok _, g) = Sends h g × (g.pending_input ≡ h.pending_input)

  drained-Drains :
      (h : HttpObfs S) (d : Poll (Unit {0}) × ℕ × S)
      → Drained t law h.write_buf h.write_buf_off h.inner d
      → Drains h (drained h d)
  unfolding drained
  drained-Drains h (pending, off, s) d = (refl, d.0, d.2, refl, refl)
  drained-Drains h (err e, off, s) d = (refl, d.0, d.2, refl, refl)
  drained-Drains h (ok u, off, s) d = ((refl, refl, sent, refl), refl)
    where
      sent : outgoing s ≡ committed h
      sent = rw (drop_all off h.write_buf (omega (arith, d.3 refl)), append-nil) at d.0

  poll_drain_write_buf-Drains :
      (h : HttpObfs S) → h.write_buf_off ≤ length h.write_buf → Drains h (poll_drain_write_buf t h)
  unfolding poll_drain_write_buf
  poll_drain_write_buf-Drains h le =
      drained-Drains h (drain t h.write_buf h.write_buf_off h.inner)
        (drain-Drained t law h.write_buf h.write_buf_off h.inner le)

  -- The same for a drain inside `poll_write`, which reports the input that the buffer stands for.
  abbrev pub Reports : HttpObfs S → Poll ℕ × HttpObfs S → Type 0
  Reports h (pending, g) = Holds h g
  Reports h (err _, g) = Holds h g
  Reports h (ok n, g) = Sends h g × (n ≡ h.pending_input)

  report-Reports :
      (h : HttpObfs S) (d : Poll (Unit {0}) × HttpObfs S) → Drains h d → Reports h (report d)
  unfolding report
  report-Reports h (pending, g) d = d
  report-Reports h (err e, g) d = d
  report-Reports h (ok u, g) d = d

  drain_pending-Reports :
      (h : HttpObfs S) → h.write_buf_off ≤ length h.write_buf → Reports h (drain_pending t h)
  unfolding drain_pending
  drain_pending-Reports h le =
      report-Reports h (poll_drain_write_buf t h) (poll_drain_write_buf-Drains h le)

  -- A write while a request is buffered drains the request, and does not look at its argument.
  pub poll_write-resumes :
      (r : Entropy) (buf : Bytes) (h : HttpObfs S)
      → is_empty h.write_buf ≡ false
      → h.write_buf_off ≤ length h.write_buf
      → Reports h (poll_write t r buf h)
  unfolding poll_write
  poll_write-resumes r buf h busy le = rw busy (drain_pending-Reports h le)

  -- The state in which the first write drains its request.
  abbrev pub requested : Entropy → Bytes → HttpObfs S → HttpObfs S
  requested r buf h = record h {
    first_request = false;
    write_buf = build_http_request r h.host h.port buf;
    write_buf_off = 0;
    pending_input = length buf;
  }

  pub poll_write-first :
      (r : Entropy) (buf : Bytes) (h : HttpObfs S)
      → h.write_buf ≡ []
      → h.first_request ≡ true
      → Reports (requested r buf h) (poll_write t r buf h)
  unfolding poll_write
  poll_write-first r buf h idle first =
      rw (ap is_empty idle, first) (drain_pending-Reports (requested r buf h) (omega arith))

  -- Behind the first request a write is the inner stream's.
  abbrev pub Passes : Bytes → HttpObfs S → Poll ℕ × HttpObfs S → Type 0
  Passes buf h (r, g) =
      WritesTo buf (outgoing h.inner) r (outgoing g.inner)
      × (g.write_buf ≡ [])
      × (g.first_request ≡ false)

  pub poll_write-Passes :
      (r : Entropy) (buf : Bytes) (h : HttpObfs S)
      → h.write_buf ≡ []
      → h.first_request ≡ false
      → Passes buf h (poll_write t r buf h)
  unfolding poll_write
  poll_write-Passes r buf h idle later =
      rw (ap is_empty idle, later) (write_writes buf h.inner, idle, refl)
