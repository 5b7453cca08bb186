-- ===== src/Obfs/Http/Write/Willing.antt =====
-- Writes of `HttpObfs` in native/sslocal-ffi/src/obfs.rs on a stream that takes something of every write.
use mathlib.Core.Path.{subst}
use shadowsocks_ohos.Prelude.{
  ℕ, zero, suc, ◌≤◌, ◌≡◌, refl, ◌∙◌, Bool, true, false, [], ◌∷◌, ◌++◌, arith, append-nil, take,
  is_empty-nil, Bytes, length, is_empty,
}
use shadowsocks_ohos.Io.{Poll, pending, ok, err, Transport, IsStream, WritesTo}
use shadowsocks_ohos.Obfs.Drain.{drain}
use shadowsocks_ohos.Obfs.Drain.Willing.{IsWilling, drain_done}
use shadowsocks_ohos.Obfs.Http.{
  HttpObfs, Entropy, drained, report, poll_drain_write_buf, drain_pending, poll_write,
}
use shadowsocks_ohos.Obfs.Http.Write.{
  Sends, Reports, requested, poll_write-first, poll_write-resumes,
}

reported :
    {S : Type 0} (h : HttpObfs S) (d : Poll (Unit {0}) × ℕ × S)
    → d.0 ≡ ok tt
    → (report (drained h d)).0 ≡ ok h.pending_input
unfolding report drained
reported h (ok u, off, s) e = refl
reported h (pending, off, s) e = cc
reported h (err x, off, s) e = cc

module _ {S : Type 0} (t : Transport S) where
  drain_pending_done : IsWilling t → (h : HttpObfs S) → (drain_pending t h).0 ≡ ok h.pending_input
  unfolding drain_pending poll_drain_write_buf
  drain_pending_done w h =
      reported h (drain t h.write_buf h.write_buf_off h.inner)
        (drain_done t w h.write_buf h.write_buf_off h.inner)

  answers_pending :
      (r : Entropy) (buf : Bytes) (h : HttpObfs S)
      → IsWilling t
      → is_empty h.write_buf ≡ false
      → (poll_write t r buf h).0 ≡ ok h.pending_input
  unfolding poll_write
  answers_pending r buf h w busy = rw busy (drain_pending_done w h)

  answers_first :
      (r : Entropy) (buf : Bytes) (h : HttpObfs S)
      → IsWilling t
      → is_empty h.write_buf ≡ true
      → h.first_request ≡ true
      → (poll_write t r buf h).0 ≡ ok (length buf)
  unfolding poll_write
  answers_first r buf h w idle first = rw (idle, first) (drain_pending_done w _)

  module _ (law : IsStream t) where
    open law use {outgoing}

    Reports-Sends :
        (h : HttpObfs S) (p : Poll ℕ × HttpObfs S) (n : ℕ)
        → p.0 ≡ ok n
        → Reports t law h p
        → Sends t law h p.1
    Reports-Sends h (pending, g) n e d = absurd cc
    Reports-Sends h (err x, g) n e d = absurd cc
    Reports-Sends h (ok m, g) n e d = d.0

    -- A write of some bytes takes the first of them at least, and sends what it takes.
    abbrev pub Takes : Bytes → Bytes → Poll ℕ → Bytes → Type 0
    Takes [] before r after = after ≡ before
    Takes (b ∷ buf) before r after =
        (k : ℕ) × (r ≡ ok (suc k)) × (after ≡ before ++ take (suc k) (b ∷ buf)) × (k ≤ length buf)

    poll_write-Takes :
        (buf : Bytes) (s : S)
        → IsWilling t
        → Takes buf (outgoing s) (t.poll_write buf s).0 (outgoing (t.poll_write buf s).1)
    poll_write-Takes [] s w = sent_nothing (t.poll_write [] s).0 (law.write_writes [] s)
      where
        sent_nothing : (r : Poll ℕ) {o o' : Bytes} → WritesTo [] o r o' → o' ≡ o
        sent_nothing pending e = e
        sent_nothing (err x) e = e
        sent_nothing (ok zero) e = e.0 ∙ append-nil _
        sent_nothing (ok (suc n)) e = absurd (omega (arith, e.1))
    poll_write-Takes (b ∷ buf) s w =
        let (k, e) = w b buf s in
        let sent =
          subst (λ r. WritesTo (b ∷ buf) (outgoing s) r (outgoing (t.poll_write (b ∷ buf) s).1)) e
            (law.write_writes (b ∷ buf) s) in
        (k, e, sent.0, omega (arith, sent.1))

    -- What a write comes to when the buffer is empty, or not, and when it is the first.
    abbrev pub Accepts :
        Entropy → Bytes → HttpObfs S → (idle first : Bool) → Poll ℕ × HttpObfs S → Type 0
    Accepts r buf h false first (a, g) = (a ≡ ok h.pending_input) × Sends t law h g
    Accepts r buf h true true (a, g) =
        (a ≡ ok (length buf)) × Sends t law (requested t law r buf h) g
    Accepts r buf h true false (a, g) =
        Takes buf (outgoing h.inner) a (outgoing g.inner) × (g.write_buf ≡ [])

    poll_write-passed :
        (r : Entropy) (buf : Bytes) (h : HttpObfs S)
        → IsWilling t
        → is_empty h.write_buf ≡ true
        → h.first_request ≡ false
        → Accepts r buf h true false (poll_write t r buf h)
    unfolding poll_write
    poll_write-passed r buf h w idle later =
        rw (idle, later) (poll_write-Takes buf h.inner w, is_empty-nil h.write_buf idle)

    -- On a stream that takes a byte at least of every write of some bytes, every write is through at
    -- once. A first write is accepted whole, and its request has been sent with it; a write while a
    -- request is buffered answers what was pending, and all of the request has been sent; any other
    -- write of some bytes takes one at least, and sends what it takes. Then the buffer is empty.
    pub poll_write_accepted :
        (r : Entropy) (buf : Bytes) (h : HttpObfs S)
        → IsWilling t
        → h.write_buf_off ≤ length h.write_buf
        → Accepts r buf h (is_empty h.write_buf) h.first_request (poll_write t r buf h)
    poll_write_accepted r buf h w inside = on_case (is_empty h.write_buf) h.first_request refl refl
      where
        on_case :
            (idle first : Bool)
            → is_empty h.write_buf ≡ idle
            → h.first_request ≡ first
            → Accepts r buf h idle first (poll_write t r buf h)
        on_case false first e f =
            let a = answers_pending r buf h w e in
            (a, Reports-Sends h _ _ a (poll_write-resumes t law r buf h e inside))
        on_case true true e f =
            let a = answers_first r buf h w e f in
            (
              a,
              Reports-Sends (requested t law r buf h) _ _ a
                  (poll_write-first t law r buf h (is_empty-nil h.write_buf e) f),
            )
        on_case true false e f = poll_write-passed r buf h w e f
