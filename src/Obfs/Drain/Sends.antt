-- ===== src/Obfs/Drain/Sends.antt =====
-- The drain loop sends the rest of the buffer in order, whatever the stream takes at a time.
use mathlib.Core.Path.{subst}
use shadowsocks_ohos.Prelude.{
  ℕ, zero, suc, ◌+◌, ◌-◌, ◌≤◌, ◌<◌, ◌≡◌, refl, sym, ◌∙◌, ◌⊎◌, ◌++◌, Bytes, length, take, drop,
  drop-drop, length-drop, take-append-drop, append-nil, append_assoc, arith, ltb, ltb→lt,
  not_ltb→le, Bool-cases, inl, inr,
}
use shadowsocks_ohos.Io.{Poll, pending, ok, err, IoError, write_zero, Transport, IsStream, WritesTo}
use shadowsocks_ohos.Obfs.Drain.{write_zero_error, drain_round, drain_loop, drain}

module _ {S : Type 0} (t : Transport S) (law : IsStream t) where
  open law use {incoming, outgoing, write_writes, write_reads_nothing}

  -- What was sent, then what is left of the buffer, is what it was; only a drained buffer is done.
  abbrev pub Drained : Bytes → ℕ → S → Poll (Unit {0}) × ℕ × S → Type 0
  Drained buf off s (r, off', s') =
      (outgoing s' ++ drop off' buf ≡ outgoing s ++ drop off buf)
      × (incoming s' ≡ incoming s)
      × (off' ≤ length buf)
      × (r ≡ ok tt → off' ≡ length buf)

  sent_part :
      (buf : Bytes) (off n : ℕ) (s s' : S)
      → outgoing s' ≡ outgoing s ++ take n (drop off buf)
      → outgoing s' ++ drop (off + n) buf ≡ outgoing s ++ drop off buf
  sent_part buf off n s s' e =
      rw (e, append_assoc, ← drop-drop off n buf, take-append-drop n (drop off buf))

  drain_round-Drained :
      (again : ℕ → S → Poll (Unit {0}) × ℕ × S) (buf : Bytes) (off : ℕ) (r : Poll ℕ) (s s' : S)
      → off < length buf
      → WritesTo (drop off buf) (outgoing s) r (outgoing s')
      → incoming s' ≡ incoming s
      → ((off' : ℕ) → off < off' → off' ≤ length buf → Drained buf off' s' (again off' s'))
      → Drained buf off s (drain_round again off r s')
  unfolding drain_round
  drain_round-Drained again buf off pending s s' h w i next = (rw w, i, omega arith, λ e. cc)
  drain_round-Drained again buf off (err x) s s' h w i next = (rw w, i, omega arith, λ e. cc)
  drain_round-Drained again buf off (ok zero) s s' h w i next =
      (rw (w.0, append-nil), i, omega arith, λ e. cc)
  drain_round-Drained again buf off (ok (suc k)) s s' h w i next =
      let d = next (off + suc k) (omega arith) (omega (arith, length-drop off buf, w.1)) in
      (d.0 ∙ sent_part buf off (suc k) s s' w.0, d.1 ∙ i, d.2, d.3)

  drain_loop-Drained :
      (f : ℕ) (buf : Bytes) (off : ℕ) (s : S)
      → off ≤ length buf
      → length buf ≤ off + f
      → Drained buf off s (drain_loop t f buf off s)
  unfolding drain_loop
  drain_loop-Drained zero buf off s h g = (refl, refl, h, λ _. omega arith)
  drain_loop-Drained (suc f) buf off s h g = elim (Bool-cases (ltb off (length buf))) [
    | inl more ↦ rw more (
        drain_round-Drained (drain_loop t f buf) buf off _ s _ (ltb→lt _ _ more)
          (write_writes (drop off buf) s) (write_reads_nothing (drop off buf) s)
          (λ off' gt le. drain_loop-Drained f buf off' _ le (omega arith)))
    | inr done ↦ rw done (refl, refl, h, λ _. omega (arith, not_ltb→le))
  ]

  -- From any offset inside the buffer, whatever the stream takes at a time: what was sent and what is
  -- left of the buffer make up the same bytes as before, nothing is read, the offset stays inside the
  -- buffer, and `ok` is answered only when all of the buffer is sent.
  pub drain-Drained :
      (buf : Bytes) (off : ℕ) (s : S) → off ≤ length buf → Drained buf off s (drain t buf off s)
  unfolding drain
  drain-Drained buf off s h = drain_loop-Drained (length buf - off) buf off s h (omega arith)

  -- What the answer of one write makes of a drain: one that took something does not end it.
  abbrev pub Ends : Poll ℕ → Poll (Unit {0}) → Type 0
  Ends pending r = r ≡ pending
  Ends (err e) r = r ≡ err e
  Ends (ok zero) r = (e : IoError) × (r ≡ err e) × (e.kind ≡ write_zero)
  Ends (ok (suc k)) r = ⊥

  -- A drain ends behind the buffer, or inside it at a write of all that is left.
  abbrev pub Stops : Bytes → Poll (Unit {0}) × ℕ × S → Type 0
  Stops buf (r, off, s) =
      ((r ≡ ok tt) × (off ≡ length buf))
      ⊎ ((off < length buf)
          × ((s₀ : S) × ((t.poll_write (drop off buf) s₀).1 ≡ s)
              × Ends (t.poll_write (drop off buf) s₀).0 r))

  drain_round-Stops :
      (again : ℕ → S → Poll (Unit {0}) × ℕ × S) (buf : Bytes) (off : ℕ) (s : S)
      → off < length buf
      → ((off' : ℕ)
          → off < off'
          → off' ≤ length buf
          → Stops buf (again off' (t.poll_write (drop off buf) s).1))
      → Stops buf (
          drain_round again off (t.poll_write (drop off buf) s).0 (t.poll_write (drop off buf) s).1)
  unfolding drain_round
  drain_round-Stops again buf off s h next =
      answered (t.poll_write (drop off buf) s).0 refl (write_writes (drop off buf) s)
    where
      answered :
          (r : Poll ℕ)
          → (t.poll_write (drop off buf) s).0 ≡ r
          → WritesTo (drop off buf) (outgoing s) r (outgoing (t.poll_write (drop off buf) s).1)
          → Stops buf (drain_round again off r (t.poll_write (drop off buf) s).1)
      answered pending e w = inr (h, (s, refl, subst (λ a. Ends a pending) (sym e) refl))
      answered (err x) e w = inr (h, (s, refl, subst (λ a. Ends a (err x)) (sym e) refl))
      answered (ok zero) e w = inr (
        h,
        (
          s,
          refl,
          subst (λ a. Ends a (err write_zero_error)) (sym e) (write_zero_error, refl, refl),
        ),
      )
      answered (ok (suc k)) e w =
          next (off + suc k) (omega arith) (omega (arith, length-drop off buf, w.1))

  drain_loop-Stops :
      (f : ℕ) (buf : Bytes) (off : ℕ) (s : S)
      → off ≤ length buf
      → length buf ≤ off + f
      → Stops buf (drain_loop t f buf off s)
  unfolding drain_loop
  drain_loop-Stops zero buf off s h g = inl (refl, omega arith)
  drain_loop-Stops (suc f) buf off s h g = elim (Bool-cases (ltb off (length buf))) [
    | inl more ↦ rw more (
        drain_round-Stops (drain_loop t f buf) buf off s (ltb→lt _ _ more)
          (λ off' gt le. drain_loop-Stops f buf off' _ le (omega arith)))
    | inr done ↦ rw done (inl (refl, omega (arith, not_ltb→le)))
  ]

  -- The drain loop always ends, from any offset inside the buffer: what was sent and what is left of
  -- the buffer make up the same bytes as before, and nothing is read. It ends with `ok` and no byte left,
  -- or with bytes left at a write of all of them, whose state of the stream it leaves: it then answers
  -- pending if that write did, the write's own error, or an error of kind `WriteZero` if it took nothing.
  pub drain-Stops :
      (buf : Bytes) (off : ℕ) (s : S)
      → off ≤ length buf
      → Drained buf off s (drain t buf off s) × Stops buf (drain t buf off s)
  unfolding drain
  drain-Stops buf off s h =
      (drain-Drained buf off s h, drain_loop-Stops (length buf - off) buf off s h (omega arith))
