-- ===== src/Obfs/Drain/Input.antt =====
-- The drain loop reads nothing.
use shadowsocks_ohos.Prelude.{
  ℕ, zero, suc, ◌+◌, ◌-◌, ◌≡◌, refl, ◌∙◌, Bytes, length, drop, ltb, Bool-cases, inl, inr,
}
use shadowsocks_ohos.Io.{Poll, pending, ok, err, Transport, IsStream}
use shadowsocks_ohos.Obfs.Drain.{drain_round, drain_loop, drain}

module _ {S : Type 0} (t : Transport S) (law : IsStream t) where
  open law use {incoming, write_reads_nothing}

  drain_round-incoming :
      (again : ℕ → S → Poll (Unit {0}) × ℕ × S) (off : ℕ) (r : Poll ℕ) (s : S)
      → ((off' : ℕ) → incoming (again off' s).2 ≡ incoming s)
      → incoming (drain_round again off r s).2 ≡ incoming s
  unfolding drain_round
  drain_round-incoming again off pending s next = refl
  drain_round-incoming again off (err e) s next = refl
  drain_round-incoming again off (ok zero) s next = refl
  drain_round-incoming again off (ok (suc k)) s next = next (off + suc k)

  drain_loop-incoming :
      (f : ℕ) (buf : Bytes) (off : ℕ) (s : S) → incoming (drain_loop t f buf off s).2 ≡ incoming s
  unfolding drain_loop
  drain_loop-incoming zero buf off s = refl
  drain_loop-incoming (suc f) buf off s = elim (Bool-cases (ltb off (length buf))) [
    | inl more ↦ rw more (
        drain_round-incoming (drain_loop t f buf) off (t.poll_write (drop off buf) s).0 _
          (λ off'. drain_loop-incoming f buf off' _)
        ∙ write_reads_nothing (drop off buf) s)
    | inr done ↦ rw done refl
  ]

  pub drain-incoming : (buf : Bytes) (off : ℕ) (s : S) → incoming (drain t buf off s).2 ≡ incoming s
  unfolding drain
  drain-incoming buf off s = drain_loop-incoming (length buf - off) buf off s
