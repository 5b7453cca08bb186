-- ===== src/Obfs/Drain/Willing.antt =====
-- The drain loop of native/sslocal-ffi/src/obfs.rs on a stream that takes something of every write.
use shadowsocks_ohos.Prelude.{
  ℕ, zero, suc, ◌+◌, ◌-◌, ◌<◌, ◌≡◌, refl, [], ◌∷◌, Bytes, length, drop, length-drop, arith, ltb,
  ltb→lt, Bool-cases, inl, inr,
}
use shadowsocks_ohos.Io.{Poll, ok, Transport}
use shadowsocks_ohos.Obfs.Drain.{drain_round, drain_loop, drain}

module _ {S : Type 0} (t : Transport S) where
  -- A write of some bytes takes one of them at least.
  abbrev pub IsWilling : Type 0
  IsWilling = (b : ℕ) (buf : Bytes) (s : S) → (k : ℕ) × ((t.poll_write (b ∷ buf) s).0 ≡ ok (suc k))

  takes_some :
      IsWilling
      → (buf : Bytes) (s : S) → 0 < length buf
      → (k : ℕ) × ((t.poll_write buf s).0 ≡ ok (suc k))
  takes_some w [] s h = elim h [ ]
  takes_some w (b ∷ buf) s h = w b buf s

  -- Such a drain never waits and never fails.
  drain_round_done :
      (again : ℕ → S → Poll (Unit {0}) × ℕ × S) (off k : ℕ) (r : Poll ℕ) (s : S)
      → r ≡ ok (suc k)
      → ((off' : ℕ) → (again off' s).0 ≡ ok tt)
      → (drain_round again off r s).0 ≡ ok tt
  unfolding drain_round
  drain_round_done again off k r s e next = rw (drain_round, e) (next (off + suc k))

  drain_loop_done :
      IsWilling → (f : ℕ) (buf : Bytes) (off : ℕ) (s : S) → (drain_loop t f buf off s).0 ≡ ok tt
  unfolding drain_loop
  drain_loop_done w zero buf off s = refl
  drain_loop_done w (suc f) buf off s = elim (Bool-cases (ltb off (length buf))) [
    | inl more ↦
        let (k, e) =
          takes_some w (drop off buf) s
            (omega (arith, length-drop off buf, ltb→lt off (length buf) more)) in
        rw more (
          drain_round_done (drain_loop t f buf) off k (t.poll_write (drop off buf) s).0 _ e
            (λ off'. drain_loop_done w f buf off' _))
    | inr done ↦ rw done refl
  ]

  pub drain_done : IsWilling → (buf : Bytes) (off : ℕ) (s : S) → (drain t buf off s).0 ≡ ok tt
  unfolding drain
  drain_done w buf off s = drain_loop_done w (length buf - off) buf off s
