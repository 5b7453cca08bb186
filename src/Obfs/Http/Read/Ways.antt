-- ===== src/Obfs/Http/Read/Ways.antt =====
-- The three ways of `HttpObfs::poll_read` in native/sslocal-ffi/src/obfs.rs.
use mathlib.Core.Path.{subst}
use shadowsocks_ohos.Prelude.{
  ℕ, suc, ◌-◌, ◌≡◌, sym, ◌∙◌, Bytes, true, false, Option, some, length, ltb, Bool-cases, inl, inr,
  if_true, if_false,
}
use shadowsocks_ohos.Io.{Poll, Transport}
use shadowsocks_ohos.Obfs.Http.{
  HttpObfs, max_header, read_inner, read_leftover, header_loop, poll_read,
}

module _ {S : Type 0} (t : Transport S) (n : ℕ) (h : HttpObfs S) where
  poll_read-leftover :
      ltb h.leftover_off (length h.leftover) ≡ true → poll_read t n h ≡ some (read_leftover n h)
  unfolding poll_read
  poll_read-leftover e = if_true _ _ e

  poll_read-head :
      ltb h.leftover_off (length h.leftover) ≡ false
      → h.first_response ≡ true
      → poll_read t n h ≡ header_loop t (suc (max_header - length h.response_scratch)) n h
  unfolding poll_read
  poll_read-head e f = if_false _ _ e ∙ if_true _ _ f

  poll_read-inner :
      ltb h.leftover_off (length h.leftover) ≡ false
      → h.first_response ≡ false
      → poll_read t n h ≡ some (read_inner t n h)
  unfolding poll_read
  poll_read-inner e f = if_false _ _ e ∙ if_false _ _ f

  -- What holds of each of the three ways holds of the call.
  pub poll_read-ways :
      (P : Option (Poll Bytes × HttpObfs S) → Type 0)
      → (ltb h.leftover_off (length h.leftover) ≡ true → P (some (read_leftover n h)))
      → (ltb h.leftover_off (length h.leftover) ≡ false
          → h.first_response ≡ true
          → P (header_loop t (suc (max_header - length h.response_scratch)) n h))
      → (ltb h.leftover_off (length h.leftover) ≡ false
          → h.first_response ≡ false
          → P (some (read_inner t n h)))
      → P (poll_read t n h)
  poll_read-ways P leftover head inner =
      elim (Bool-cases (ltb h.leftover_off (length h.leftover))) [
        | inl left ↦ subst P (sym (poll_read-leftover left)) (leftover left)
        | inr none_left ↦ elim (Bool-cases h.first_response) [
          | inl first ↦ subst P (sym (poll_read-head none_left first)) (head none_left first)
          | inr later ↦ subst P (sym (poll_read-inner none_left later)) (inner none_left later)
        ]
      ]
