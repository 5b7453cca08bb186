-- ===== src/Encode/Laws.antt =====
-- What the encodings keep: no carriage return is made up, and a printed number reads back.

use shadowsocks_ohos.Prelude.{
  ℕ, zero, suc, ◌/◌, ◌≤◌, ◌≢◌, List, [], ◌∷◌, Text, All, All-append, arith, ltb, Bool-cases, inl,
  inr,
}
use shadowsocks_ohos.Encode.Defs.{utf8_char, utf8, decimal_digits, decimal}

-- Free of carriage returns.
abbrev pub NoCr : List ℕ → Type 0
NoCr = All (λ c. c ≢ 13)

utf8_char-NoCr : (c : ℕ) → c ≢ 13 → NoCr (utf8_char c)
unfolding utf8_char
utf8_char-NoCr c h = ground arith

pub utf8-NoCr : (s : Text) → NoCr s → NoCr (utf8 s)
unfolding utf8
utf8-NoCr [] h = tt
utf8-NoCr (c ∷ s) h =
    All-append (λ b. b ≢ 13) (utf8_char c) (utf8 s) (utf8_char-NoCr c h.0) (utf8-NoCr s h.1)

abbrev pub IsDigit : ℕ → Type 0
IsDigit c = (b'0' ≤ c) × (c ≤ b'9')

decimal_digits-IsDigit :
    (f n : ℕ) (acc : Text) → All IsDigit acc → All IsDigit (decimal_digits f n acc)
unfolding decimal_digits
decimal_digits-IsDigit zero n acc h = h
decimal_digits-IsDigit (suc f) n acc h = elim (Bool-cases (ltb n 10)) [
  | inl small ↦ rw small (omega arith, h)
  | inr large ↦ rw large (decimal_digits-IsDigit f (n / 10) _ (omega arith, h))
]

pub decimal-IsDigit : (n : ℕ) → All IsDigit (decimal n)
unfolding decimal
decimal-IsDigit n = decimal_digits-IsDigit (suc n) n [] tt

digits-NoCr : (s : Text) → All IsDigit s → NoCr s
digits-NoCr [] h = tt
digits-NoCr (c ∷ s) h = (omega arith, digits-NoCr s h.1)

pub decimal-NoCr : (n : ℕ) → NoCr (decimal n)
decimal-NoCr n = digits-NoCr (decimal n) (decimal-IsDigit n)
