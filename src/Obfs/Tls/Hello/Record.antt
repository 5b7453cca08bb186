-- ===== src/Obfs/Tls/Hello/Record.antt =====
-- The record that a ClientHello is in, cut off a stream by the length in its own header.
use shadowsocks_ohos.Prelude.{
  ℕ, ◌≡◌, refl, sym, ap, ◌∙◌, [], ◌∷◌, ◌++◌, Option, none, some, Bytes, length, take, drop, leb,
  leb→le, ◌==◌, ==_iff, Bool-cases, inl, inr, is_empty, is_empty-nil, length-drop,
  take-append_exact, drop-append_exact, arith,
}
use shadowsocks_ohos.Encode.{from_be16}
use shadowsocks_ohos.Obfs.Tls.Surface.{skip, surface}
use shadowsocks_ohos.Obfs.Tls.Hello.{◌>>=◌, cut, vector16, all_of, behind, read_client_hello}

-- The record at the front of a stream, and what follows it.
abbrev pub first_record : Bytes → Bytes × Bytes
first_record (a ∷ b ∷ c ∷ hi ∷ lo ∷ s) =
    (a ∷ b ∷ c ∷ hi ∷ lo ∷ take (from_be16 hi lo) s, drop (from_be16 hi lo) s)
first_record s = (s, [])

-- What a server makes of a connection: the ticket of the ClientHello, and what the records behind it
-- surface.
abbrev pub tls_server : Bytes → Option Bytes
tls_server wire = read_client_hello (first_record wire).0 >>= λ (ticket, name).
    some (ticket ++ surface (skip 3) (first_record wire).1)

bind-some :
    {A B : Type 0} (o : Option A) (f : A → Option B) {b : B}
    → (o >>= f) ≡ some b
    → (a : A) × (o ≡ some a) × (f a ≡ some b)
bind-some none f e = cc
bind-some (some a) f e = (a, refl, e)

behind-some : (p s : Bytes) {r : Bytes} → behind p s ≡ some r → s ≡ p ++ r
unfolding behind
behind-some [] s e = cc
behind-some (x ∷ p) [] e = cc
behind-some (x ∷ p) (b ∷ s) {r} e = elim (Bool-cases (x == b)) [
  | inl same ↦
      let e' : behind p s ≡ some r = rw same at e in
      ap (λ y. y ∷ s) (sym ((==_iff x b).0 same)) ∙ ap (λ y. x ∷ y) (behind-some p s e')
  | inr other ↦ let e' : none ≡ some r = rw other at e in cc
]

-- A vector that is all there is has the length that stands before it.
abbrev Filled : Bytes → Type 0
Filled s = (hi : ℕ) × (lo : ℕ) × (v : Bytes) × (s ≡ hi ∷ lo ∷ v) × (length v ≡ from_be16 hi lo)

cut-all : (n : ℕ) (s : Bytes) {v : Bytes} → (cut n s >>= all_of) ≡ some v → length s ≡ n
unfolding cut all_of
cut-all n s {v} e = elim (Bool-cases (leb n (length s))) [
  | inl fits ↦
      let e' : all_of (take n s, drop n s) ≡ some v = rw fits at e in
      omega (arith, leb→le n (length s) fits, ap length (nothing_behind e'), length-drop n s)
  | inr short ↦ let e' : none ≡ some v = rw short at e in cc
]
  where
    nothing_behind : {v : Bytes} → all_of (take n s, drop n s) ≡ some v → drop n s ≡ []
    nothing_behind {v} e = elim (Bool-cases (is_empty (drop n s))) [
      | inl empty ↦ is_empty-nil (drop n s) empty
      | inr more ↦ let e' : none ≡ some v = rw more at e in cc
    ]

vector16-Filled : (s : Bytes) {v : Bytes} → (vector16 s >>= all_of) ≡ some v → Filled s
unfolding vector16
vector16-Filled [] e = cc
vector16-Filled (a ∷ []) e = cc
vector16-Filled (hi ∷ lo ∷ s) e = (hi, lo, s, refl, cut-all (from_be16 hi lo) s e)

cut-first :
    {hi lo : ℕ} {v hello : Bytes} (rest : Bytes)
    → hello ≡ 0x16 ∷ 0x03 ∷ 0x01 ∷ hi ∷ lo ∷ v
    → length v ≡ from_be16 hi lo
    → first_record (hello ++ rest) ≡ (hello, rest)
cut-first {hi} {lo} {v} rest e size =
    ap (λ h. first_record (h ++ rest)) e
    ∙ (λ i. (
      0x16 ∷ 0x03 ∷ 0x01 ∷ hi ∷ lo ∷ take-append_exact (from_be16 hi lo) v rest size i,
      drop-append_exact (from_be16 hi lo) v rest size i,
    ))
    ∙ ap (λ h. (h, rest)) (sym e)

-- A ClientHello that reads is just the record at the front of the stream that it starts.
first_record-hello :
    (hello rest : Bytes) {x : Bytes × Bytes}
    → read_client_hello hello ≡ some x
    → first_record (hello ++ rest) ≡ (hello, rest)
unfolding read_client_hello
first_record-hello hello rest e =
    let (s, prefix, e') = bind-some (behind (0x16 ∷ 0x03 ∷ 0x01 ∷ []) hello) _ e in
    let (_, filled, _) = bind-some (vector16 s >>= all_of) _ e' in
    let (hi, lo, v, starts, size) = vector16-Filled s filled in
    cut-first rest (behind-some _ hello prefix ∙ ap (λ s. 0x16 ∷ 0x03 ∷ 0x01 ∷ s) starts) size

-- A server finds the ticket of the ClientHello at the front, and behind it what the records surface.
pub tls_server-hello :
    (hello rest : Bytes) {ticket name later : Bytes}
    → read_client_hello hello ≡ some (ticket, name)
    → surface (skip 3) rest ≡ later
    → tls_server (hello ++ rest) ≡ some (ticket ++ later)
tls_server-hello hello rest {ticket} e f =
    let first = first_record-hello hello rest e in
    ap (λ r. read_client_hello r.0 >>= λ (ticket, name). some (ticket ++ surface (skip 3) r.1))
      first
    ∙ ap (λ o. o >>= λ (ticket, name). some (ticket ++ surface (skip 3) rest)) e
    ∙ ap (λ b. some (ticket ++ b)) f
