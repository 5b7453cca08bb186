-- ===== src/Obfs/Tls/Surface.antt =====
-- What a stream of fake TLS records means, byte by byte: an independent description of what
-- `TlsObfs` in native/sslocal-ffi/src/obfs.rs surfaces of the bytes that it reads.
use shadowsocks_ohos.Prelude.{
  ℕ, zero, suc, ◌-◌, ◌/◌, ◌%◌, ◌^◌, ◌≤◌, ◌<◌, ◌≡◌, refl, ap, ◌∙◌, List, [], ◌∷◌, ◌++◌, Bytes,
  length, arith, All,
}
use shadowsocks_ohos.Encode.{be16, from_be16}
use shadowsocks_ohos.Obfs.Tls.{framed}

-- What comes next: bytes to skip and then a length, the length's low byte, or a payload's bytes,
-- after the last of which comes the three-byte header of the next record.
pub data Expect : Type 0 where
  skip : ℕ → Expect
  low : ℕ → Expect
  body : ℕ → Expect

abbrev pub surface : Expect → Bytes → Bytes
surface e [] = []
surface (skip zero) (b ∷ s) = surface (low b) s
surface (skip (suc k)) (b ∷ s) = surface (skip k) s
surface (low hi) (b ∷ s) = surface (body (from_be16 hi b)) s
surface (body zero) (b ∷ s) = surface (skip 2) s
surface (body (suc k)) (b ∷ s) = b ∷ surface (body k) s

pub surface-nil : (e : Expect) → surface e [] ≡ []
surface-nil (skip k) = refl
surface-nil (low b) = refl
surface-nil (body k) = refl

pub surface-body_zero : (s : Bytes) → surface (body 0) s ≡ surface (skip 3) s
surface-body_zero [] = refl
surface-body_zero (b ∷ s) = refl

pub surface-skip :
    (k : ℕ) (bytes s : Bytes)
    → length bytes ≤ k
    → surface (skip k) (bytes ++ s) ≡ surface (skip (k - length bytes)) s
surface-skip k [] s h = ap (λ j. surface (skip j) s) {x = k} (omega arith)
surface-skip zero (b ∷ bytes) s h = elim h [ ]
surface-skip (suc k) (b ∷ bytes) s h =
    surface-skip k bytes s (omega arith)
    ∙ ap (λ j. surface (skip j) s) {x = k - length bytes} (omega arith)

pub surface-body :
    (k : ℕ) (bytes s : Bytes)
    → length bytes ≤ k
    → surface (body k) (bytes ++ s) ≡ bytes ++ surface (body (k - length bytes)) s
surface-body k [] s h = ap (λ j. surface (body j) s) {x = k} (omega arith)
surface-body zero (b ∷ bytes) s h = elim h [ ]
surface-body (suc k) (b ∷ bytes) s h =
    ap (λ l. b ∷ l) (surface-body k bytes s (omega arith))
    ∙ ap (λ j. b ∷ (bytes ++ surface (body j) s)) {x = k - length bytes} (omega arith)

-- A length and that many bytes, read from the length on.
surface-record :
    (p s : Bytes)
    → length p < 2 ^ 16
    → surface (skip 0) (be16 (length p) ++ (p ++ s)) ≡ p ++ surface (skip 3) s
surface-record p s h =
    ap (λ j. surface (body j) (p ++ s))
      {x = from_be16 (length p / 2 ^ 8 % 2 ^ 8) (length p % 2 ^ 8)} (omega arith)
    ∙ surface-body (length p) p s (omega arith)
    ∙ ap (λ j. p ++ surface (body j) s) {x = length p - length p} (omega arith)
    ∙ ap (λ b. p ++ b) (surface-body_zero s)

-- Records one after another, as `poll_write` frames them.
abbrev pub records : List Bytes → Bytes
records [] = []
records (p ∷ ps) = framed p ++ records ps

abbrev pub joined : List Bytes → Bytes
joined [] = []
joined (p ∷ ps) = p ++ joined ps

surface-framed :
    (p s : Bytes) → length p < 2 ^ 16 → surface (skip 3) (framed p ++ s) ≡ p ++ surface (skip 3) s
unfolding framed
surface-framed p s h = surface-record p s h

-- Behind a record's end the records that a writer frames read back as their payloads, whole and in
-- order, if each payload's length fits the sixteen bits of its field.
pub surface-records :
    (ps : List Bytes) → All (λ p. length p < 2 ^ 16) ps → surface (skip 3) (records ps) ≡ joined ps
surface-records [] h = refl
surface-records (p ∷ ps) h =
    surface-framed p (records ps) h.0 ∙ ap (λ b. p ++ b) (surface-records ps h.1)

-- A whole response: 105 bytes that look like the server's handshake, a length and its payload, and
-- then records.
pub surface-response :
    (handshake p : Bytes) (ps : List Bytes)
    → length handshake ≡ 105
    → length p < 2 ^ 16
    → All (λ q. length q < 2 ^ 16) ps
    → surface (skip 105) (handshake ++ (be16 (length p) ++ (p ++ records ps))) ≡ p ++ joined ps
surface-response handshake p ps e h hs =
    let rest = be16 (length p) ++ (p ++ records ps) in
    surface-skip 105 handshake rest (omega arith)
    ∙ ap (λ j. surface (skip j) rest) {x = 105 - length handshake} {y = 0} (omega arith)
    ∙ surface-record p (records ps) h
    ∙ ap (λ b. p ++ b) (surface-records ps hs)
