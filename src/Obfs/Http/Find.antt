-- ===== src/Obfs/Http/Find.antt =====
-- `find_double_crlf` of native/sslocal-ffi/src/obfs.rs against its meaning: the first position at
-- which the four bytes stand.
use shadowsocks_ohos.Prelude.{
  ℕ, zero, suc, ◌+◌, ◌-◌, ◌≤◌, ◌<◌, ◌≡◌, sym, ap, ◌∙◌, ◌++◌, none, some, Bytes, ◌↔◌, length, take,
  drop, drop-append, length-take, length-drop, arith, ltb, equal, equal_iff, false, ltb, ltb→lt,
  not_ltb→le, Bool-cases, Option-cases, inl, inr, le-cases, take-append_le,
}
use shadowsocks_ohos.Obfs.Http.{double_crlf, scan, find_double_crlf}

-- The four bytes stand at position `i`.
abbrev pub IsAt : ℕ → Bytes → Type 0
IsAt i s = take 4 (drop i s) ≡ double_crlf

-- They stand at `i` and nowhere before.
pub record IsFirst (i : ℕ) (s : Bytes) : Type 0 where
  pub here : IsAt i s
  pub not_before : (j : ℕ) → j < i → ¬ IsAt j s

differs : (i : ℕ) (s : Bytes) → equal (take 4 (drop i s)) double_crlf ≡ false → ¬ IsAt i s
differs i s e at = cc (e, (equal_iff (take 4 (drop i s)) double_crlf).1 at)

scan-some :
    (k i : ℕ) (s : Bytes) {r : ℕ}
    → scan k i s ≡ some r
    → (i ≤ r) × IsAt r s × ((j : ℕ) → i ≤ j → j < r → ¬ IsAt j s)
unfolding scan
scan-some zero i s e = cc
scan-some (suc k) i s {r} e = elim (Bool-cases (equal (take 4 (drop i s)) double_crlf)) [
  | inl found ↦
      let same : i ≡ r = cc (rw found at e) in
      (omega arith, rw (← same) ((equal_iff _ _).0 found), λ j le lt. absurd (omega arith))
  | inr other ↦
      let later = scan-some k (suc i) s (rw other at e) in
      (
        omega (arith, later.0),
        later.1,
        λ j le lt. elim (le-cases i j le) [
          | inl same ↦ rw (← same) (differs i s other)
          | inr above ↦ later.2 j above lt
        ],
      )
]

scan-none : (k i : ℕ) (s : Bytes) → scan k i s ≡ none → (j : ℕ) → i ≤ j → j < i + k → ¬ IsAt j s
unfolding scan
scan-none zero i s e j le lt = absurd (omega arith)
scan-none (suc k) i s e j le lt = elim (Bool-cases (equal (take 4 (drop i s)) double_crlf)) [
  | inl found ↦ cc (rw found at e)
  | inr other ↦ elim (le-cases i j le) [
    | inl same ↦ rw (← same) (differs i s other)
    | inr above ↦ scan-none k (suc i) s (rw other at e) j above (omega arith)
  ]
]

-- The four bytes need four bytes.
pub IsAt-le : (i : ℕ) (s : Bytes) → IsAt i s → i + 4 ≤ length s
IsAt-le i s at = omega (arith, ap length at, length-take 4 (drop i s), length-drop i s)

-- What is found is the first position.
pub find_double_crlf-some : (s : Bytes) {i : ℕ} → find_double_crlf s ≡ some i → IsFirst i s
unfolding find_double_crlf
find_double_crlf-some s e = elim (Bool-cases (ltb (length s) 4)) [
  | inl short ↦ cc (rw short at e)
  | inr long ↦
      let found = scan-some (length s - 4 + 1) 0 s (rw long at e) in
      record { here = found.1; not_before = λ j lt. found.2 j (omega arith) lt }
]

-- Where nothing is found, they stand nowhere.
pub find_double_crlf-none : (s : Bytes) → find_double_crlf s ≡ none → (i : ℕ) → ¬ IsAt i s
unfolding find_double_crlf
find_double_crlf-none s e i at = elim (Bool-cases (ltb (length s) 4)) [
  | inl short ↦ absurd (omega (arith, ltb→lt _ _ short, IsAt-le i s at))
  | inr long ↦
      scan-none (length s - 4 + 1) 0 s (rw long at e) i (omega arith)
        (omega (arith, IsAt-le i s at, not_ltb→le _ _ long)) at
]

-- The first position is found.
pub IsFirst-find_double_crlf : (s : Bytes) {i : ℕ} → IsFirst i s → find_double_crlf s ≡ some i
IsFirst-find_double_crlf s {i} f = elim (Option-cases (find_double_crlf s)) [
  | inl nowhere ↦ absurd (find_double_crlf-none s nowhere i f.here)
  | inr (j, found) ↦ let g = find_double_crlf-some s found in found ∙ ap some (same_first g)
]
  where
    same_first : {j : ℕ} → IsFirst j s → j ≡ i
    same_first {j} g = elim (Bool-cases (ltb j i)) [
      | inl below ↦ absurd (f.not_before j (ltb→lt _ _ below) g.here)
      | inr not_below ↦ elim (le-cases i j (not_ltb→le _ _ not_below)) [
        | inl same ↦ sym same
        | inr above ↦ absurd (g.not_before i above f.here)
      ]
    ]

IsAt-append :
    (i : ℕ) (s rest : Bytes) → i + 4 ≤ length s → take 4 (drop i (s ++ rest)) ≡ take 4 (drop i s)
IsAt-append i s rest h =
    rw (drop-append i s rest (omega arith))
      (take-append_le 4 (drop i s) rest (omega (arith, length-drop i s)))

-- More input behind a found position changes nothing.
pub find_double_crlf-append :
    (s rest : Bytes) {i : ℕ} → find_double_crlf s ≡ some i → find_double_crlf (s ++ rest) ≡ some i
find_double_crlf-append s rest {i} e =
    let f = find_double_crlf-some s e in
    let fits = IsAt-le i s f.here in
    IsFirst-find_double_crlf (s ++ rest) (record {
      here = IsAt-append i s rest fits ∙ f.here;
      not_before = λ j lt at. f.not_before j lt (sym (IsAt-append j s rest (omega arith)) ∙ at);
    })

-- `find_double_crlf` decides the first position of the four bytes, and fails only where there is
-- none.
pub find_double_crlf_lem :
    (s : Bytes)
    → ((i : ℕ) → (find_double_crlf s ≡ some i) ↔ IsFirst i s)
      × ((find_double_crlf s ≡ none) ↔ ((i : ℕ) → ¬ IsAt i s))
find_double_crlf_lem s =
    let decided : (find_double_crlf s ≡ none) ↔ ((i : ℕ) → ¬ IsAt i s) = (
      find_double_crlf-none s,
      λ h. elim (Option-cases (find_double_crlf s)) [
        | inl nowhere ↦ nowhere
        | inr (i, found) ↦ absurd (h i (find_double_crlf-some s found).here)
      ],
    ) in
    (λ i. (find_double_crlf-some s, IsFirst-find_double_crlf s), decided)
