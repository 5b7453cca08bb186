-- ===== src/Ffi/Buffers/Owned.antt =====
-- Each buffer of an error message of native/sslocal-ffi/src/lib.rs has one owner.
use native.Mathlib.Decide.{ℕ_discrete}
use shadowsocks_ohos.Prelude.{
  ℕ, ◌≡◌, ◌≢◌, ◌⊎◌, refl, sym, ap, ◌∙◌, Bool, true, false, Bool-cases, inl, inr, Option, none, some,
  Text, ==_iff, arith,
}
use shadowsocks_ohos.Ffi.State.{to_c_string}
use shadowsocks_ohos.Ffi.Buffers.{
  Owner, last_error, handed_out, clone_of, same, Heap, Memory, write, freed, give, fill, pass,
  Access, sets_last_error, clones_none, clones, hands_out, IsAccessed, at_first, then_access,
}

same-eq : (o o' : Owner) → same o o' ≡ true → o ≡ o'
same-eq last_error last_error e = refl
same-eq handed_out handed_out e = refl
same-eq (clone_of i) (clone_of j) e = ap clone_of ((==_iff i j).0 e)
same-eq last_error handed_out e = cc
same-eq last_error (clone_of j) e = cc
same-eq handed_out last_error e = cc
same-eq handed_out (clone_of j) e = cc
same-eq (clone_of i) last_error e = cc
same-eq (clone_of i) handed_out e = cc

same_refl : (o : Owner) → same o o ≡ true
same_refl last_error = refl
same_refl handed_out = refl
same_refl (clone_of i) = (==_iff i i).1 refl

-- What is written at one address is not seen at another.
pub write-other : (heap : Heap) (a b : ℕ) (t : Option Text) → a ≢ b → write heap a t b ≡ heap b
write-other heap a b t h = ground arith

pub write-same : (heap : Heap) (a : ℕ) (t : Option Text) → write heap a t a ≡ t
write-same heap a t = ground arith

pub freed-other : (heap : Heap) (p : Option ℕ) (b : ℕ) → p ≢ some b → freed heap p b ≡ heap b
freed-other heap none b h = refl
freed-other heap (some a) b h = write-other heap a b none (λ e. h (ap some e))

write-cases :
    (heap : Heap) (a b : ℕ) (t : Option Text)
    → ((a ≡ b) × (write heap a t b ≡ t)) ⊎ ((a ≢ b) × (write heap a t b ≡ heap b))
write-cases heap a b t = elim (ℕ_discrete a b) [
  | yes e ↦ inl (e, ap (write heap a t) (sym e) ∙ write-same heap a t)
  | no n ↦ inr (n, write-other heap a b t n)
]

-- What is allocated after a drop was so before, and is not what was dropped.
freed-some :
    (heap : Heap) (p : Option ℕ) (b : ℕ) (t : Text)
    → freed heap p b ≡ some t
    → (heap b ≡ some t) × (p ≢ some b)
freed-some heap none b t e = (e, λ q. cc)
freed-some heap (some a) b t e = elim (write-cases heap a b none) [
  | inl (_, q) ↦ cc
  | inr (n, q) ↦ (sym q ∙ e, λ r. n cc)
]

-- The owned buffers are allocated, each has one owner, and no other is allocated.
pub record IsOwned (m : Memory) : Type 0 where
  pub live : (o : Owner) (a : ℕ) → m.owned o ≡ some a → (t : Text) × (m.heap a ≡ some t)
  pub unique : (o o' : Owner) (a : ℕ) → m.owned o ≡ some a → m.owned o' ≡ some a → o ≡ o'
  pub no_leak : (a : ℕ) (t : Text) → m.heap a ≡ some t → (o : Owner) × (m.owned o ≡ some a)

pub same-cases : (o x : Owner) → ((same o x ≡ true) × (x ≡ o)) ⊎ ((same o x ≡ false) × (x ≢ o))
same-cases o x = elim (Bool-cases (same o x)) [
  | inl e ↦ inl (e, sym (same-eq o x e))
  | inr e ↦ inr (e, λ q. let t : same o x ≡ true = ap (same o) q ∙ same_refl o in cc)
]

pub give-same : (f : Owner → Option ℕ) (o : Owner) (p : Option ℕ) → give f o p o ≡ p
give-same f o p = rw (same_refl o) refl

-- Who owned what an owner has once it was given.
give-cases :
    (f : Owner → Option ℕ) (o : Owner) (p : Option ℕ) (x : Owner) (b : ℕ)
    → give f o p x ≡ some b
    → ((x ≡ o) × (p ≡ some b)) ⊎ ((x ≢ o) × (f x ≡ some b))
give-cases f o p x b e = elim (same-cases o x) [
  | inl (t, q) ↦ inl (q, rw t at e)
  | inr (t, q) ↦ inr (q, rw t at e)
]

module _ {m : Memory} (h : IsOwned m) where
  -- An address that is not in use is nobody's.
  unused : (a b : ℕ) (x : Owner) → m.heap a ≡ none → m.owned x ≡ some b → a ≢ b
  unused a b x free e q =
      let (t, s) = h.live x b e in let c : m.heap a ≡ some t = ap m.heap q ∙ s in cc

  others : (o x : Owner) (b : ℕ) → x ≢ o → m.owned x ≡ some b → m.owned o ≢ some b
  others o x b n e q = n (h.unique x o b e q)

  pub fill-live :
      (o : Owner) (a : ℕ) (t : Text) (x : Owner) (b : ℕ)
      → m.heap a ≡ none
      → x ≢ o
      → m.owned x ≡ some b
      → (fill m o a t).heap b ≡ m.heap b
  fill-live o a t x b free n e =
      freed-other (write m.heap a (some t)) (m.owned o) b (others o x b n e)
      ∙ write-other m.heap a b (some t) (unused a b x free e)

  pub fill-own : (o : Owner) (a : ℕ) (t : Text) → m.heap a ≡ none → (fill m o a t).heap a ≡ some t
  fill-own o a t free =
      freed-other (write m.heap a (some t)) (m.owned o) a (λ e. unused a a o free e refl)
      ∙ write-same m.heap a (some t)

  pub fill-IsOwned : (o : Owner) (a : ℕ) (t : Text) → m.heap a ≡ none → IsOwned (fill m o a t)
  fill-IsOwned o a t free = record {
    live = λ x b e. elim (give-cases m.owned o (some a) x b e) [
      | inl (_, p) ↦ (t, ap (fill m o a t).heap (cc) ∙ fill-own o a t free)
      | inr (n, p) ↦ let (t', s) = h.live x b p in (t', fill-live o a t x b free n p ∙ s)
    ];
    unique = λ x y b e e'. elim (give-cases m.owned o (some a) x b e) [
      | inl (q, p) ↦ elim (give-cases m.owned o (some a) y b e') [
        | inl (q', p') ↦ q ∙ sym q'
        | inr (n, p') ↦ absurd (unused a b y free p' cc)
      ]
      | inr (n, p) ↦ elim (give-cases m.owned o (some a) y b e') [
        | inl (q', p') ↦ absurd (unused a b x free p cc)
        | inr (n', p') ↦ h.unique x y b p p'
      ]
    ];
    no_leak = λ b s e.
        let (e', n) = freed-some (write m.heap a (some t)) (m.owned o) b s e in
        elim (write-cases m.heap a b (some t)) [
          | inl (q, _) ↦ (o, give-same m.owned o (some a) ∙ ap some q)
          | inr (_, q) ↦
              let (x, own) = h.no_leak b s (sym q ∙ e') in
              elim (same-cases o x) [
                | inl (_, r) ↦ absurd (n (ap m.owned (sym r) ∙ own))
                | inr (f, _) ↦ (x, rw f own)
              ]
        ];
  }

  pass-cases :
      (o o' x : Owner) (b : ℕ)
      → (pass m o o').owned x ≡ some b
      → ((x ≡ o') × (m.owned o ≡ some b)) ⊎ ((x ≢ o') × (x ≢ o) × (m.owned x ≡ some b))
  pass-cases o o' x b e = elim (give-cases (give m.owned o none) o' (m.owned o) x b e) [
    | inl (q, p) ↦ inl (q, p)
    | inr (n, p) ↦ elim (give-cases m.owned o none x b p) [
      | inl (q, z) ↦ cc
      | inr (n', z) ↦ inr (n, n', z)
    ]
  ]

  pub pass-live :
      (o' x : Owner) (b : ℕ) → x ≢ o' → m.owned x ≡ some b → freed m.heap (m.owned o') b ≡ m.heap b
  pass-live o' x b n e = freed-other m.heap (m.owned o') b (others o' x b n e)

  pub pass-IsOwned : (o o' : Owner) → o ≢ o' → IsOwned (pass m o o')
  pass-IsOwned o o' apart = record {
    live = λ x b e. elim (pass-cases o o' x b e) [
      | inl (q, p) ↦ let (t, s) = h.live o b p in (t, pass-live o' o b apart p ∙ s)
      | inr (n, n', p) ↦ let (t, s) = h.live x b p in (t, pass-live o' x b n p ∙ s)
    ];
    unique = λ x y b e e'. elim (pass-cases o o' x b e) [
      | inl (q, p) ↦ elim (pass-cases o o' y b e') [
        | inl (q', p') ↦ q ∙ sym q'
        | inr (n, n', p') ↦ absurd (n' (h.unique y o b p' p))
      ]
      | inr (n, n', p) ↦ elim (pass-cases o o' y b e') [
        | inl (q', p') ↦ absurd (n' (h.unique x o b p p'))
        | inr (_, _, p') ↦ h.unique x y b p p'
      ]
    ];
    no_leak = λ b s e.
        let (e', n) = freed-some m.heap (m.owned o') b s e in
        let (x, own) = h.no_leak b s e' in
        elim (same-cases o' x) [
          | inl (_, r) ↦ absurd (n (ap m.owned (sym r) ∙ own))
          | inr (f, _) ↦ elim (same-cases o x) [
            | inl (_, r) ↦
                (o', give-same (give m.owned o none) o' (m.owned o) ∙ ap m.owned (sym r) ∙ own)
            | inr (f', _) ↦ (x, rw (f, f') own)
          ]
        ];
  }

pub keep : {m : Memory} {f : ℕ → Bool} → IsOwned m → IsOwned (record m { has_cloned = f })
keep h = record { live = h.live; unique = h.unique; no_leak = h.no_leak }

pub Access-IsOwned : {m m' : Memory} → Access m m' → IsOwned m → IsOwned m'
Access-IsOwned (sets_last_error a message free) h =
    fill-IsOwned h last_error a (to_c_string message) free
Access-IsOwned (clones_none i _ _) h = keep h
Access-IsOwned (clones i a {t = t} _ _ _ free) h = keep (fill-IsOwned h (clone_of i) a t free)
Access-IsOwned (hands_out i _) h = keep (pass-IsOwned h (clone_of i) handed_out (λ e. cc))

-- However threads record errors and ask for them, and whichever free addresses the allocator chooses: the
-- buffer that a static or a clone owns is allocated, no two own the same, and every buffer that is
-- allocated is owned.
pub IsAccessed-IsOwned : (m : Memory) → IsAccessed m → IsOwned m
IsAccessed-IsOwned m at_first = record {
  live = λ o a e. cc;
  unique = λ o o' a e e'. cc;
  no_leak = λ a t e. cc;
}
IsAccessed-IsOwned m' (then_access {m} before access) =
    Access-IsOwned access (IsAccessed-IsOwned m before)
