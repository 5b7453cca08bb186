-- ===== src/Ffi/Session/Tun.antt =====
-- The local that gets the tun descriptor in native/sslocal-ffi/src/lib.rs.
use shadowsocks_ohos.Prelude.{
  ℕ, zero, suc, ◌+◌, ◌≡◌, ◌≢◌, ◌⊎◌, refl, true, false, Option, none, some, List, [], ◌∷◌, length,
  Bool-cases, inl, inr, arith, ==_iff, ◌==◌, if◌then◌else◌,
}
use shadowsocks_ohos.Ffi.State.{Local}
use shadowsocks_ohos.Ffi.Start.{is_tun, position, tun_index}

-- The first local whose protocol is tun stands at `i`.
abbrev pub IsFirstTun : List Local → ℕ → Type 0
IsFirstTun [] i = ⊥
IsFirstTun (l ∷ ls) zero = is_tun l.protocol ≡ true
IsFirstTun (l ∷ ls) (suc i) = (is_tun l.protocol ≡ false) × IsFirstTun ls i

abbrev pub HasNoTun : List Local → Type 0
HasNoTun [] = Unit {0}
HasNoTun (l ∷ ls) = (is_tun l.protocol ≡ false) × HasNoTun ls

-- A position, counted from `from`, is the first tun local's; none says that there is no tun local.
abbrev IsPosition : ℕ → List Local → Option ℕ → Type 0
IsPosition from ls none = HasNoTun ls
IsPosition from ls (some j) = (i : ℕ) × (j ≡ from + i) × IsFirstTun ls i

position-IsPosition : (from : ℕ) (ls : List Local) → IsPosition from ls (position from ls)
unfolding position
position-IsPosition from [] = tt
position-IsPosition from (l ∷ ls) = elim (Bool-cases (is_tun l.protocol)) [
  | inl here ↦ rw here (0, omega arith, here)
  | inr not_here ↦
      rw not_here (behind (position (suc from) ls) (position-IsPosition (suc from) ls) not_here)
]
  where
    behind :
        (o : Option ℕ)
        → IsPosition (suc from) ls o
        → is_tun l.protocol ≡ false
        → IsPosition from (l ∷ ls) o
    behind none h e = (e, h)
    behind (some j) (i, same, first) e = (suc i, omega arith, (e, first))

-- The index that the start chooses: the first tun local's, or that of the only local.
abbrev pub Chooses : List Local → Option ℕ → Type 0
Chooses ls (some i) = IsFirstTun ls i ⊎ (HasNoTun ls × (length ls ≡ 1) × (i ≡ 0))
Chooses ls none = HasNoTun ls × (length ls ≢ 1)

-- The tun descriptor goes to the first local whose protocol is tun; where there is none, to the only
-- local if there is just one; and to none exactly where no local is tun and there is not just one.
pub tun_index-Chooses : (ls : List Local) → Chooses ls (tun_index ls)
unfolding tun_index
tun_index-Chooses ls = in_cases (position 0 ls) (position-IsPosition 0 ls)
  where
    only : HasNoTun ls → Chooses ls (if length ls == 1 then some 0 else none)
    only h = elim (Bool-cases (length ls == 1)) [
      | inl one ↦ rw one (inr (h, (==_iff (length ls) 1).0 one, refl))
      | inr more ↦ rw more (h, λ e. ground (arith, ==_iff (length ls) 1))
    ]

    in_cases :
        (o : Option ℕ)
        → IsPosition 0 ls o
        → Chooses ls (elim o [ some i ↦ some i | none ↦ if length ls == 1 then some 0 else none ])
    in_cases none h = only h
    in_cases (some j) (i, same, first) = let there : j ≡ i = omega arith in inl (rw there first)
