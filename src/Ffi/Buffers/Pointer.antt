-- ===== src/Ffi/Buffers/Pointer.antt =====
-- What the pointer that `sslocal_last_error` of native/sslocal-ffi/src/lib.rs returns points to.
use shadowsocks_ohos.Prelude.{ℕ, ◌≡◌, ◌∙◌, Bool, false, ◌||◌, inl, inr, none, some, Text}
use shadowsocks_ohos.Ffi.Buffers.{
  Owner, last_error, handed_out, clone_of, same, Memory, fill, cloned, handed, Access,
  sets_last_error, clones_none, clones, hands_out, IsAccessed,
}
use shadowsocks_ohos.Ffi.Buffers.Owned.{
  same-cases, IsOwned, fill-live, fill-own, give-same, keep, fill-IsOwned, pass-live, pass-IsOwned,
  Access-IsOwned, IsAccessed-IsOwned,
}

-- The access changes what the owner has.
abbrev pub touches : {m m' : Memory} → Access m m' → Owner → Bool
touches (sets_last_error a message _) x = same last_error x
touches (clones_none i _ _) x = false
touches (clones i a _ _ _ _) x = same (clone_of i) x
touches (hands_out i _) x = same (clone_of i) x || same handed_out x

-- Accesses by any threads that leave `x` what it has.
pub data Without (x : Owner) (m : Memory) : Memory → Type 0 where
  here : Without x m m
  later :
      {u u' : Memory}
      → Without x m u
      → (access : Access u u') → touches access x ≡ false
      → Without x m u'

-- `x` owns the buffer at `a`, which holds `t`.
abbrev pub Has : Owner → ℕ → Text → Memory → Type 0
Has x a t m = (m.owned x ≡ some a) × (m.heap a ≡ some t)

fill-Has :
    {m : Memory} (h : IsOwned m) (o x : Owner) (b a : ℕ) (s t : Text)
    → m.heap b ≡ none
    → same o x ≡ false
    → Has x a t m
    → Has x a t (fill m o b s)
fill-Has {m} h o x b a s t free other (own, text) = elim (same-cases o x) [
  | inl (e, _) ↦ cc
  | inr (e, apart) ↦ (rw e own, fill-live h o b s x a free apart own ∙ text)
]

Access-Has :
    {m m' : Memory} (h : IsOwned m) (x : Owner) (a : ℕ) (t : Text) (access : Access m m')
    → touches access x ≡ false
    → Has x a t m
    → Has x a t m'
Access-Has h x a t (sets_last_error b message free) other has =
    fill-Has h last_error x b a _ t free other has
Access-Has h x a t (clones_none i _ _) other has = has
Access-Has h x a t (clones i b {t = s} _ _ _ free) other has =
    fill-Has h (clone_of i) x b a s t free other has
Access-Has {m} h x a t (hands_out i _) other (own, text) = elim (same-cases (clone_of i) x) [
  | inl (e, _) ↦ cc
  | inr (e, _) ↦ elim (same-cases handed_out x) [
    | inl (e', _) ↦ cc
    | inr (e', apart) ↦ (rw (e', e) own, pass-live h handed_out x a apart own ∙ text)
  ]
]

Without-Has :
    (x : Owner) (a : ℕ) (t : Text) {m u : Memory}
    → IsOwned m
    → Has x a t m
    → Without x m u
    → IsOwned u × Has x a t u
Without-Has x a t h has here = (h, has)
Without-Has x a t h has (later before access other) =
    let (h', has') = Without-Has x a t h has before in
    (Access-IsOwned access h', Access-Has h' x a t access other has')

-- `sslocal_last_error` returns a pointer to the message that was recorded when it cloned it, whatever the
-- other threads did to the two statics before it moved the clone; and whatever they do after that, the
-- buffer stays allocated and holds that message until a call of `sslocal_last_error` moves its own.
pub handed_out-Has :
    (i a : ℕ) {b : ℕ} {t : Text} {m m' u : Memory}
    → IsAccessed m
    → Has last_error b t m
    → m.heap a ≡ none
    → Without (clone_of i) (cloned i a t m) m'
    → Without handed_out (handed i m') u
    → Has handed_out a t u
handed_out-Has i a {t = t} {m} {m'} accessed recorded free before after =
    let h = IsAccessed-IsOwned m accessed in
    let here : Has (clone_of i) a t (cloned i a t m) =
      (give-same m.owned (clone_of i) (some a), fill-own h (clone_of i) a t free) in
    let (h', (own, text)) =
      Without-Has (clone_of i) a t (keep (fill-IsOwned h (clone_of i) a t free)) here before in
    let moved : Has handed_out a t (handed i m') =
      (own, pass-live h' handed_out (clone_of i) a (λ e. cc) own ∙ text) in
    (Without-Has handed_out a t (keep (pass-IsOwned h' (clone_of i) handed_out (λ e. cc))) moved
      after).1
