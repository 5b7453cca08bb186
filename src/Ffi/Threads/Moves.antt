-- ===== src/Ffi/Threads/Moves.antt =====
-- What each access of native/sslocal-ffi/src/lib.rs to the statics says when others have been made since:
-- the parts of a start, a stop, and the stat address.
use shadowsocks_ohos.Prelude.{
  ◌≡◌, ◌⊎◌, refl, sym, ap, ◌∙◌, Option, none, some, List, Text, ◌++◌, codes, is_empty, Bool-cases,
  Option-cases, inl, inr,
}
use shadowsocks_ohos.Ffi.State.{
  ℤ, Globals, Outcome, ok, err, Fallible, done, failed, attempt, ◌>>=◌, bound, raise, pure, CStrArg,
  null, text, not_utf8, cstr_arg, Config, Forwarder, sslocal_err_invalid_arg,
}
use shadowsocks_ohos.Ffi.Start.{Env, is_negative, attach_stat_address, tun_index, attach_tun}
use shadowsocks_ohos.Ffi.Control.{
  sslocal_stop, sslocal_set_stat_address, put_stat_addr, parse_stat_addr, invalid_address,
}
use shadowsocks_ohos.Ffi.Threads.{Start, prepare}
use shadowsocks_ohos.Ffi.Threads.Local.{Fate, goes, fails, panics, enact, prepare-IsLocal}
use shadowsocks_ohos.Ffi.Threads.Stages.{Fails}
use shadowsocks_ohos.Ffi.Threads.Invariant.{owes, with_stat}

pub attach-with_stat :
    (config : Config) (g : Globals)
    → attach_stat_address config g ≡ (ok (with_stat config g.stat_addr), g)
unfolding attach_stat_address
attach-with_stat config g = elim (Option-cases g.stat_addr) [
  | inl unset ↦ rw (attach_stat_address, unset) refl
  | inr (addr, set) ↦ rw (attach_stat_address, set) refl
]

with_stat-locals :
    (config : Config) (stat : Option Text) → (with_stat config stat).locals ≡ config.locals
with_stat-locals config none = refl
with_stat-locals config (some addr) = refl

owes-ok :
    (st : Start) (forwarders : List Forwarder) (r : Fate Config) (g : Globals) {g' : Globals}
    {c : Config}
    → enact r g ≡ (ok c, g')
    → owes st forwarders r ≡ some (st, record { config = c; forwarders = forwarders })
unfolding enact
owes-ok st forwarders (goes b) g e = cc
owes-ok st forwarders (fails message d) g e = cc
owes-ok st forwarders panics g e = cc

owes-err :
    (st : Start) (forwarders : List Forwarder) (r : Fate Config) (g : Globals) {g' : Globals}
    {c : ℤ}
    → enact r g ≡ (err c, g')
    → owes st forwarders r ≡ none
unfolding enact
owes-err st forwarders (goes b) g e = cc
owes-err st forwarders (fails message d) g e = refl
owes-err st forwarders panics g e = refl

-- Where the address is looked at has no part in whether a start fails.
attach_tun-locals :
    (env : Env) (fd : ℤ) (a a' : Config) (g : Globals) {g' : Globals} {c : ℤ}
    → a.locals ≡ a'.locals
    → attach_tun env fd a g ≡ (err c, g')
    → (x : Globals) → attach_tun env fd a x ≡ attach_tun env fd a' x
unfolding attach_tun pure
attach_tun-locals env fd a a' g same e x = elim (Option-cases (tun_index a.locals)) [
  | inl nowhere ↦ rw (attach_tun, nowhere, sym (ap tun_index same) ∙ nowhere) refl
  | inr (i, found) ↦ elim (Bool-cases (is_negative (env.dup fd))) [
    | inl failure ↦ rw (attach_tun, found, sym (ap tun_index same) ∙ found, failure) refl
    | inr fine ↦ absurd (let q = rw (attach_tun, found, fine) at e in cc)
  ]
]

module _ (env : Env) (st : Start) (g : Globals) where
  pub owes-prepare :
      (a : Config) {c : Config} (forwarders : List Forwarder) {g' : Globals}
      → prepare env st a g ≡ (ok c, g')
      → owes st forwarders (prepare-IsLocal env st a).fate
        ≡ some (st, record { config = c; forwarders = forwarders })
  owes-prepare a forwarders e =
      let h = prepare-IsLocal env st a in owes-ok st forwarders h.fate g (sym (h.enacts g) ∙ e)

  pub owes-prepare_err :
      (a : Config) (forwarders : List Forwarder) {g' : Globals} {c : ℤ}
      → prepare env st a g ≡ (err c, g')
      → owes st forwarders (prepare-IsLocal env st a).fate ≡ none
  owes-prepare_err a forwarders e =
      let h = prepare-IsLocal env st a in owes-err st forwarders h.fate g (sym (h.enacts g) ∙ e)

  pub prepare-locals :
      (config : Config) (stat stat' : Option Text) {g' : Globals} {c : ℤ}
      → prepare env st (with_stat config stat) g ≡ (err c, g')
      → (x : Globals)
      → prepare env st (with_stat config stat) x ≡ prepare env st (with_stat config stat') x
  unfolding prepare pure
  prepare-locals config stat stat' {g'} {c} = in_cases st.tun_fd
    where
      in_cases :
          (o : Option ℤ)
          → let run : Config → Globals → Outcome Config × Globals =
              prepare env (record st { tun_fd = o }) in
            run (with_stat config stat) g ≡ (err c, g')
            → (x : Globals) → run (with_stat config stat) x ≡ run (with_stat config stat') x
      in_cases none e = λ x. cc
      in_cases (some fd) e =
          attach_tun-locals env fd (with_stat config stat) (with_stat config stat') g
            (with_stat-locals config stat ∙ sym (with_stat-locals config stat')) e

pub sslocal_stop-handed_out :
    (g : Globals) (h : Option Text)
    → sslocal_stop (record g { last_error_handed_out = h })
      ≡ ((sslocal_stop g).0, record (sslocal_stop g).1 { last_error_handed_out = h })
unfolding sslocal_stop raise
sslocal_stop-handed_out g h = elim (Option-cases g.instance_slot) [
  | inl idle ↦ rw (sslocal_stop, idle) refl
  | inr (i, busy) ↦ rw (sslocal_stop, busy) refl
]

Fallible-cases :
    {A : Type 0} (r : Fallible A) → ((a : A) × (r ≡ done a)) ⊎ ((e : Text) × (r ≡ failed e))
Fallible-cases (done a) = inl (a, refl)
Fallible-cases (failed e) = inr (e, refl)

-- What a call for the stat address does, whatever the statics hold.
abbrev pub SetsAddress : Env → CStrArg → Type 0
SetsAddress env addr =
    ((a : Option Text) × ((g : Globals)
        → sslocal_set_stat_address env addr g ≡ (ok tt, record g { stat_addr = a })))
    ⊎ ((m : Text) × (c : ℤ) × Fails (sslocal_set_stat_address env addr) m c)

pub sslocal_set_stat_address-SetsAddress : (env : Env) (addr : CStrArg) → SetsAddress env addr
unfolding sslocal_set_stat_address put_stat_addr parse_stat_addr cstr_arg ◌>>=◌ bound raise pure
    attempt
sslocal_set_stat_address-SetsAddress env null = inl (none, λ g. refl)
sslocal_set_stat_address-SetsAddress env (not_utf8 e) =
    inr (codes "stat address" ++ (codes " is not valid UTF-8: " ++ e), _, λ g. refl)
sslocal_set_stat_address-SetsAddress env (text s) = elim (Bool-cases (is_empty s)) [
  | inl empty ↦ inl (none, λ g. rw empty refl)
  | inr given ↦ elim (Fallible-cases (env.parse_addr s)) [
    | inl (a, good) ↦ inl (some a, λ g. rw (given, good) refl)
    | inr (e, bad) ↦ inr (invalid_address s e, sslocal_err_invalid_arg, λ g. rw (given, bad) refl)
  ]
]
