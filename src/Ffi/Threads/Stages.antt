-- ===== src/Ffi/Threads/Stages.antt =====
-- How far a start of native/sslocal-ffi/src/lib.rs has come says what it does on its own.
use shadowsocks_ohos.Prelude.{◌≡◌, sym, ap, ◌∙◌, none, some, List, Text, Option-cases, inl, inr}
use shadowsocks_ohos.Json.{Value}
use shadowsocks_ohos.Ffi.State.{
  ℤ, Globals, Outcome, ok, err, Action, bound, ◌>>=◌, raise, set_last_error, Config, Forwarder,
}
use shadowsocks_ohos.Ffi.Specs.{PluginSpec}
use shadowsocks_ohos.Ffi.Start.{Env, not_running, attach_stat_address, store}
use shadowsocks_ohos.Ffi.Session.Starts.{already_running, not_running-elim}
use shadowsocks_ohos.Ffi.Threads.{Start, before_lock, launch, prepare}
use shadowsocks_ohos.Ffi.Threads.Local.{Fate, goes, fails, panics, enact, IsLocal}
use shadowsocks_ohos.Ffi.Threads.Serial.{finish, locked_part, perform}

module _ {A : Type 0} where
  -- Whatever the statics hold, it returns `a` and leaves them as they are.
  abbrev pub Goes : Action A → A → Type 0
  Goes m a = (g : Globals) → m g ≡ (ok a, g)

  -- Whatever the statics hold, it returns the code and records the message.
  abbrev pub Fails : Action A → Text → ℤ → Type 0
  Fails m message c = (g : Globals) → m g ≡ (err c, set_last_error message g)

  pub Goes-of_ok :
      {m : Action A} {g g' : Globals} {a : A} → IsLocal m → m g ≡ (ok a, g') → (g' ≡ g) × Goes m a
  unfolding enact
  Goes-of_ok {m} {g} {g'} {a} h e = in_cases h.fate (sym (h.enacts g) ∙ e) h.enacts
    where
      in_cases :
          (r : Fate A)
          → enact r g ≡ (ok a, g')
          → ((x : Globals) → m x ≡ enact r x)
          → (g' ≡ g) × Goes m a
      in_cases (goes b) q k = (cc, λ x. k x ∙ cc)
      in_cases (fails message c) q k = cc
      in_cases panics q k = cc

  pub Fails-of_err :
      {m : Action A} {g g' : Globals} {c : ℤ}
      → IsLocal m
      → m g ≡ (err c, g')
      → (message : Text) × (g' ≡ set_last_error message g) × Fails m message c
  unfolding enact
  Fails-of_err {m} {g} {g'} {c} h e = in_cases h.fate (sym (h.enacts g) ∙ e) h.enacts
    where
      in_cases :
          (r : Fate A)
          → enact r g ≡ (err c, g')
          → ((x : Globals) → m x ≡ enact r x)
          → (message : Text) × (g' ≡ set_last_error message g) × Fails m message c
      in_cases (goes b) q k = cc
      in_cases (fails message d) q k = (message, cc, λ x. k x ∙ cc)
      in_cases panics q k = cc

  bind-at :
      {B : Type 0} (m : Action A) (f : A → Action B) (g : Globals) (r : Outcome A × Globals)
      → m g ≡ r
      → (m >>= f) g ≡ bound f r
  unfolding ◌>>=◌
  bind-at m f g r e = ap (bound f) e

  bind-ok :
      {B : Type 0} (m : Action A) (f : A → Action B) {g g' : Globals} {a : A}
      → m g ≡ (ok a, g')
      → (m >>= f) g ≡ f a g'
  unfolding bound
  bind-ok m f {g} e = bind-at m f g _ e

  bind-err :
      {B : Type 0} (m : Action A) (f : A → Action B) {g g' : Globals} {c : ℤ}
      → m g ≡ (err c, g')
      → (m >>= f) g ≡ (err c, g')
  unfolding bound
  bind-err m f {g} e = bind-at m f g _ e

pub not_running-ok :
    {g g' : Globals} → not_running g ≡ (ok tt, g') → (g' ≡ g) × (g.instance_slot ≡ none)
unfolding raise
not_running-ok {g} {g'} e = elim (Option-cases g.instance_slot) [
  | inl idle ↦ (ap (λ r. r.1) (sym e ∙ not_running-elim g idle), idle)
  | inr (i, busy) ↦
      absurd
        (let q : ◌≡◌ {A = Outcome (Unit {0}) × Globals} _ _ = sym e ∙ not_running-elim g busy in cc)
]

pub not_running-err :
    (g : Globals) {g' : Globals} {c : ℤ}
    → not_running g ≡ (err c, g')
    → (g' ≡ set_last_error already_running g)
      × ((x : Globals)
          → x.instance_slot ≡ g.instance_slot
          → not_running x ≡ (err c, set_last_error already_running x))
unfolding raise
not_running-err g {g'} {c} e = elim (Option-cases g.instance_slot) [
  | inl idle ↦
      absurd
        (let q : ◌≡◌ {A = Outcome (Unit {0}) × Globals} _ _ = sym e ∙ not_running-elim g idle in cc)
  | inr (i, busy) ↦
      let q : ◌≡◌ {A = Outcome (Unit {0}) × Globals} _ _ = sym e ∙ not_running-elim g busy in
      (cc, λ x h. not_running-elim x (h ∙ busy) ∙ cc)
]

not_running-idle : {g : Globals} → g.instance_slot ≡ none → not_running g ≡ (ok tt, g)
not_running-idle {g} idle = not_running-elim g idle

module _ (env : Env) (st : Start) where
  -- The part before the lock ends with `x`.
  abbrev pub Parsed : Value × List PluginSpec → Type 0
  Parsed x = Goes (before_lock env st) x

  -- So does the part up to the loaded config, with `y`.
  abbrev pub Launched : Config × List Forwarder → Type 0
  Launched y = (x : Value × List PluginSpec) × Parsed x × Goes (launch env x) y

  pub perform-unparsed :
      (g : Globals) {g' : Globals} {c : ℤ}
      → before_lock env st g ≡ (err c, g')
      → perform env st g ≡ (err c, g')
  unfolding perform
  perform-unparsed g e = bind-err (before_lock env st) (locked_part env st) e

  pub perform-busy :
      (g : Globals) {x : Value × List PluginSpec} {g' : Globals} {c : ℤ}
      → Parsed x
      → not_running g ≡ (err c, g')
      → perform env st g ≡ (err c, g')
  unfolding perform locked_part
  perform-busy g h e =
      bind-ok (before_lock env st) (locked_part env st) (h g) ∙ bind-err not_running _ e

  perform-launch :
      (g : Globals) {x : Value × List PluginSpec}
      → Parsed x
      → g.instance_slot ≡ none
      → perform env st g ≡ (launch env x >>= finish env st) g
  unfolding perform locked_part
  perform-launch g h idle =
      bind-ok (before_lock env st) (locked_part env st) (h g)
      ∙ bind-ok not_running _ (not_running-idle idle)

  pub perform-unlaunched :
      (g : Globals) {x : Value × List PluginSpec} {g' : Globals} {c : ℤ}
      → Parsed x
      → g.instance_slot ≡ none
      → launch env x g ≡ (err c, g')
      → perform env st g ≡ (err c, g')
  perform-unlaunched g {x} h idle e =
      perform-launch g h idle ∙ bind-err (launch env x) (finish env st) e

  perform-prepare :
      (g : Globals) {config a : Config} {forwarders : List Forwarder}
      → Launched (config, forwarders)
      → g.instance_slot ≡ none
      → attach_stat_address config g ≡ (ok a, g)
      → perform env st g
        ≡ (prepare env st a >>= λ c. store (record { config = c; forwarders = forwarders })) g
  unfolding finish
  perform-prepare g {config} (x, h, k) idle e =
      perform-launch g h idle
      ∙ bind-ok (launch env x) (finish env st) (k g)
      ∙ bind-ok (attach_stat_address config) _ e

  pub perform-unprepared :
      (g : Globals) {config a : Config} {forwarders : List Forwarder} {g' : Globals} {c : ℤ}
      → Launched (config, forwarders)
      → g.instance_slot ≡ none
      → attach_stat_address config g ≡ (ok a, g)
      → prepare env st a g ≡ (err c, g')
      → perform env st g ≡ (err c, g')
  perform-unprepared g {a = a} h idle e q =
      perform-prepare g h idle e ∙ bind-err (prepare env st a) _ q

  pub perform-stored :
      (g : Globals) {config a c : Config} {forwarders : List Forwarder}
      → Launched (config, forwarders)
      → g.instance_slot ≡ none
      → attach_stat_address config g ≡ (ok a, g)
      → prepare env st a g ≡ (ok c, g)
      → perform env st g ≡ (
        ok tt,
        record g { instance_slot = some (record { config = c; forwarders = forwarders }) },
      )
  unfolding store
  perform-stored g {a = a} h idle e q = perform-prepare g h idle e ∙ bind-ok (prepare env st a) _ q
