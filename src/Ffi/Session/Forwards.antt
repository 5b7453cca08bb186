-- ===== src/Ffi/Session/Forwards.antt =====
-- What a start in native/sslocal-ffi/src/lib.rs that succeeds has set up: a forwarder for each plugin, and
-- a config that points at the forwarders.
use mathlib.Core.Path.{subst}
use shadowsocks_ohos.Prelude.{
  ℕ, suc, true, false, ◌≡◌, refl, sym, ap, ◌∙◌, inl, inr, Option, none, some, List, [], ◌∷◌, ◌++◌,
  append-nil, append_assoc, length, length-append, Text, codes, equal, if◌then◌else◌, Bool-cases,
  arith,
}
use shadowsocks_ohos.Json.{Value}
use shadowsocks_ohos.Ffi.State.{
  ℤ, Globals, Outcome, ok, err, panic, Action, pure, raise, bound, ◌>>=◌, Fallible, done, failed,
  attempt, Forwarder,
}
use shadowsocks_ohos.Ffi.Specs.{
  PluginSite, PluginSpec, rewritten, at_site, or_panic, apply_plugin_forwarders,
}
use shadowsocks_ohos.Ffi.Session.Sites.{IsSite, KeepsSites, at_site-KeepsSites}
use shadowsocks_ohos.Ffi.Session.Parts.{AllSites, All-sites}
use shadowsocks_ohos.Ffi.Session.Fields.{value_at, same_site, field_now, at_site-Moved}
use shadowsocks_ohos.Ffi.Session.Named.{named}

-- The first step of two that succeed has succeeded, and so has the second behind it.
pub bind-ok :
    {A B : Type 0} (m : Action A) (f : A → Action B) (g : Globals) {b : B} {g' : Globals}
    → (m >>= f) g ≡ (ok b, g')
    → (a : A) × (h : Globals) × (m g ≡ (ok a, h)) × (f a h ≡ (ok b, g'))
unfolding ◌>>=◌ bound
bind-ok {A} m f g {b} {g'} e = in_cases (m g) refl e
  where
    in_cases :
        (r : Outcome A × Globals)
        → m g ≡ r
        → bound f r ≡ (ok b, g')
        → (a : A) × (h : Globals) × (m g ≡ (ok a, h)) × (f a h ≡ (ok b, g'))
    in_cases (ok a, h) s t = (a, h, s, t)
    in_cases (err c, h) s t = cc
    in_cases (panic, h) s t = cc

pure-ok :
    {A : Type 0} (a : A) (g : Globals) {b : A} {g' : Globals}
    → pure a g ≡ (ok b, g')
    → (a ≡ b) × (g ≡ g')
unfolding pure
pure-ok a g e = (cc, cc)

pub attempt-ok :
    {A : Type 0} (message : Text → Text) (code : ℤ) (r : Fallible A) (g : Globals) {a : A}
    {g' : Globals}
    → attempt message code r g ≡ (ok a, g')
    → r ≡ done a
unfolding attempt raise
attempt-ok message code (done x) g e = ap done (pure-ok x g e).0
attempt-ok message code (failed x) g e = cc

or_panic-ok :
    {A : Type 0} (o : Option A) (g : Globals) {a : A} {g' : Globals}
    → or_panic o g ≡ (ok a, g')
    → o ≡ some a
unfolding or_panic
or_panic-ok (some x) g e = cc
or_panic-ok none g e = cc

-- A forwarder for each spec: on the port that its listener was bound to, from number `n` on, and with
-- the plugin and the server of the spec.
pub data Forwards (listen : ℕ → Fallible ℕ) : ℕ → List PluginSpec → List Forwarder → Type 0 where
  none_left : {n : ℕ} → Forwards listen n [] []
  one_more :
      {n p : ℕ} {spec : PluginSpec} {specs : List PluginSpec} {forwarders : List Forwarder}
      → listen n ≡ done p
      → Forwards listen (suc n) specs forwarders
      → Forwards listen n (spec ∷ specs) (
          record { local_port = p; kind = spec.kind; host = spec.host; port = spec.port }
          ∷ forwarders)

-- A field of an entry behind all the rewriting: each forwarder of the entry has it pointed at itself.
abbrev pub field_then :
    List PluginSpec → List Forwarder → PluginSite → Text → Option Value → Option Value
field_then (spec ∷ specs) (forwarder ∷ forwarders) site k v =
    field_then specs forwarders site k
      (if same_site spec.site site then field_now forwarder.local_port k v else v)
field_then _ _ site k v = v

module _ (listen : ℕ → Fallible ℕ) (site : PluginSite) (k : Text)
    (other : equal (codes "servers") k ≡ false) where
  -- What a run over some specs gives.
  abbrev Applied : ℕ → List Forwarder → Value → List PluginSpec → Value × List Forwarder → Type 0
  Applied n started json specs r =
      (more : List Forwarder) × (r.1 ≡ started ++ more)
      × Forwards listen n specs more
      × (value_at site k r.0 ≡ field_then specs more site k (value_at site k json))

  pub apply_plugin_forwarders-Applied :
      (started : List Forwarder) (json : Value) (specs : List PluginSpec) (g : Globals)
      {r : Value × List Forwarder} {g' : Globals} (n : ℕ)
      → n ≡ length started
      → AllSites (IsSite json) specs
      → apply_plugin_forwarders listen started json specs g ≡ (ok r, g')
      → Applied n started json specs r
  unfolding apply_plugin_forwarders
  apply_plugin_forwarders-Applied started json [] g n size all e =
      subst (Applied n started json []) (pure-ok (json, started) g e).0
        ([], sym (append-nil started), none_left, refl)
  apply_plugin_forwarders-Applied started json (spec ∷ specs) g n size all e =
      let (p, g1, listens, e1) = bind-ok (attempt _ _ (listen (length started))) _ g e in
      let (json1, g2, rewrites, e2) =
        bind-ok (or_panic (at_site spec.site (rewritten p) json)) _ g1 e1 in
      let at : at_site spec.site (rewritten p) json ≡ some json1 = or_panic-ok _ g1 rewrites in
      let keeps : KeepsSites json (some json1) =
        subst (KeepsSites json) at (at_site-KeepsSites p json spec.site all.0) in
      let forwarder : Forwarder = record {
        local_port = p;
        kind = spec.kind;
        host = spec.host;
        port = spec.port;
      } in
      let (more, whole, forwards, moved) =
        apply_plugin_forwarders-Applied (started ++ forwarder ∷ []) json1 specs g2 (suc n)
          (omega (arith, size, length-append started (forwarder ∷ [])))
          (All-sites specs keeps all.1) e2 in
      (
        forwarder ∷ more,
        whole ∙ append_assoc started (forwarder ∷ []) more,
        one_more (ap listen size ∙ attempt-ok _ _ _ g listens) forwards,
        moved
            ∙ ap (field_then specs more site k)
                (at_site-Moved p json spec.site site k other all.0 at),
      )

-- Behind all the rewriting no entry that was named has a plugin, and none that was not has got one.
pub field_then-none :
    (specs : List PluginSpec) (forwarders : List Forwarder) (site : PluginSite)
    → field_then specs forwarders site (codes "plugin") none ≡ none
unfolding equal
field_then-none [] forwarders site = refl
field_then-none (spec ∷ specs) [] site = refl
field_then-none (spec ∷ specs) (forwarder ∷ forwarders) site =
    elim (Bool-cases (same_site spec.site site)) [
      | inl same ↦ rw same (field_then-none specs forwarders site)
      | inr apart ↦ rw apart (field_then-none specs forwarders site)
    ]

pub field_then-named :
    {listen : ℕ → Fallible ℕ} {n : ℕ} (specs : List PluginSpec) (forwarders : List Forwarder)
    (site : PluginSite) (v : Option Value)
    → Forwards listen n specs forwarders
    → named site specs ≡ true
    → field_then specs forwarders site (codes "plugin") v ≡ none
unfolding equal
field_then-named specs forwarders site v none_left e = cc
field_then-named (spec ∷ specs) _ site v (one_more {forwarders = forwarders} bound rest) e =
    elim (Bool-cases (same_site spec.site site)) [
      | inl same ↦ rw same (field_then-none specs forwarders site)
      | inr apart ↦ rw apart (field_then-named specs forwarders site v rest (rw apart at e))
    ]
