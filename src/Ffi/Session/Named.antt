-- ===== src/Ffi/Session/Named.antt =====
-- The plugin entries that `extract_plugin_specs` of native/sslocal-ffi/src/lib.rs names: all of them.
use mathlib.Core.Path.{subst}
use shadowsocks_ohos.Prelude.{
  ℕ, zero, suc, ◌+◌, Bool, true, false, ◌||◌, ◌≡◌, refl, ap, ◌∙◌, ◌⊎◌, inl, inr, Option, none, some,
  List, [], ◌∷◌, ◌++◌, codes, arith,
}
use shadowsocks_ohos.Json.{Value, Items, nil, cons, get}
use shadowsocks_ohos.Ffi.State.{Action, pure, ◌>>=◌}
use shadowsocks_ohos.Ffi.Specs.{
  PluginSite, top_level, server, PluginSpec, extract_one_spec, specs_of, server_specs,
  extract_plugin_specs, and_then,
}
use shadowsocks_ohos.Ffi.Session.Quiet.{IsQuiet, pure-IsQuiet, bind-IsQuiet}
use shadowsocks_ohos.Ffi.Session.Sites.{servers_of}
use shadowsocks_ohos.Ffi.Session.Parts.{extract_one_spec-IsQuiet}
use shadowsocks_ohos.Ffi.Session.Fields.{item_at, value_at, same_number, same_site}

-- One of the specs is of the site.
abbrev pub named : PluginSite → List PluginSpec → Bool
named site [] = false
named site (spec ∷ specs) = same_site spec.site site || named site specs

same_number_refl : (i : ℕ) → same_number i i ≡ true
same_number_refl zero = refl
same_number_refl (suc i) = same_number_refl i

same_site_refl : (site : PluginSite) → same_site site site ≡ true
same_site_refl top_level = refl
same_site_refl (server i) = same_number_refl i

either_true : (a b : Bool) → b ≡ true → (a || b) ≡ true
either_true true b e = refl
either_true false b e = e

named-append_left :
    (site : PluginSite) (xs ys : List PluginSpec)
    → named site xs ≡ true
    → named site (xs ++ ys) ≡ true
named-append_left site [] ys e = cc
named-append_left site (x ∷ xs) ys e =
    in_cases (same_site x.site site) e (named-append_left site xs ys)
  where
    in_cases :
        (b : Bool)
        → (b || named site xs) ≡ true
        → (named site xs ≡ true → named site (xs ++ ys) ≡ true)
        → (b || named site (xs ++ ys)) ≡ true
    in_cases true e next = refl
    in_cases false e next = next e

named-append_right :
    (site : PluginSite) (xs ys : List PluginSpec)
    → named site ys ≡ true
    → named site (xs ++ ys) ≡ true
named-append_right site [] ys e = e
named-append_right site (x ∷ xs) ys e =
    either_true (same_site x.site site) _ (named-append_right site xs ys e)

-- A value has no plugin, or its site is named.
abbrev pub Named : Option Value → PluginSite → List PluginSpec → Type 0
Named plugin site specs = (plugin ≡ none) ⊎ (named site specs ≡ true)

Named-left :
    {plugin : Option Value} (site : PluginSite) (xs ys : List PluginSpec)
    → Named plugin site xs
    → Named plugin site (xs ++ ys)
Named-left site xs ys (inl e) = inl e
Named-left site xs ys (inr e) = inr (named-append_left site xs ys e)

Named-right :
    {plugin : Option Value} (site : PluginSite) (xs ys : List PluginSpec)
    → Named plugin site ys
    → Named plugin site (xs ++ ys)
Named-right site xs ys (inl e) = inl e
Named-right site xs ys (inr e) = inr (named-append_right site xs ys e)

specs_of-Named :
    (entry : Value) (site : PluginSite)
    → IsQuiet (Named (get (codes "plugin") entry) site) (specs_of entry site)
unfolding specs_of
specs_of-Named entry site = in_cases (get (codes "plugin") entry)
  where
    in_cases :
        (o : Option Value)
        → IsQuiet (Named o site) (elim o [
          | none ↦ pure []
          | some _ ↦ extract_one_spec entry site >>= λ spec. pure (spec ∷ [])
        ])
    in_cases none = pure-IsQuiet (Named none site) [] (inl refl)
    in_cases (some w) =
        bind-IsQuiet (λ (spec : PluginSpec). spec.site ≡ site) (Named (some w) site)
          (extract_one_spec entry site) _ (extract_one_spec-IsQuiet entry site)
          (λ spec e. pure-IsQuiet (Named (some w) site) (spec ∷ []) (
            inr
              (ap (λ s. same_site s site || false) e ∙ ap (λ b. b || false) (same_site_refl site))))

-- Two lists of specs, one behind the other.
specs_then :
    (P Q R : List PluginSpec → Type 0) (m m' : Action (List PluginSpec))
    → IsQuiet P m
    → IsQuiet Q m'
    → ((xs ys : List PluginSpec) → P xs → Q ys → R (xs ++ ys))
    → IsQuiet R (m >>= λ specs. m' >>= λ more. pure (specs ++ more))
specs_then P Q R m m' h h' join =
    bind-IsQuiet P R m _ h
      (λ xs p. bind-IsQuiet Q R m' _ h' (λ ys q. pure-IsQuiet R (xs ++ ys) (join xs ys p q)))

abbrev plugin_of : ℕ → Items → Option Value
plugin_of k entries = and_then (get (codes "plugin")) (item_at k entries)

-- All plugins of the servers from number `i` on are named.
abbrev NamedFrom : ℕ → Items → List PluginSpec → Type 0
NamedFrom i entries specs = (k j : ℕ) → j ≡ i + k → Named (plugin_of k entries) (server j) specs

server_specs-NamedFrom :
    (i : ℕ) (entries : Items) → IsQuiet (NamedFrom i entries) (server_specs i entries)
unfolding server_specs
server_specs-NamedFrom i nil = pure-IsQuiet (NamedFrom i nil) [] (λ k j e. inl refl)
server_specs-NamedFrom i (cons entry entries) =
    specs_then (Named (get (codes "plugin") entry) (server i)) (NamedFrom (suc i) entries)
      (NamedFrom i (cons entry entries)) (specs_of entry (server i)) (server_specs (suc i) entries)
      (specs_of-Named entry (server i)) (server_specs-NamedFrom (suc i) entries)
      (λ xs ys p q. join xs ys p q)
  where
    join :
        (xs ys : List PluginSpec)
        → Named (get (codes "plugin") entry) (server i) xs
        → NamedFrom (suc i) entries ys
        → NamedFrom i (cons entry entries) (xs ++ ys)
    join xs ys p q zero j e =
        let same : i ≡ j = omega arith in
        Named-left (server j) xs ys
          (subst (λ x. Named (get (codes "plugin") entry) (server x) xs) same p)
    join xs ys p q (suc k) j e = Named-right (server j) xs ys (q k j (omega arith))

-- Every plugin of a config is named.
abbrev pub NamesAll : Value → List PluginSpec → Type 0
NamesAll json specs = (site : PluginSite) → Named (value_at site (codes "plugin") json) site specs

pub extract_plugin_specs-NamesAll :
    (json : Value) → IsQuiet (NamesAll json) (extract_plugin_specs json)
unfolding extract_plugin_specs servers_of
extract_plugin_specs-NamesAll json =
    specs_then (Named (get (codes "plugin") json) top_level) (NamedFrom 0 (servers_of json))
      (NamesAll json) (specs_of json top_level) (server_specs 0 (servers_of json))
      (specs_of-Named json top_level) (server_specs-NamedFrom 0 (servers_of json))
      (λ xs ys p q. join xs ys p q)
  where
    join :
        (xs ys : List PluginSpec)
        → Named (get (codes "plugin") json) top_level xs
        → NamedFrom 0 (servers_of json) ys
        → NamesAll json (xs ++ ys)
    join xs ys p q top_level = Named-left top_level xs ys p
    join xs ys p q (server j) = Named-right (server j) xs ys (q j j (omega arith))
