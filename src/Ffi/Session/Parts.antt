-- ===== src/Ffi/Session/Parts.antt =====
-- The parts of a start in native/sslocal-ffi/src/lib.rs, each of which only reads the state.
use mathlib.Core.Path.{subst}
use shadowsocks_ohos.Prelude.{
  ℕ, suc, ◌+◌, ◌≡◌, refl, sym, Option, none, some, List, [], ◌∷◌, ◌++◌, All, All-append, Text,
  codes, arith,
}
use shadowsocks_ohos.Json.{Value, null, bool, num, number, str, arr, obj, Items, nil, cons, get}
use shadowsocks_ohos.PluginError
use shadowsocks_ohos.Plugin.{PluginKind}
use shadowsocks_ohos.Ffi.State.{
  negsuc, Action, pure, ◌>>=◌, Fallible, done, failed, attempt, CStrArg, null, text, not_utf8,
  cstr_arg, Config, Forwarder,
}
use shadowsocks_ohos.Ffi.Specs.{
  PluginSite, top_level, server, PluginSpec, required, parsed, extract_one_spec, specs_of,
  server_specs, extract_plugin_specs, rewritten, at_site, or_panic, apply_plugin_forwarders,
}
use shadowsocks_ohos.Ffi.Start.{attach_stat_address}
use shadowsocks_ohos.Ffi.Session.Quiet.{IsQuiet, Any, pure-IsQuiet, raise-IsQuiet, bind-IsQuiet}
use shadowsocks_ohos.Ffi.Session.Sites.{
  IsObject, ObjectAt, servers_of, IsSite, KeepsSites, at_site-KeepsSites,
}

module _ {A : Type 0} where
  required-IsQuiet : (message : Text) (o : Option A) → IsQuiet Any (required message o)
  unfolding required
  required-IsQuiet message none = raise-IsQuiet {A = A} Any message 1
  required-IsQuiet message (some a) = pure-IsQuiet Any a tt

  pub attempt-IsQuiet :
      (message : Text → Text) (n : ℕ) (r : Fallible A) → IsQuiet Any (attempt message (negsuc n) r)
  unfolding attempt
  attempt-IsQuiet message n (done a) = pure-IsQuiet Any a tt
  attempt-IsQuiet message n (failed e) = raise-IsQuiet {A = A} Any (message e) n

parsed-IsQuiet : (r : PluginError.Result PluginKind) → IsQuiet Any (parsed r)
unfolding parsed
parsed-IsQuiet (PluginError.ok kind) = pure-IsQuiet Any kind tt
parsed-IsQuiet (PluginError.err e) = raise-IsQuiet {A = PluginKind} Any (PluginError.to_string e) 1

pub extract_one_spec-IsQuiet :
    (entry : Value) (site : PluginSite)
    → IsQuiet (λ (spec : PluginSpec). spec.site ≡ site) (extract_one_spec entry site)
unfolding extract_one_spec
extract_one_spec-IsQuiet entry site =
    let At : PluginSpec → Type 0 = λ spec. spec.site ≡ site in
    bind-IsQuiet Any At (required _ _) _ (required-IsQuiet _ _) (λ name _.
      bind-IsQuiet Any At (parsed _) _ (parsed-IsQuiet _) (λ kind _.
        bind-IsQuiet Any At (required _ _) _ (required-IsQuiet _ _) (λ host _.
          bind-IsQuiet Any At (required _ _) _ (required-IsQuiet _ _)
            (λ port _. pure-IsQuiet At _ refl))))

-- A value with a key is an object.
has_key : (k : Text) (v w : Value) → get k v ≡ some w → IsObject v
unfolding get
has_key k (obj fs) w e = tt
has_key k null w e = cc
has_key k (bool b) w e = cc
has_key k (num n) w e = cc
has_key k (number t) w e = cc
has_key k (str t) w e = cc
has_key k (arr t) w e = cc

module _ (P : PluginSite → Type 0) where
  -- The sites of all specs are of `P`.
  abbrev pub AllSites : List PluginSpec → Type 0
  AllSites specs = All (λ spec. P spec.site) specs

  specs_of-IsQuiet :
      (entry : Value) (site : PluginSite)
      → (IsObject entry → P site)
      → IsQuiet AllSites (specs_of entry site)
  unfolding specs_of
  specs_of-IsQuiet entry site h =
      in_cases (get (codes "plugin") entry) (λ w e. h (has_key (codes "plugin") entry w e))
    where
      in_cases :
          (o : Option Value)
          → ((w : Value) → o ≡ some w → P site)
          → IsQuiet AllSites (elim o [
            | none ↦ pure []
            | some _ ↦ extract_one_spec entry site >>= λ spec. pure (spec ∷ [])
          ])
      in_cases none k = pure-IsQuiet AllSites [] tt
      in_cases (some w) k =
          bind-IsQuiet (λ (spec : PluginSpec). spec.site ≡ site) AllSites
            (extract_one_spec entry site) _ (extract_one_spec-IsQuiet entry site)
            (λ spec e. pure-IsQuiet AllSites (spec ∷ []) (subst P (sym e) (k w refl), tt))

  specs_then :
      (m m' : Action (List PluginSpec))
      → IsQuiet AllSites m
      → IsQuiet AllSites m'
      → IsQuiet AllSites (m >>= λ specs. m' >>= λ more. pure (specs ++ more))
  specs_then m m' h h' = bind-IsQuiet AllSites AllSites m _ h (λ specs all.
      bind-IsQuiet AllSites AllSites m' _ h' (λ more all'.
        pure-IsQuiet AllSites (specs ++ more)
          (All-append (λ spec. P spec.site) specs more all all')))

  server_specs-IsQuiet :
      (i : ℕ) (entries : Items)
      → ((k j : ℕ) → j ≡ i + k → ObjectAt k entries → P (server j))
      → IsQuiet AllSites (server_specs i entries)
  unfolding server_specs
  server_specs-IsQuiet i nil h = pure-IsQuiet AllSites [] tt
  server_specs-IsQuiet i (cons entry entries) h =
      specs_then (specs_of entry (server i)) (server_specs (suc i) entries)
        (specs_of-IsQuiet entry (server i) (λ o. h 0 i (omega arith) o))
        (server_specs-IsQuiet (suc i) entries (λ k j e o. h (suc k) j (omega arith) o))

pub extract_plugin_specs-IsQuiet :
    (json : Value) → IsQuiet (AllSites (IsSite json)) (extract_plugin_specs json)
unfolding extract_plugin_specs servers_of
extract_plugin_specs-IsQuiet json =
    specs_then (IsSite json) (specs_of json top_level) (server_specs 0 (servers_of json))
      (specs_of-IsQuiet (IsSite json) json top_level (λ o. o))
      (server_specs-IsQuiet (IsSite json) 0 (servers_of json) (λ k j e o.
        let same : k ≡ j = omega arith in subst (λ x. ObjectAt x (servers_of json)) same o))

abbrev Rewrites : Value → Value → Type 0
Rewrites json json' = (site : PluginSite) → IsSite json site → IsSite json' site

or_panic-IsQuiet :
    (json : Value) (o : Option Value) → KeepsSites json o → IsQuiet (Rewrites json) (or_panic o)
unfolding or_panic
or_panic-IsQuiet json none k = elim k [ ]
or_panic-IsQuiet json (some v) k = record { quiet = λ g. (refl, k) }

pub All-sites :
    {P Q : PluginSite → Type 0} (specs : List PluginSpec)
    → ((site : PluginSite) → P site → Q site)
    → AllSites P specs
    → AllSites Q specs
All-sites [] h all = tt
All-sites (spec ∷ specs) h all = (h spec.site all.0, All-sites specs h all.1)

pub apply_plugin_forwarders-IsQuiet :
    (listen : ℕ → Fallible ℕ) (started : List Forwarder) (json : Value) (specs : List PluginSpec)
    → AllSites (IsSite json) specs
    → IsQuiet Any (apply_plugin_forwarders listen started json specs)
unfolding apply_plugin_forwarders
apply_plugin_forwarders-IsQuiet listen started json [] all = pure-IsQuiet Any (json, started) tt
apply_plugin_forwarders-IsQuiet listen started json (spec ∷ specs) all =
    bind-IsQuiet Any Any (attempt _ _ _) _ (attempt-IsQuiet _ 4 (listen _)) (λ local_port _.
      bind-IsQuiet (Rewrites json) Any (or_panic (at_site spec.site (rewritten local_port) json)) _
        (or_panic-IsQuiet json _ (at_site-KeepsSites local_port json spec.site all.0))
        (λ json' keeps.
          apply_plugin_forwarders-IsQuiet listen _ json' specs (All-sites specs keeps all.1)))

pub attach_stat_address-IsQuiet : (config : Config) → IsQuiet Any (attach_stat_address config)
unfolding attach_stat_address
attach_stat_address-IsQuiet config = record { quiet = λ g. (refl, tt) }

pub cstr_arg-IsQuiet : (arg : CStrArg) (what : Text) → IsQuiet Any (cstr_arg arg what)
unfolding cstr_arg
cstr_arg-IsQuiet null what = raise-IsQuiet {A = Text} Any (what ++ codes " is null") 0
cstr_arg-IsQuiet (text s) what = pure-IsQuiet Any s tt
cstr_arg-IsQuiet (not_utf8 e) what =
    raise-IsQuiet {A = Text} Any (what ++ (codes " is not valid UTF-8: " ++ e)) 0
