-- ===== src/Ffi/Session/SetUp.antt =====
-- A start in native/sslocal-ffi/src/lib.rs that succeeds: what then listens, and what the service was given.
use mathlib.Core.Path.{subst}
use shadowsocks_ohos.Prelude.{
  ℕ, false, ◌≡◌, refl, sym, ap, ◌∙◌, inl, inr, Option, some, none, List, [], Text, codes, equal,
}
use shadowsocks_ohos.Json.{Value}
use shadowsocks_ohos.Ffi.State.{
  Globals, Outcome, ok, Action, raise, sslocal_err_already_running, Fallible, done, attempt, Config,
  Forwarder, Instance,
}
use shadowsocks_ohos.Ffi.Specs.{
  PluginSite, PluginSpec, extract_plugin_specs, apply_plugin_forwarders,
}
use shadowsocks_ohos.Ffi.Start.{Env, not_running, attach_stat_address, store, start_with_json}
use shadowsocks_ohos.Ffi.Session.Quiet.{QuietAt, IsQuiet}
use shadowsocks_ohos.Ffi.Session.Sites.{IsSite}
use shadowsocks_ohos.Ffi.Session.Parts.{AllSites, extract_plugin_specs-IsQuiet}
use shadowsocks_ohos.Ffi.Session.Fields.{value_at}
use shadowsocks_ohos.Ffi.Session.Named.{Named, named, extract_plugin_specs-NamesAll}
use shadowsocks_ohos.Ffi.Session.Forwards.{
  bind-ok, attempt-ok, Forwards, field_then, field_then-none, field_then-named,
  apply_plugin_forwarders-Applied,
}

quiet-ok :
    {A : Type 0} {P : A → Type 0} {m : Action A} (g : Globals) {a : A} {h : Globals}
    → IsQuiet P m
    → m g ≡ (ok a, h)
    → (h ≡ g) × P a
quiet-ok {P = P} g q e = subst (QuietAt P g) e (q.quiet g)

not_running-ok :
    (g : Globals) {u : Unit {0}} {h : Globals} → not_running g ≡ (ok u, h) → g.instance_slot ≡ none
unfolding not_running raise
not_running-ok g {u} {h} e = in_cases g.instance_slot e
  where
    in_cases :
        (slot : Option Instance)
        → ◌≡◌ {A = Outcome (Unit {0}) × Globals}
            (elim slot [
              | some _ ↦ raise (codes "sslocal is already running") sslocal_err_already_running g
              | none ↦ (ok tt, g)
            ])
            (ok u, h)
        → slot ≡ none
    in_cases none e = refl
    in_cases (some i) e = cc

store-ok :
    (i : Instance) (g : Globals) {u : Unit {0}} {g' : Globals}
    → store i g ≡ (ok u, g')
    → g'.instance_slot ≡ some i
unfolding store
store-ok i g e = ap (λ x. x.1.instance_slot) (sym e)

-- The forwarders of a run from the beginning, and a field of an entry behind it.
abbrev Rewritten :
    (ℕ → Fallible ℕ) → PluginSite → Text → Value → List PluginSpec → Value × List Forwarder → Type 0
Rewritten listen site k json specs r =
    Forwards listen 0 specs r.1
    × (value_at site k r.0 ≡ field_then specs r.1 site k (value_at site k json))

apply_plugin_forwarders-Rewritten :
    (listen : ℕ → Fallible ℕ) (site : PluginSite) (k : Text) (json : Value)
    (specs : List PluginSpec) (g : Globals) {r : Value × List Forwarder} {g' : Globals}
    → equal (codes "servers") k ≡ false
    → AllSites (IsSite json) specs
    → apply_plugin_forwarders listen [] json specs g ≡ (ok r, g')
    → Rewritten listen site k json specs r
apply_plugin_forwarders-Rewritten listen site k json specs g {r} other all e =
    let (more, whole, forwards, moved) =
      apply_plugin_forwarders-Applied listen site k other [] json specs g 0 refl all e in
    subst
      (λ fs.
        Forwards listen 0 specs fs
        × (value_at site k r.0 ≡ field_then specs fs site k (value_at site k json)))
      (sym whole) (forwards, moved)

no_plugin :
    (listen : ℕ → Fallible ℕ) (site : PluginSite) (json : Value) (specs : List PluginSpec)
    (r : Value × List Forwarder)
    → Named (value_at site (codes "plugin") json) site specs
    → Rewritten listen site (codes "plugin") json specs r
    → value_at site (codes "plugin") r.0 ≡ none
no_plugin listen site json specs r (inl absent) (forwards, moved) =
    moved ∙ ap (field_then specs r.1 site (codes "plugin")) absent ∙ field_then-none specs r.1 site
no_plugin listen site json specs r (inr named) (forwards, moved) =
    moved ∙ field_then-named specs r.1 site _ forwards named

-- What a start has set up.
pub record SetsUp (env : Env) (json : Value) (site : PluginSite) (k : Text) (g g' : Globals)
    : Type 0 where
  pub specs : List PluginSpec
  pub seen : Value
  pub loaded : Config
  pub instance_now : Instance
  pub was_idle : g.instance_slot ≡ none
  pub extracted : (extract_plugin_specs json g).0 ≡ ok specs
  pub is_stored : g'.instance_slot ≡ some instance_now
  pub forwarded : Forwards env.listen 0 specs instance_now.forwarders
  pub is_loaded : env.load_config seen ≡ done loaded
  pub field_seen :
      value_at site k seen ≡ field_then specs instance_now.forwarders site k (value_at site k json)
  pub plugin_free : value_at site (codes "plugin") seen ≡ none

-- A start that succeeds found no instance running and has stored one, which has a forwarder for each
-- plugin that the config names, with its plugin and server, on the port that its listener was bound to.
-- The config that the service loads has, at every entry and every key but `servers`, what the given
-- config has, pointed at the forwarders of that entry; and no entry of it has a plugin.
pub start_with_json-SetsUp :
    (env : Env) (json : Value) (prepare : Config → Action Config) (site : PluginSite) (k : Text)
    (g g' : Globals)
    → equal (codes "servers") k ≡ false
    → start_with_json env json prepare g ≡ (ok tt, g')
    → SetsUp env json site k g g'
unfolding start_with_json equal
start_with_json-SetsUp env json prepare site k g g' other e =
    let (specs, g1, extracts, e1) = bind-ok (extract_plugin_specs json) _ g e in
    let (_, g2, idle, e2) = bind-ok not_running _ g1 e1 in
    let (_, g3, _, e3) = bind-ok (attempt _ _ env.build_runtime) _ g2 e2 in
    let (r, g4, applies, e4) = bind-ok (apply_plugin_forwarders env.listen [] json specs) _ g3 e3 in
    let (loaded, g5, loads, e5) = bind-ok (attempt _ _ (env.load_config r.0)) _ g4 e4 in
    let (attached, g6, _, e6) = bind-ok (attach_stat_address loaded) _ g5 e5 in
    let (config, g7, _, e7) = bind-ok (prepare attached) _ g6 e6 in
    let (same, all) = quiet-ok g (extract_plugin_specs-IsQuiet json) extracts in
    let (_, names) = quiet-ok g (extract_plugin_specs-NamesAll json) extracts in
    let (forwards, moved) =
      apply_plugin_forwarders-Rewritten env.listen site k json specs g3 other all applies in
    record {
      specs = specs;
      seen = r.0;
      loaded = loaded;
      instance_now = record { config = config; forwarders = r.1 };
      was_idle = ap (λ x. x.instance_slot) (sym same) ∙ not_running-ok g1 idle;
      extracted = ap (λ x. x.0) extracts;
      is_stored = store-ok (record { config = config; forwarders = r.1 }) g7 e7;
      forwarded = forwards;
      is_loaded = attempt-ok _ _ _ g4 loads;
      field_seen = moved;
      plugin_free = no_plugin env.listen site json specs r (names site) (
          apply_plugin_forwarders-Rewritten env.listen site (codes "plugin") json specs g3 refl all
            applies);
    }
