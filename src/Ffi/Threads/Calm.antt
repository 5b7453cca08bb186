-- ===== src/Ffi/Threads/Calm.antt =====
-- No part of a start of native/sslocal-ffi/src/lib.rs panics.

use shadowsocks_ohos.Prelude.{◌≡◌, ◌⊎◌, refl, Option, none, some, List, [], Bool-cases, inl, inr}
use shadowsocks_ohos.Json.{Value}
use shadowsocks_ohos.Ffi.State.{
  ℤ, Globals, Outcome, ok, err, panic, Action, attempt, CStrArg, cstr_arg, Config,
}
use shadowsocks_ohos.Ffi.Specs.{PluginSpec, extract_plugin_specs, apply_plugin_forwarders}
use shadowsocks_ohos.Ffi.Start.{Env, is_negative, parse_config_json}
use shadowsocks_ohos.Ffi.Session.Quiet.{
  QuietAt, IsQuiet, Any, pure-IsQuiet, raise-IsQuiet, bind-IsQuiet,
}
use shadowsocks_ohos.Ffi.Session.Sites.{IsSite}
use shadowsocks_ohos.Ffi.Session.Parts.{
  AllSites, attempt-IsQuiet, cstr_arg-IsQuiet, extract_plugin_specs-IsQuiet,
  apply_plugin_forwarders-IsQuiet,
}
use shadowsocks_ohos.Ffi.Session.Starts.{attach_tun-IsQuiet}
use shadowsocks_ohos.Ffi.Threads.{Start, parse_specs, before_lock, launch, prepare}

-- The sites of the specs are in the JSON.
abbrev pub HaveSites : Value × List PluginSpec → Type 0
HaveSites (json, specs) = AllSites (IsSite json) specs

module _ (env : Env) where
  parse_specs-IsQuiet : (config_json : CStrArg) → IsQuiet HaveSites (parse_specs env config_json)
  unfolding parse_specs parse_config_json
  parse_specs-IsQuiet config_json =
      bind-IsQuiet Any HaveSites (parse_config_json env config_json) _
        (bind-IsQuiet Any Any (cstr_arg config_json _) _ (cstr_arg-IsQuiet config_json _)
          (λ s _. attempt-IsQuiet _ 1 (env.from_str s)))
        (λ json _.
          bind-IsQuiet (AllSites (IsSite json)) HaveSites (extract_plugin_specs json) _
            (extract_plugin_specs-IsQuiet json)
            (λ specs all. pure-IsQuiet HaveSites (json, specs) all))

  pub before_lock-IsQuiet : (st : Start) → IsQuiet HaveSites (before_lock env st)
  unfolding before_lock
  before_lock-IsQuiet st = in_cases st.tun_fd
    where
      in_cases : (o : Option ℤ) → IsQuiet HaveSites (before_lock env (record st { tun_fd = o }))
      in_cases none = parse_specs-IsQuiet st.config_json
      in_cases (some fd) = elim (Bool-cases (is_negative fd)) [
        | inl failure ↦ rw (before_lock, failure) (raise-IsQuiet HaveSites _ 0)
        | inr fine ↦ rw (before_lock, fine) (parse_specs-IsQuiet st.config_json)
      ]

  pub launch-IsQuiet : (x : Value × List PluginSpec) → HaveSites x → IsQuiet Any (launch env x)
  unfolding launch
  launch-IsQuiet (json, specs) all =
      bind-IsQuiet Any Any (attempt _ _ _) _ (attempt-IsQuiet _ 4 env.build_runtime) (λ _ _.
        bind-IsQuiet Any Any (apply_plugin_forwarders env.listen [] json specs) _
          (apply_plugin_forwarders-IsQuiet env.listen [] json specs all)
          (λ (json', forwarders) _.
            bind-IsQuiet Any Any (attempt _ _ _) _ (attempt-IsQuiet _ 1 (env.load_config json'))
              (λ loaded _. pure-IsQuiet Any (loaded, forwarders) tt)))

  pub prepare-IsQuiet : (st : Start) (config : Config) → IsQuiet Any (prepare env st config)
  unfolding prepare
  prepare-IsQuiet st config = in_cases st.tun_fd
    where
      in_cases : (o : Option ℤ) → IsQuiet Any (prepare env (record st { tun_fd = o }) config)
      in_cases none = pure-IsQuiet Any config tt
      in_cases (some fd) = attach_tun-IsQuiet env fd config

-- A part that does not panic returns a value or a code.
abbrev pub Returns : {A : Type 0} → Outcome A × Globals → Type 0
Returns {A} r =
    ((a : A) × (g : Globals) × (r ≡ (ok a, g))) ⊎ ((c : ℤ) × (g : Globals) × (r ≡ (err c, g)))

pub IsQuiet-Returns :
    {A : Type 0} {P : A → Type 0} {m : Action A} → IsQuiet P m → (g : Globals) → Returns (m g)
IsQuiet-Returns {A} {P} {m} q g = in_cases (m g) (q.quiet g)
  where
    in_cases : (r : Outcome A × Globals) → QuietAt P g r → Returns r
    in_cases (ok a, g') h = inl (a, g', refl)
    in_cases (err c, g') h = inr (c, g', refl)
    in_cases (panic, g') h = elim h [ ]
