-- ===== src/Ffi/Session/Starts.antt =====
-- The start calls of native/sslocal-ffi/src/lib.rs: one either starts the only instance or changes
-- nothing but the recorded error, and it never panics.
use mathlib.Core.Path.{subst}
use shadowsocks_ohos.Prelude.{
  ℕ, ◌≡◌, refl, sym, ap, Option, none, some, [], ◌++◌, Text, codes, Bool-cases, Option-cases, inl,
  inr,
}
use shadowsocks_ohos.Json.{Value}
use shadowsocks_ohos.Ffi.State.{
  ℤ, negsuc, Globals, Outcome, ok, err, panic, Action, Instance, pure, bound, ◌>>=◌, raise, attempt,
  CStrArg, cstr_arg, Config,
}
use shadowsocks_ohos.Ffi.Specs.{extract_plugin_specs, apply_plugin_forwarders}
use shadowsocks_ohos.Ffi.Start.{
  Env, not_running, attach_stat_address, parse_config_json, attach_tun, tun_index, is_negative,
  int_text, start_with_json, sslocal_start, sslocal_start_tun_fd, store,
}
use shadowsocks_ohos.Ffi.Session.Quiet.{
  Refused, QuietAt, IsQuiet, Any, pure-IsQuiet, raise-IsQuiet, bind-IsQuiet,
}
use shadowsocks_ohos.Ffi.Session.Sites.{IsSite}
use shadowsocks_ohos.Ffi.Session.Parts.{
  AllSites, attempt-IsQuiet, cstr_arg-IsQuiet, extract_plugin_specs-IsQuiet,
  apply_plugin_forwarders-IsQuiet, attach_stat_address-IsQuiet,
}

-- An instance is there, where there was none, and nothing else has changed.
abbrev pub Started : Globals → Globals → Type 0
Started g g' =
    (g.instance_slot ≡ none)
    × ((instance : Instance) × (g' ≡ record g { instance_slot = some instance }))

-- What a start may do: the instance is there, or the call is refused. It never panics.
abbrev pub StartsAt : Globals → Outcome (Unit {0}) × Globals → Type 0
StartsAt g (ok _, g') = Started g g'
StartsAt g (err code, g') = Refused g code g'
StartsAt g (panic, g') = ⊥

bound-StartsAt :
    {A : Type 0} (P : A → Type 0) (f : A → Action (Unit {0})) (g : Globals)
    (r : Outcome A × Globals)
    → QuietAt P g r
    → ((a : A) → P a → StartsAt g (f a g))
    → StartsAt g (bound f r)
unfolding bound
bound-StartsAt P f g (ok a, g') (e, p) k = subst (λ x. StartsAt g (f a x)) (sym e) (k a p)
bound-StartsAt P f g (err code, g') r k = r
bound-StartsAt P f g (panic, g') r k = r

bind-StartsAt :
    {A : Type 0} (P : A → Type 0) (m : Action A) (f : A → Action (Unit {0})) (g : Globals)
    → IsQuiet P m
    → ((a : A) → P a → StartsAt g (f a g))
    → StartsAt g ((m >>= f) g)
unfolding ◌>>=◌
bind-StartsAt P m f g q k = bound-StartsAt P f g (m g) (q.quiet g) k

raise-StartsAt : (message : Text) (n : ℕ) (g : Globals) → StartsAt g (raise message (negsuc n) g)
unfolding raise
raise-StartsAt message n g = (raise-IsQuiet {A = Unit {0}} Any message n).quiet g

abbrev pub already_running : Text
already_running = codes "sslocal is already running"

pub not_running-elim :
    (g : Globals) {o : Option Instance}
    → g.instance_slot ≡ o
    → not_running g ≡ elim o [ some _ ↦ raise already_running (negsuc 2) g | none ↦ (ok tt, g) ]
unfolding not_running
not_running-elim g e =
    ap
      (λ (o : Option Instance). elim o as (λ _. Outcome (Unit {0}) × Globals) [
        | some _ ↦ raise already_running (negsuc 2) g
        | none ↦ (ok tt, g)
      ])
      e

bound-raise :
    {A B : Type 0} (f : A → Action B) (message : Text) (code : ℤ) (g : Globals)
    → bound f (raise message code g) ≡ raise message code g
unfolding bound raise
bound-raise f message code g = refl

not_running-StartsAt :
    (f : Unit {0} → Action (Unit {0})) (g : Globals)
    → (g.instance_slot ≡ none → StartsAt g (f tt g))
    → StartsAt g ((not_running >>= f) g)
unfolding ◌>>=◌ bound
not_running-StartsAt f g k = elim (Option-cases g.instance_slot) [
  | inl idle ↦ subst (λ r. StartsAt g (bound f r)) (sym (not_running-elim g idle)) (k idle)
  | inr (instance, busy) ↦
      subst (λ r. StartsAt g (bound f r)) (sym (not_running-elim g busy))
        (subst (StartsAt g) (sym (bound-raise f already_running (negsuc 2) g))
          (raise-StartsAt already_running 2 g))
]

pub attach_tun-IsQuiet :
    (env : Env) (tun_fd : ℤ) (config : Config) → IsQuiet Any (attach_tun env tun_fd config)
unfolding attach_tun
attach_tun-IsQuiet env tun_fd config = elim (Option-cases (tun_index config.locals)) [
  | inl nowhere ↦ rw (attach_tun, nowhere) (raise-IsQuiet {A = Config} Any _ 1)
  | inr (i, found) ↦ elim (Bool-cases (is_negative (env.dup tun_fd))) [
    | inl failure ↦ rw (attach_tun, found, failure) (raise-IsQuiet {A = Config} Any _ 0)
    | inr fine ↦ rw (attach_tun, found, fine) (pure-IsQuiet Any _ tt)
  ]
]

module _ (env : Env) where
  start_with_json-StartsAt :
      (json : Value) (prepare : Config → Action Config) (g : Globals)
      → ((config : Config) → IsQuiet Any (prepare config))
      → StartsAt g (start_with_json env json prepare g)
  unfolding start_with_json store
  start_with_json-StartsAt json prepare g quiet =
      bind-StartsAt (AllSites (IsSite json)) (extract_plugin_specs json) _ g
        (extract_plugin_specs-IsQuiet json)
        (λ specs all. not_running-StartsAt _ g (λ idle.
          bind-StartsAt Any (attempt _ _ _) _ g (attempt-IsQuiet _ 4 env.build_runtime) (λ _ _.
            bind-StartsAt Any (apply_plugin_forwarders env.listen [] json specs) _ g
              (apply_plugin_forwarders-IsQuiet env.listen [] json specs all)
              (λ (json', forwarders) _.
                bind-StartsAt Any (attempt _ _ _) _ g (attempt-IsQuiet _ 1 (env.load_config json'))
                  (λ loaded _.
                    bind-StartsAt Any (attach_stat_address loaded) _ g
                      (attach_stat_address-IsQuiet loaded)
                      (λ attached _.
                        bind-StartsAt Any (prepare attached) _ g (quiet attached)
                          (λ config _. (idle, (_, refl)))))))))

  parsed_then :
      (config_json : CStrArg) (f : Value → Action (Unit {0})) (g : Globals)
      → ((json : Value) → StartsAt g (f json g))
      → StartsAt g ((parse_config_json env config_json >>= f) g)
  unfolding parse_config_json
  parsed_then config_json f g k =
      bind-StartsAt Any (parse_config_json env config_json) f g
        (bind-IsQuiet Any Any (cstr_arg config_json _) _ (cstr_arg-IsQuiet config_json _)
          (λ s _. attempt-IsQuiet _ 1 (env.from_str s)))
        (λ json _. k json)

  -- Whatever the JSON holds and the system answers, `sslocal_start` and `sslocal_start_tun_fd` do not
  -- panic: either no instance was there and one is now, and nothing else has changed; or a code of
  -- failure is returned, an error is recorded, and nothing else has changed.
  pub sslocal_start-StartsAt :
      (config_json : CStrArg) (tun_fd : ℤ) (g : Globals)
      → StartsAt g (sslocal_start env config_json g)
        × StartsAt g (sslocal_start_tun_fd env config_json tun_fd g)
  unfolding sslocal_start sslocal_start_tun_fd
  sslocal_start-StartsAt config_json tun_fd g = (
    parsed_then config_json (λ json. start_with_json env json pure) g
        (λ json. start_with_json-StartsAt json pure g (λ config. pure-IsQuiet Any config tt)),
    elim (Bool-cases (is_negative tun_fd)) [
      | inl failure ↦
          rw failure (raise-StartsAt (codes "invalid tun file descriptor: " ++ int_text tun_fd) 0 g)
      | inr fine ↦ rw fine (
          parsed_then config_json (λ json. start_with_json env json (attach_tun env tun_fd)) g
            (λ json.
              start_with_json-StartsAt json (attach_tun env tun_fd) g
                (attach_tun-IsQuiet env tun_fd)))
    ],
  )
