-- ===== src/Ffi/Threads/Local.antt =====
-- What a start of native/sslocal-ffi/src/lib.rs does between its accesses to the statics: its outcome is
-- the same whatever they hold, and it changes none of them but for the error that it ends with.
use shadowsocks_ohos.Prelude.{
  ℕ, suc, ◌≡◌, refl, ap, ◌∙◌, Option, none, some, List, [], ◌∷◌, ◌++◌, Text, codes, Bool-cases,
  Option-cases, inl, inr,
}
use shadowsocks_ohos.Json.{Value, Items, nil, cons, get}
use shadowsocks_ohos.PluginError
use shadowsocks_ohos.Plugin.{PluginKind}
use shadowsocks_ohos.Ffi.State.{
  ℤ, sslocal_err_bad_config, Globals, ok, err, panic, Action, pure, bound, ◌>>=◌, raise,
  set_last_error, Fallible, done, failed, attempt, CStrArg, null, text, not_utf8, cstr_arg, Config,
  Forwarder,
}
use shadowsocks_ohos.Ffi.Specs.{
  PluginSite, top_level, server, PluginSpec, required, parsed, extract_one_spec, specs_of,
  server_specs, extract_plugin_specs, or_panic, apply_plugin_forwarders,
}
use shadowsocks_ohos.Ffi.Start.{Env, is_negative, parse_config_json, tun_index, attach_tun}
use shadowsocks_ohos.Ffi.Threads.{Start, parse_specs, before_lock, launch, prepare}

pub data Fate (A : Type 0) : Type 0 where
  goes : A → Fate A
  fails : Text → ℤ → Fate A
  panics : Fate A

unfoldable pub enact : {A : Type 0} → Fate A → Action A
unfolding set_last_error
enact (goes a) g = (ok a, g)
enact (fails message code) g = (err code, set_last_error message g)
enact panics g = (panic, g)

pub record IsLocal {A : Type 0} (m : Action A) : Type 0 where
  pub fate : Fate A
  pub enacts : (g : Globals) → m g ≡ enact fate g

module _ {A : Type 0} where
  pure-IsLocal : (a : A) → IsLocal (pure a)
  unfolding pure enact
  pure-IsLocal a = record { fate = goes a; enacts = λ g. refl }

  raise-IsLocal : (message : Text) (code : ℤ) → IsLocal (raise {A = A} message code)
  unfolding raise enact
  raise-IsLocal message code = record { fate = fails message code; enacts = λ g. refl }

  required-IsLocal : (message : Text) (o : Option A) → IsLocal (required message o)
  unfolding required
  required-IsLocal message none = raise-IsLocal message sslocal_err_bad_config
  required-IsLocal message (some a) = pure-IsLocal a

  attempt-IsLocal :
      (message : Text → Text) (code : ℤ) (r : Fallible A) → IsLocal (attempt message code r)
  unfolding attempt
  attempt-IsLocal message code (done a) = pure-IsLocal a
  attempt-IsLocal message code (failed e) = raise-IsLocal (message e) code

  or_panic-IsLocal : (o : Option A) → IsLocal (or_panic o)
  unfolding or_panic enact
  or_panic-IsLocal none = record { fate = panics; enacts = λ g. refl }
  or_panic-IsLocal (some a) = record { fate = goes a; enacts = λ g. refl }

module _ {A B : Type 0} where
  bound-enact :
      (f : A → Action B) (r : Fate A)
      → ((a : A) → IsLocal (f a))
      → (r' : Fate B) × ((g : Globals) → bound f (enact r g) ≡ enact r' g)
  unfolding bound enact
  bound-enact f (goes a) k = ((k a).fate, (k a).enacts)
  bound-enact f (fails message code) k = (fails message code, λ g. refl)
  bound-enact f panics k = (panics, λ g. refl)

  bind-IsLocal :
      (m : Action A) (f : A → Action B) → IsLocal m → ((a : A) → IsLocal (f a)) → IsLocal (m >>= f)
  unfolding ◌>>=◌
  bind-IsLocal m f h k =
      let (r, e) = bound-enact f h.fate k in
      record { fate = r; enacts = λ g. ap (bound f) (h.enacts g) ∙ e g }

parsed-IsLocal : (r : PluginError.Result PluginKind) → IsLocal (parsed r)
unfolding parsed
parsed-IsLocal (PluginError.ok kind) = pure-IsLocal kind
parsed-IsLocal (PluginError.err e) = raise-IsLocal (PluginError.to_string e) sslocal_err_bad_config

extract_one_spec-IsLocal :
    (entry : Value) (site : PluginSite) → IsLocal (extract_one_spec entry site)
unfolding extract_one_spec
extract_one_spec-IsLocal entry site = bind-IsLocal (required _ _) _ (required-IsLocal _ _) (λ name.
    bind-IsLocal (parsed _) _ (parsed-IsLocal _) (λ kind.
      bind-IsLocal (required _ _) _ (required-IsLocal _ _)
        (λ host. bind-IsLocal (required _ _) _ (required-IsLocal _ _) (λ port. pure-IsLocal _))))

specs_of-IsLocal : (entry : Value) (site : PluginSite) → IsLocal (specs_of entry site)
unfolding specs_of
specs_of-IsLocal entry site = in_cases (get (codes "plugin") entry)
  where
    in_cases :
        (o : Option Value)
        → IsLocal {A = List PluginSpec} (elim o [
          | none ↦ pure []
          | some _ ↦ extract_one_spec entry site >>= λ spec. pure (spec ∷ [])
        ])
    in_cases none = pure-IsLocal []
    in_cases (some w) =
        bind-IsLocal (extract_one_spec entry site) _ (extract_one_spec-IsLocal entry site)
          (λ spec. pure-IsLocal (spec ∷ []))

specs_then :
    (m m' : Action (List PluginSpec))
    → IsLocal m
    → IsLocal m'
    → IsLocal (m >>= λ specs. m' >>= λ more. pure (specs ++ more))
specs_then m m' h h' =
    bind-IsLocal m _ h (λ specs. bind-IsLocal m' _ h' (λ more. pure-IsLocal (specs ++ more)))

server_specs-IsLocal : (i : ℕ) (entries : Items) → IsLocal (server_specs i entries)
unfolding server_specs
server_specs-IsLocal i nil = pure-IsLocal []
server_specs-IsLocal i (cons entry entries) =
    specs_then (specs_of entry (server i)) (server_specs (suc i) entries)
      (specs_of-IsLocal entry (server i)) (server_specs-IsLocal (suc i) entries)

extract_plugin_specs-IsLocal : (json : Value) → IsLocal (extract_plugin_specs json)
unfolding extract_plugin_specs
extract_plugin_specs-IsLocal json =
    specs_then (specs_of json top_level) (server_specs 0 _) (specs_of-IsLocal json top_level)
      (server_specs-IsLocal 0 _)

apply_plugin_forwarders-IsLocal :
    (listen : ℕ → Fallible ℕ) (started : List Forwarder) (json : Value) (specs : List PluginSpec)
    → IsLocal (apply_plugin_forwarders listen started json specs)
unfolding apply_plugin_forwarders
apply_plugin_forwarders-IsLocal listen started json [] = pure-IsLocal (json, started)
apply_plugin_forwarders-IsLocal listen started json (spec ∷ specs) =
    bind-IsLocal (attempt _ _ _) _ (attempt-IsLocal _ _ (listen _)) (λ local_port.
      bind-IsLocal (or_panic _) _ (or_panic-IsLocal _)
        (λ json'. apply_plugin_forwarders-IsLocal listen _ json' specs))

cstr_arg-IsLocal : (arg : CStrArg) (what : Text) → IsLocal (cstr_arg arg what)
unfolding cstr_arg
cstr_arg-IsLocal null what = raise-IsLocal (what ++ codes " is null") _
cstr_arg-IsLocal (text s) what = pure-IsLocal s
cstr_arg-IsLocal (not_utf8 e) what = raise-IsLocal (what ++ (codes " is not valid UTF-8: " ++ e)) _

module _ (env : Env) where
  attach_tun-IsLocal : (tun_fd : ℤ) (config : Config) → IsLocal (attach_tun env tun_fd config)
  unfolding attach_tun
  attach_tun-IsLocal tun_fd config = elim (Option-cases (tun_index config.locals)) [
    | inl nowhere ↦ rw (attach_tun, nowhere) (raise-IsLocal _ _)
    | inr (i, found) ↦ elim (Bool-cases (is_negative (env.dup tun_fd))) [
      | inl failure ↦ rw (attach_tun, found, failure) (raise-IsLocal _ _)
      | inr fine ↦ rw (attach_tun, found, fine) (pure-IsLocal _)
    ]
  ]

  parse_specs-IsLocal : (config_json : CStrArg) → IsLocal (parse_specs env config_json)
  unfolding parse_specs parse_config_json
  parse_specs-IsLocal config_json =
      bind-IsLocal (parse_config_json env config_json) _
        (bind-IsLocal (cstr_arg config_json _) _ (cstr_arg-IsLocal config_json _)
          (λ s. attempt-IsLocal _ _ (env.from_str s)))
        (λ json.
          bind-IsLocal (extract_plugin_specs json) _ (extract_plugin_specs-IsLocal json)
            (λ specs. pure-IsLocal (json, specs)))

  pub before_lock-IsLocal : (st : Start) → IsLocal (before_lock env st)
  unfolding before_lock
  before_lock-IsLocal st = in_cases st.tun_fd
    where
      in_cases : (o : Option ℤ) → IsLocal (before_lock env (record st { tun_fd = o }))
      in_cases none = parse_specs-IsLocal st.config_json
      in_cases (some fd) = elim (Bool-cases (is_negative fd)) [
        | inl failure ↦ rw (before_lock, failure) (raise-IsLocal _ _)
        | inr fine ↦ rw (before_lock, fine) (parse_specs-IsLocal st.config_json)
      ]

  pub launch-IsLocal : (x : Value × List PluginSpec) → IsLocal (launch env x)
  unfolding launch
  launch-IsLocal (json, specs) =
      bind-IsLocal (attempt _ _ _) _ (attempt-IsLocal _ _ env.build_runtime) (λ _.
        bind-IsLocal (apply_plugin_forwarders env.listen [] json specs) _
          (apply_plugin_forwarders-IsLocal env.listen [] json specs)
          (λ (json', forwarders).
            bind-IsLocal (attempt _ _ _) _ (attempt-IsLocal _ _ (env.load_config json'))
              (λ loaded. pure-IsLocal (loaded, forwarders))))

  pub prepare-IsLocal : (st : Start) (config : Config) → IsLocal (prepare env st config)
  unfolding prepare
  prepare-IsLocal st config = in_cases st.tun_fd
    where
      in_cases : (o : Option ℤ) → IsLocal (prepare env (record st { tun_fd = o }) config)
      in_cases none = pure-IsLocal config
      in_cases (some fd) = attach_tun-IsLocal fd config
