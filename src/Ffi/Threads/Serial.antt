-- ===== src/Ffi/Threads/Serial.antt =====
-- The calls of native/sslocal-ffi/src/lib.rs one after the other, and a start on its own as the parts that
-- its thread goes through.
use mathlib.Core.Path.{fun_ext}
use shadowsocks_ohos.Prelude.{
  ◌≡◌, refl, sym, ap, ◌∙◌, Option, none, some, List, [], ◌∷◌, ◌++◌, Text, codes, Bool-cases, inl,
  inr,
}
use shadowsocks_ohos.Json.{Value}
use shadowsocks_ohos.Ffi.State.{
  ℤ, Globals, Outcome, ok, err, panic, Action, pure, bound, ◌>>=◌, raise, attempt,
  sslocal_err_bad_config, sslocal_err_runtime, CStrArg, Config, Forwarder,
}
use shadowsocks_ohos.Ffi.Specs.{PluginSpec, apply_plugin_forwarders}
use shadowsocks_ohos.Ffi.Start.{
  Env, is_negative, invalid_config, not_running, attach_stat_address, store, parse_config_json,
  start_with_json, sslocal_start, sslocal_start_tun_fd,
}
use shadowsocks_ohos.Ffi.Control.{core_failed}
use shadowsocks_ohos.Ffi.Session.Steps.{initial}
use shadowsocks_ohos.Ffi.Threads.{
  Start, Call, Returned, code, call, call_of, parse_specs, before_lock, launch, prepare, Log,
}

-- The calls that were made, with what they returned, the last one first; the core's errors are between.
pub data Serial : Log → Globals → Type 0 where
  at_load : Serial [] initial
  then_call :
      {l : Log} {g : Globals} (c : Call) → Serial l g → Serial ((c, (call c g).0) ∷ l) (call c g).1
  core_fails : {l : Log} {g : Globals} (e : Text) → Serial l g → Serial l (core_failed e g)

bound_assoc :
    {A B C : Type 0} (f : A → Action B) (k : B → Action C) (r : Outcome A × Globals)
    → bound k (bound f r) ≡ bound (λ a. f a >>= k) r
unfolding bound ◌>>=◌
bound_assoc f k (ok a, g) = refl
bound_assoc f k (err c, g) = refl
bound_assoc f k (panic, g) = refl

bind_assoc :
    {A B C : Type 0} (m : Action A) (f : A → Action B) (k : B → Action C)
    → (m >>= f) >>= k ≡ (m >>= λ a. f a >>= k)
unfolding ◌>>=◌
bind_assoc m f k = fun_ext (λ g. bound_assoc f k (m g))

pure-bind : {A B : Type 0} (a : A) (f : A → Action B) → pure a >>= f ≡ f a
unfolding pure ◌>>=◌ bound
pure-bind a f = refl

bind-same :
    {A B : Type 0} (m : Action A) {f f' : A → Action B}
    → ((a : A) → f a ≡ f' a)
    → (m >>= f) ≡ (m >>= f')
bind-same m h = ap (λ f. m >>= f) (fun_ext h)

-- From the loaded config on.
unfoldable pub finish : Env → Start → Config × List Forwarder → Action (Unit {0})
finish env st (config, forwarders) = attach_stat_address config >>= λ a.
    prepare env st a >>= λ c. store (record { config = c; forwarders = forwarders })

-- From the lock on.
unfoldable pub locked_part : Env → Start → Value × List PluginSpec → Action (Unit {0})
unfolding finish
locked_part env st x = not_running >>= λ _. launch env x >>= finish env st

unfoldable pub perform : Env → Start → Action (Unit {0})
unfolding locked_part
perform env st = before_lock env st >>= locked_part env st

launch-finish :
    (env : Env) (st : Start) (json : Value) (specs : List PluginSpec)
    → launch env (json, specs) >>= finish env st ≡ (
        attempt
          (λ e. codes "failed to create tokio runtime: " ++ e)
          sslocal_err_runtime
          env.build_runtime
        >>= λ _. apply_plugin_forwarders env.listen [] json specs >>= λ (json', forwarders).
            attempt invalid_config sslocal_err_bad_config (env.load_config json') >>= λ loaded.
            finish env st (loaded, forwarders))
unfolding launch
launch-finish env st json specs =
    bind_assoc _ _ _
    ∙ bind-same _ (λ _.
      bind_assoc _ _ _
      ∙ bind-same _
          (λ y. bind_assoc _ _ _ ∙ bind-same _ (λ loaded. pure-bind (loaded, y.1) (finish env st))))

parse_specs-locked_part :
    (env : Env) (st : Start) (config_json : CStrArg)
    → parse_specs env config_json >>= locked_part env st
      ≡ (parse_config_json env config_json >>= λ json. start_with_json env json (prepare env st))
unfolding parse_specs locked_part finish start_with_json
parse_specs-locked_part env st config_json =
    bind_assoc _ _ _
    ∙ bind-same _ (λ json.
      bind_assoc _ _ _
      ∙ bind-same _ (λ specs.
        pure-bind (json, specs) (locked_part env st)
        ∙ bind-same not_running (λ _. launch-finish env st json specs)))

raise-bind :
    {A B : Type 0} (message : Text) (c : ℤ) (f : A → Action B)
    → raise message c >>= f ≡ raise message c
unfolding raise ◌>>=◌ bound
raise-bind message c f = refl

perform-sslocal_start_tun_fd :
    (env : Env) (config_json : CStrArg) (fd : ℤ)
    → perform env (record { env = env; config_json = config_json; tun_fd = some fd })
      ≡ sslocal_start_tun_fd env config_json fd
unfolding perform before_lock sslocal_start_tun_fd prepare
perform-sslocal_start_tun_fd env config_json fd = elim (Bool-cases (is_negative fd)) [
  | inl failure ↦ rw failure (raise-bind _ _ _)
  | inr fine ↦ rw fine (
      parse_specs-locked_part env
        (record { env = env; config_json = config_json; tun_fd = some fd }) config_json)
]

perform-sslocal_start :
    (env : Env) (config_json : CStrArg)
    → perform env (record { env = env; config_json = config_json; tun_fd = none })
      ≡ sslocal_start env config_json
unfolding perform before_lock sslocal_start prepare
perform-sslocal_start env config_json =
    parse_specs-locked_part env (record { env = env; config_json = config_json; tun_fd = none })
      config_json

abbrev pub coded : Outcome (Unit {0}) × Globals → Returned × Globals
coded (r, g) = (code r, g)

-- A start on its own is what its thread does if no other is there.
pub call-perform : (st : Start) (g : Globals) → call (call_of st) g ≡ coded (perform st.env st g)
unfolding call
call-perform st g = in_cases st.tun_fd
  where
    in_cases :
        (o : Option ℤ)
        → let st' : Start = record st { tun_fd = o } in
          call (call_of st') g ≡ coded (perform st.env st' g)
    in_cases none = ap (λ m. coded (m g)) (sym (perform-sslocal_start st.env st.config_json))
    in_cases (some fd) =
        ap (λ m. coded (m g)) (sym (perform-sslocal_start_tun_fd st.env st.config_json fd))
