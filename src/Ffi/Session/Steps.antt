-- ===== src/Ffi/Session/Steps.antt =====
-- Calls of native/sslocal-ffi/src/lib.rs in any order, and the errors of a running instance between.
use mathlib.Core.Path.{subst}
use shadowsocks_ohos.Prelude.{
  ◌≡◌, refl, sym, false, Option, none, some, ◌++◌, Text, codes, is_empty, Bool-cases, inl, inr,
}
use shadowsocks_ohos.Ffi.State.{
  ℤ, pos, Globals, Outcome, ok, err, panic, Action, Instance, bound, ◌>>=◌, raise, set_last_error,
  to_c_string, has_nul, CStrArg, null, text, not_utf8, cstr_arg, attempt,
}
use shadowsocks_ohos.Ffi.Start.{Env, sslocal_start, sslocal_start_tun_fd}
use shadowsocks_ohos.Ffi.Control.{
  sslocal_set_stat_address, put_stat_addr, parse_stat_addr, sslocal_stop, sslocal_is_running,
  sslocal_last_error, core_failed,
}
use shadowsocks_ohos.Ffi.Session.Quiet.{Refused, QuietAt, IsQuiet, Any, raise-IsQuiet}
use shadowsocks_ohos.Ffi.Session.Starts.{StartsAt, sslocal_start-StartsAt}
use shadowsocks_ohos.Ffi.Session.Parts.{attempt-IsQuiet, cstr_arg-IsQuiet}

-- The instance is taken out where there was one, and nothing else has changed; or the call is refused
-- where there was none.
abbrev pub StopsAt : Globals → Outcome (Unit {0}) × Globals → Type 0
StopsAt g (ok _, g') =
    (sslocal_is_running g ≡ pos 1)
    × (sslocal_is_running g' ≡ pos 0)
    × (g' ≡ record g { instance_slot = none })
StopsAt g (err code, g') = (sslocal_is_running g ≡ pos 0) × Refused g code g'
StopsAt g (panic, g') = ⊥

stop_slot :
    (slot : Option Instance) (m h a : Option Text)
    → let g : Globals = record {
      instance_slot = slot;
      last_error = m;
      last_error_handed_out = h;
      stat_addr = a;
    } in
      StopsAt g (sslocal_stop g)
unfolding sslocal_stop sslocal_is_running raise
stop_slot none m h a =
    (refl, (raise-IsQuiet {A = Unit {0}} Any (codes "sslocal is not running") 3).quiet _)
stop_slot (some instance) m h a = (refl, refl, refl)

-- `sslocal_stop` succeeds exactly while `sslocal_is_running` says 1, which then says 0, and changes
-- nothing else; otherwise it returns a code of failure, records why and changes nothing else.
pub sslocal_stop-StopsAt : (g : Globals) → StopsAt g (sslocal_stop g)
sslocal_stop-StopsAt g = stop_slot g.instance_slot g.last_error g.last_error_handed_out g.stat_addr

-- The address is set or cleared and nothing else has changed, or the call is refused.
abbrev pub SetsAt : Globals → Outcome (Unit {0}) × Globals → Type 0
SetsAt g (ok _, g') = (addr : Option Text) × (g' ≡ record g { stat_addr = addr })
SetsAt g (err code, g') = Refused g code g'
SetsAt g (panic, g') = ⊥

bind-SetsAt :
    {A : Type 0} (m : Action A) (f : A → Action (Unit {0})) (g : Globals)
    → IsQuiet Any m
    → ((a : A) → SetsAt g (f a g))
    → SetsAt g ((m >>= f) g)
unfolding ◌>>=◌ bound
bind-SetsAt m f g q k = in_cases (m g) (q.quiet g)
  where
    in_cases : (r : Outcome _ × Globals) → QuietAt Any g r → SetsAt g (bound f r)
    in_cases (ok a, g') (e, _) = subst (λ x. SetsAt g (f a x)) (sym e) (k a)
    in_cases (err code, g') h = h
    in_cases (panic, g') h = h

parse_stat_addr-SetsAt : (env : Env) (s : Text) (g : Globals) → SetsAt g (parse_stat_addr env s g)
unfolding parse_stat_addr put_stat_addr
parse_stat_addr-SetsAt env s g = elim (Bool-cases (is_empty s)) [
  | inl empty ↦ rw empty (none, refl)
  | inr given ↦ rw given (
      bind-SetsAt (attempt _ _ _) (λ a. put_stat_addr (some a)) g
        (attempt-IsQuiet _ 0 (env.parse_addr s)) (λ a. (some a, refl)))
]

pub sslocal_set_stat_address-SetsAt :
    (env : Env) (addr : CStrArg) (g : Globals) → SetsAt g (sslocal_set_stat_address env addr g)
unfolding sslocal_set_stat_address put_stat_addr
sslocal_set_stat_address-SetsAt env null g = (none, refl)
sslocal_set_stat_address-SetsAt env (text s) g =
    bind-SetsAt (cstr_arg (text s) _) (parse_stat_addr env) g (cstr_arg-IsQuiet (text s) _)
      (λ t. parse_stat_addr-SetsAt env t g)
sslocal_set_stat_address-SetsAt env (not_utf8 e) g =
    bind-SetsAt (cstr_arg (not_utf8 e) _) (parse_stat_addr env) g (cstr_arg-IsQuiet (not_utf8 e) _)
      (λ t. parse_stat_addr-SetsAt env t g)

-- What happens to the state: a call of an entry point, or an error of the running core.
pub data Step : Globals → Globals → Type 0 where
  start :
      (env : Env) (config_json : CStrArg) (g : Globals) → Step g (sslocal_start env config_json g).1
  start_tun :
      (env : Env) (config_json : CStrArg) (tun_fd : ℤ) (g : Globals)
      → Step g (sslocal_start_tun_fd env config_json tun_fd g).1
  set_stat :
      (env : Env) (addr : CStrArg) (g : Globals) → Step g (sslocal_set_stat_address env addr g).1
  stop : (g : Globals) → Step g (sslocal_stop g).1
  ask_error : (g : Globals) → Step g (sslocal_last_error g).1
  core_fails : (e : Text) (g : Globals) → Step g (core_failed e g)

-- The statics as the library is loaded, and what the steps make of them.
abbrev pub initial : Globals
initial = record {
  instance_slot = none;
  last_error = none;
  last_error_handed_out = none;
  stat_addr = none;
}

pub data IsReachable : Globals → Type 0 where
  loaded : IsReachable initial
  then_step : {g g' : Globals} → IsReachable g → Step g g' → IsReachable g'

-- A C string: it holds no NUL, so its pointer reaches its end.
abbrev pub IsCString : Option Text → Type 0
IsCString none = Unit {0}
IsCString (some s) = has_nul s ≡ false

to_c_string-IsCString : (s : Text) → IsCString (some (to_c_string s))
unfolding to_c_string has_nul
to_c_string-IsCString s = elim (Bool-cases (has_nul s)) [
  | inl bad ↦ rw (to_c_string, bad) refl
  | inr fine ↦ rw (to_c_string, fine) fine
]

abbrev pub Readable : Globals → Type 0
Readable g = IsCString g.last_error × IsCString g.last_error_handed_out

Refused-Readable : {g g' : Globals} {code : ℤ} → Refused g code g' → Readable g → Readable g'
Refused-Readable r (e, h) = (
  subst IsCString (sym r.recorded.1) (to_c_string-IsCString r.recorded.0),
  subst IsCString (sym r.same_handed_out) h,
)

StartsAt-Readable :
    (g : Globals) (r : Outcome (Unit {0}) × Globals) → StartsAt g r → Readable g → Readable r.1
StartsAt-Readable g (ok _, g') (_, (_, e)) k = subst Readable (sym e) k
StartsAt-Readable g (err code, g') h k = Refused-Readable h k
StartsAt-Readable g (panic, g') h k = elim h [ ]

SetsAt-Readable :
    (g : Globals) (r : Outcome (Unit {0}) × Globals) → SetsAt g r → Readable g → Readable r.1
SetsAt-Readable g (ok _, g') (_, e) k = subst Readable (sym e) k
SetsAt-Readable g (err code, g') h k = Refused-Readable h k
SetsAt-Readable g (panic, g') h k = elim h [ ]

StopsAt-Readable :
    (g : Globals) (r : Outcome (Unit {0}) × Globals) → StopsAt g r → Readable g → Readable r.1
StopsAt-Readable g (ok _, g') (_, _, e) k = subst Readable (sym e) k
StopsAt-Readable g (err code, g') (_, h) k = Refused-Readable h k
StopsAt-Readable g (panic, g') h k = elim h [ ]

Step-Readable : {g g' : Globals} → Step g g' → Readable g → Readable g'
unfolding sslocal_last_error core_failed set_last_error
Step-Readable (start env config_json g) k =
    StartsAt-Readable g (sslocal_start env config_json g)
      (sslocal_start-StartsAt env config_json (pos 0) g).0 k
Step-Readable (start_tun env config_json tun_fd g) k =
    StartsAt-Readable g (sslocal_start_tun_fd env config_json tun_fd g)
      (sslocal_start-StartsAt env config_json tun_fd g).1 k
Step-Readable (set_stat env addr g) k =
    SetsAt-Readable g (sslocal_set_stat_address env addr g)
      (sslocal_set_stat_address-SetsAt env addr g) k
Step-Readable (stop g) k = StopsAt-Readable g (sslocal_stop g) (sslocal_stop-StopsAt g) k
Step-Readable (ask_error g) k = (k.0, k.0)
Step-Readable (core_fails e g) k =
    (to_c_string-IsCString (codes "sslocal exited with error: " ++ e), k.1)

-- However the entry points are called, and whatever the running core reports between the calls, the
-- recorded error and the one that was handed out hold no NUL, if they are there.
pub IsReachable-Readable : (g : Globals) → IsReachable g → Readable g
IsReachable-Readable g loaded = (tt, tt)
IsReachable-Readable g' (then_step {g} before step) =
    Step-Readable step (IsReachable-Readable g before)
