-- ===== src/Ffi/Threads/Readable.antt =====
-- The messages of native/sslocal-ffi/src/lib.rs are C strings, whichever threads record and ask for them.
use mathlib.Core.Path.{subst}
use shadowsocks_ohos.Prelude.{ℕ, ◌≡◌, sym, ap, ◌∙◌, Bool-cases, ◌==◌, inl, inr}
use shadowsocks_ohos.Ffi.State.{ℤ, Globals, Outcome, ok, err, panic, Action, set_last_error}
use shadowsocks_ohos.Ffi.Start.{not_running, store}
use shadowsocks_ohos.Ffi.Control.{core_failed}
use shadowsocks_ohos.Ffi.Session.Steps.{
  IsReachable, IsCString, IsReachable-Readable, StopsAt, sslocal_stop-StopsAt, SetsAt,
  sslocal_set_stat_address-SetsAt,
}
use shadowsocks_ohos.Ffi.Session.Steps
use shadowsocks_ohos.Ffi.Threads.{
  Call, start, start_tun, stop, is_running, last_error, set_stat, call, Pc, outside, begun, waits,
  cloned, inside, Log, System,
}
use shadowsocks_ohos.Ffi.Threads.Run.{
  update, Step, begins, reads_config, rejects_config, locks, finds_none, finds_one, launches,
  fails_to_launch, attaches, prepares, fails_to_prepare, stores, locks_to_stop, stops, leaves,
  asks_running, sets_stat, clones_error, hands_out, core_fails, IsReached, at_first, then_step,
}
use shadowsocks_ohos.Ffi.Threads.Local.{
  IsLocal, before_lock-IsLocal, launch-IsLocal, prepare-IsLocal,
}
use shadowsocks_ohos.Ffi.Threads.Serial.{Serial, at_load, then_call}
use shadowsocks_ohos.Ffi.Threads.Stages.{Goes-of_ok, Fails-of_err, not_running-ok, not_running-err}
use shadowsocks_ohos.Ffi.Threads.Moves.{attach-with_stat}
use shadowsocks_ohos.Ffi.Threads.Running.{IsReached-Inv}

call-IsReachable : {g : Globals} (c : Call) → IsReachable g → IsReachable (call c g).1
unfolding call
call-IsReachable {g = g} (start env config_json) h =
    Steps.IsReachable.then_step h (Steps.start env config_json g)
call-IsReachable {g = g} (start_tun env config_json tun_fd) h =
    Steps.IsReachable.then_step h (Steps.start_tun env config_json tun_fd g)
call-IsReachable {g = g} stop h = Steps.IsReachable.then_step h (Steps.stop g)
call-IsReachable is_running h = h
call-IsReachable {g = g} last_error h = Steps.IsReachable.then_step h (Steps.ask_error g)
call-IsReachable {g = g} (set_stat env addr) h =
    Steps.IsReachable.then_step h (Steps.set_stat env addr g)

Serial-IsReachable : {l : Log} {g : Globals} → Serial l g → IsReachable g
Serial-IsReachable at_load = Steps.IsReachable.loaded
Serial-IsReachable (then_call c h) = call-IsReachable c (Serial-IsReachable h)
Serial-IsReachable (Serial.core_fails {g = g} e h) =
    Steps.IsReachable.then_step (Serial-IsReachable h) (Steps.core_fails e g)

-- The recorded message is that of calls one after the other.
recorded-IsCString : (s : System) → IsReached s → IsCString s.globals.last_error
recorded-IsCString s h =
    let core = (IsReached-Inv s h).core in
    subst IsCString core.same_error
      (IsReachable-Readable core.serial (Serial-IsReachable core.history)).0

-- A message that was handed out or cloned.
abbrev IsHeld : Pc → Type 0
IsHeld (cloned m) = IsCString m
IsHeld _ = Unit

abbrev AllHeld : System → Type 0
AllHeld s = IsCString s.globals.last_error_handed_out × ((i : ℕ) → IsHeld (s.pc i))

IsHeld-update :
    (pc : ℕ → Pc) (i : ℕ) (p : Pc)
    → ((j : ℕ) → IsHeld (pc j))
    → IsHeld p
    → (j : ℕ) → IsHeld (update pc i p j)
IsHeld-update pc i p h k j = elim (Bool-cases (i == j)) [
  | inl same ↦ rw same k
  | inr other ↦ rw other (h j)
]

-- The message that was handed out is the same.
abbrev Keeps : Globals → Globals → Type 0
Keeps g g' = g.last_error_handed_out ≡ g'.last_error_handed_out

module _ {A : Type 0} {m : Action A} (h : IsLocal m) {g g' : Globals} where
  ok-Keeps : {a : A} → m g ≡ (ok a, g') → Keeps g g'
  ok-Keeps e = ap (λ (x : Globals). x.last_error_handed_out) (sym (Goes-of_ok h e).0)

  err-Keeps : {c : ℤ} → m g ≡ (err c, g') → Keeps g g'
  unfolding set_last_error
  err-Keeps e = ap (λ (x : Globals). x.last_error_handed_out) (sym (Fails-of_err h e).1)

none-Keeps : (g : Globals) {g' : Globals} → not_running g ≡ (ok tt, g') → Keeps g g'
none-Keeps g e = ap (λ (x : Globals). x.last_error_handed_out) (sym (not_running-ok e).0)

one-Keeps : (g : Globals) {g' : Globals} {c : ℤ} → not_running g ≡ (err c, g') → Keeps g g'
unfolding set_last_error
one-Keeps g e = ap (λ (x : Globals). x.last_error_handed_out) (sym (not_running-err g e).0)

stop-Keeps : (g : Globals) (r : Outcome (Unit {0}) × Globals) → StopsAt g r → Keeps g r.1
stop-Keeps g (ok _, g') (_, _, e) = ap (λ (x : Globals). x.last_error_handed_out) (sym e)
stop-Keeps g (err c, g') (_, h) = sym h.same_handed_out
stop-Keeps g (panic, g') h = elim h [ ]

set-Keeps : (g : Globals) (r : Outcome (Unit {0}) × Globals) → SetsAt g r → Keeps g r.1
set-Keeps g (ok _, g') (_, e) = ap (λ (x : Globals). x.last_error_handed_out) (sym e)
set-Keeps g (err c, g') h = sym h.same_handed_out
set-Keeps g (panic, g') h = elim h [ ]

module _ {s : System} (h : AllHeld s) where
  Step-AllHeld : {t : System} → IsCString s.globals.last_error → Step s t → AllHeld t
  unfolding store core_failed set_last_error
  Step-AllHeld r (begins i st _) = (h.0, IsHeld-update s.pc i (begun st) h.1 tt)
  Step-AllHeld r (reads_config i {st} {x} _ e) = (
    subst IsCString (ok-Keeps (before_lock-IsLocal st.env st) e) h.0,
    IsHeld-update s.pc i (waits st x) h.1 tt,
  )
  Step-AllHeld r (rejects_config i {st} _ e) = (
    subst IsCString (err-Keeps (before_lock-IsLocal st.env st) e) h.0,
    IsHeld-update s.pc i outside h.1 tt,
  )
  Step-AllHeld r (locks i _ _) = (h.0, IsHeld-update s.pc i inside h.1 tt)
  Step-AllHeld r (finds_none i _ e) = (subst IsCString (none-Keeps s.globals e) h.0, h.1)
  Step-AllHeld r (finds_one i _ e) = (subst IsCString (one-Keeps s.globals e) h.0, h.1)
  Step-AllHeld r (launches i {st} {x} _ e) =
      (subst IsCString (ok-Keeps (launch-IsLocal st.env x) e) h.0, h.1)
  Step-AllHeld r (fails_to_launch i {st} {x} _ e) =
      (subst IsCString (err-Keeps (launch-IsLocal st.env x) e) h.0, h.1)
  Step-AllHeld r (attaches i {config = config} _ e) = (
    subst IsCString
        (ap (λ x. x.1.last_error_handed_out) (sym (attach-with_stat config s.globals) ∙ e)) h.0,
    h.1,
  )
  Step-AllHeld r (prepares i {st} {config} _ e) =
      (subst IsCString (ok-Keeps (prepare-IsLocal st.env st config) e) h.0, h.1)
  Step-AllHeld r (fails_to_prepare i {st} {config} _ e) =
      (subst IsCString (err-Keeps (prepare-IsLocal st.env st config) e) h.0, h.1)
  Step-AllHeld r (stores i _ e) = (subst IsCString (ap (λ x. x.1.last_error_handed_out) e) h.0, h.1)
  Step-AllHeld r (locks_to_stop i _ _) = (h.0, IsHeld-update s.pc i inside h.1 tt)
  Step-AllHeld r (stops i _ e) =
      (subst IsCString (stop-Keeps s.globals _ (rw e at (sslocal_stop-StopsAt s.globals))) h.0, h.1)
  Step-AllHeld r (leaves i _) = (h.0, IsHeld-update s.pc i outside h.1 tt)
  Step-AllHeld r (asks_running i _ _) = h
  Step-AllHeld r (sets_stat i {env} {addr} _ e) = (
    subst IsCString
        (set-Keeps s.globals _ (rw e at (sslocal_set_stat_address-SetsAt env addr s.globals))) h.0,
    h.1,
  )
  Step-AllHeld r (clones_error i _) =
      (h.0, IsHeld-update s.pc i (cloned s.globals.last_error) h.1 r)
  Step-AllHeld r (hands_out i {m} at) =
      (subst IsHeld at (h.1 i), IsHeld-update s.pc i outside h.1 tt)
  Step-AllHeld r (core_fails e) = h

IsReached-AllHeld : (s : System) → IsReached s → AllHeld s
IsReached-AllHeld s at_first = (tt, λ i. tt)
IsReached-AllHeld t (then_step {s} before step) =
    Step-AllHeld (IsReached-AllHeld s before) (recorded-IsCString s before) step

-- However threads call the entry points at the same time, and whatever the running core reports: the
-- recorded error and the one that was handed out last hold no NUL, if they are there.
pub IsReached-IsCString :
    (s : System)
    → IsReached s
    → IsCString s.globals.last_error × IsCString s.globals.last_error_handed_out
IsReached-IsCString s h = (recorded-IsCString s h, (IsReached-AllHeld s h).0)
