-- ===== src/Ffi/Threads/Keeps.antt =====
-- Each step of a thread of native/sslocal-ffi/src/lib.rs keeps what is common to the threads and to calls one
-- after the other.
use mathlib.Core.Path.{subst}
use shadowsocks_ohos.Prelude.{ℕ, ◌≡◌, sym, ◌∙◌, none, List, ◌∷◌, Text}
use shadowsocks_ohos.Json.{Value}
use shadowsocks_ohos.Ffi.State.{ℤ, Globals, ok, err, set_last_error, Config, Forwarder}
use shadowsocks_ohos.Ffi.Specs.{PluginSpec}
use shadowsocks_ohos.Ffi.Start.{not_running}
use shadowsocks_ohos.Ffi.Session.Starts.{already_running}
use shadowsocks_ohos.Ffi.Threads.{
  Start, code, call_of, before_lock, launch, Pc, outside, waits, locked, checked, loaded, leaving,
  Lock, held, System,
}
use shadowsocks_ohos.Ffi.Threads.Run.{update}
use shadowsocks_ohos.Ffi.Threads.Local.{before_lock-IsLocal, launch-IsLocal}
use shadowsocks_ohos.Ffi.Threads.Serial.{perform}
use shadowsocks_ohos.Ffi.Threads.Stages.{
  Goes-of_ok, Fails-of_err, not_running-ok, not_running-err, perform-unparsed, perform-busy,
  perform-unlaunched,
}
use shadowsocks_ohos.Ffi.Threads.Invariant.{
  debt, Within, Waits, Core, Inv, Waits-update, Core-refused,
}

module _ {s : System} (k : Inv s) where
  pub at_lock :
      {l : Lock} → s.lock ≡ l → Core (debt l) s.globals s.log × Within l s.globals.instance_slot
  at_lock e =
      subst (λ l. Core (debt l) s.globals s.log × Within l s.globals.instance_slot) e
        (k.core, k.within)

  pub at_pc : (i : ℕ) {p : Pc} → s.pc i ≡ p → Waits p
  at_pc i e = subst (Waits) e (k.waiting i)

  pub moved : (i : ℕ) (p : Pc) → Waits p → (j : ℕ) → Waits (update s.pc i p j)
  moved i p h = Waits-update s.pc i p k.waiting h

  pub keeps-reads_config :
      (i : ℕ) (st : Start) {x : Value × List PluginSpec} {g : Globals}
      → before_lock st.env st s.globals ≡ (ok x, g)
      → Inv (record s { globals = g; pc = update s.pc i (waits st x) })
  keeps-reads_config i st {x} e =
      let (same, f) = Goes-of_ok (before_lock-IsLocal st.env st) e in
      subst (λ g. Inv (record s { globals = g; pc = update s.pc i (waits st x) })) (sym same)
        (record { core = k.core; within = k.within; waiting = moved i (waits st x) f })

  pub keeps-rejects_config :
      (i : ℕ) (st : Start) {c : ℤ} {g : Globals}
      → before_lock st.env st s.globals ≡ (err c, g)
      → Inv (record s {
        globals = g;
        pc = update s.pc i outside;
        log = (call_of st, code (err c)) ∷ s.log;
      })
  unfolding set_last_error
  keeps-rejects_config i st {c} e =
      let (m, same, f) = Fails-of_err (before_lock-IsLocal st.env st) e in
      subst
        (λ g. Inv (record s {
          globals = g;
          pc = update s.pc i outside;
          log = (call_of st, code (err c)) ∷ s.log;
        }))
        (sym same)
        (record {
          core =
              Core-refused m st k.core (perform-unparsed st.env st k.core.serial (f k.core.serial));
          within = k.within;
          waiting = moved i outside tt;
        })

  -- A start that fails inside the lock.
  pub refused_inside :
      (i : ℕ) (st : Start) (m : Text) {c : ℤ} {g : Globals}
      → (core : Core none s.globals s.log) → g ≡ set_last_error m s.globals
      → perform st.env st core.serial ≡ (err c, set_last_error m core.serial)
      → Inv (record s {
        globals = g;
        lock = held i leaving;
        log = (call_of st, code (err c)) ∷ s.log;
      })
  refused_inside i st m {c} core same e =
      subst
        (λ g. Inv (record s {
          globals = g;
          lock = held i leaving;
          log = (call_of st, code (err c)) ∷ s.log;
        }))
        (sym same) (record { core = Core-refused m st core e; within = tt; waiting = k.waiting })

  pub keeps-finds_none :
      (i : ℕ) {st : Start} {x : Value × List PluginSpec} {g : Globals}
      → s.lock ≡ held i (locked st x)
      → not_running s.globals ≡ (ok tt, g)
      → Inv (record s { globals = g; lock = held i (checked st x) })
  keeps-finds_none i {st} {x} at e =
      let (same, idle) = not_running-ok e in
      subst (λ g. Inv (record s { globals = g; lock = held i (checked st x) })) (sym same)
        (record { core = (at_lock at).0; within = (idle, (at_lock at).1); waiting = k.waiting })

  pub keeps-finds_one :
      (i : ℕ) {st : Start} {x : Value × List PluginSpec} {c : ℤ} {g : Globals}
      → s.lock ≡ held i (locked st x)
      → not_running s.globals ≡ (err c, g)
      → Inv (record s {
        globals = g;
        lock = held i leaving;
        log = (call_of st, code (err c)) ∷ s.log;
      })
  keeps-finds_one i {st} at e =
      let (core, parsed) = at_lock at in
      let (same, f) = not_running-err s.globals e in
      refused_inside i st already_running core same
        (perform-busy st.env st core.serial parsed (f core.serial core.tied.0))

  pub keeps-launches :
      (i : ℕ) {st : Start} {x : Value × List PluginSpec} {y : Config × List Forwarder} {g : Globals}
      → s.lock ≡ held i (checked st x)
      → launch st.env x s.globals ≡ (ok y, g)
      → Inv (record s { globals = g; lock = held i (loaded st y) })
  keeps-launches i {st} {x} {y} at e =
      let (core, (idle, parsed)) = at_lock at in
      let (same, f) = Goes-of_ok (launch-IsLocal st.env x) e in
      subst (λ g. Inv (record s { globals = g; lock = held i (loaded st y) })) (sym same)
        (record { core = core; within = (idle, (x, parsed, f)); waiting = k.waiting })

  pub keeps-fails_to_launch :
      (i : ℕ) {st : Start} {x : Value × List PluginSpec} {c : ℤ} {g : Globals}
      → s.lock ≡ held i (checked st x)
      → launch st.env x s.globals ≡ (err c, g)
      → Inv (record s {
        globals = g;
        lock = held i leaving;
        log = (call_of st, code (err c)) ∷ s.log;
      })
  keeps-fails_to_launch i {st} {x} at e =
      let (core, (idle, parsed)) = at_lock at in
      let (m, same, f) = Fails-of_err (launch-IsLocal st.env x) e in
      refused_inside i st m core same
        (perform-unlaunched st.env st core.serial parsed (core.tied.0 ∙ idle) (f core.serial))
