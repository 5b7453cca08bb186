-- ===== src/Ffi/Threads/Run.antt =====
-- The steps of the threads that call native/sslocal-ffi/src/lib.rs, and what they lead to.
use shadowsocks_ohos.Prelude.{ℕ, ◌≡◌, ◌==◌, Option, List, [], ◌∷◌, Text, if◌then◌else◌}
use shadowsocks_ohos.Json.{Value}
use shadowsocks_ohos.Ffi.State.{ℤ, Config, Forwarder, Globals, Outcome, ok, err, CStrArg}
use shadowsocks_ohos.Ffi.Specs.{PluginSpec}
use shadowsocks_ohos.Ffi.Start.{Env, not_running, attach_stat_address, store}
use shadowsocks_ohos.Ffi.Control.{
  sslocal_set_stat_address, sslocal_stop, sslocal_is_running, core_failed,
}
use shadowsocks_ohos.Ffi.Session.Steps.{initial}
use shadowsocks_ohos.Ffi.Threads.{
  Start, stop, is_running, last_error, set_stat, code, flag, message, call_of, before_lock, launch,
  prepare, Pc, outside, begun, waits, cloned, inside, locked, checked, loaded, attached, prepared,
  stopping, leaving, free, held, System,
}

abbrev pub update : (ℕ → Pc) → ℕ → Pc → ℕ → Pc
update pc i p j = if i == j then p else pc j

-- A step of thread `i`. The core's own tasks, which record the error that ends them, are threads too. A
-- start that fails leaves its lock with its error recorded; what it drops is seen by nobody else.
pub data Step (s : System) : System → Type 0 where
  begins :
      (i : ℕ) (st : Start) → s.pc i ≡ outside → Step s (record s { pc = update s.pc i (begun st) })
  reads_config :
      (i : ℕ) {st : Start} {x : Value × List PluginSpec} {g : Globals}
      → s.pc i ≡ begun st
      → before_lock st.env st s.globals ≡ (ok x, g)
      → Step s (record s { globals = g; pc = update s.pc i (waits st x) })
  rejects_config :
      (i : ℕ) {st : Start} {c : ℤ} {g : Globals}
      → s.pc i ≡ begun st
      → before_lock st.env st s.globals ≡ (err c, g)
      → Step s (record s {
        globals = g;
        pc = update s.pc i outside;
        log = (call_of st, code (err c)) ∷ s.log;
      })
  locks :
      (i : ℕ) {st : Start} {x : Value × List PluginSpec}
      → s.pc i ≡ waits st x
      → s.lock ≡ free
      → Step s (record s { lock = held i (locked st x); pc = update s.pc i inside })
  finds_none :
      (i : ℕ) {st : Start} {x : Value × List PluginSpec} {g : Globals}
      → s.lock ≡ held i (locked st x)
      → not_running s.globals ≡ (ok tt, g)
      → Step s (record s { globals = g; lock = held i (checked st x) })
  finds_one :
      (i : ℕ) {st : Start} {x : Value × List PluginSpec} {c : ℤ} {g : Globals}
      → s.lock ≡ held i (locked st x)
      → not_running s.globals ≡ (err c, g)
      → Step s (record s {
        globals = g;
        lock = held i leaving;
        log = (call_of st, code (err c)) ∷ s.log;
      })
  launches :
      (i : ℕ) {st : Start} {x : Value × List PluginSpec} {y : Config × List Forwarder} {g : Globals}
      → s.lock ≡ held i (checked st x)
      → launch st.env x s.globals ≡ (ok y, g)
      → Step s (record s { globals = g; lock = held i (loaded st y) })
  fails_to_launch :
      (i : ℕ) {st : Start} {x : Value × List PluginSpec} {c : ℤ} {g : Globals}
      → s.lock ≡ held i (checked st x)
      → launch st.env x s.globals ≡ (err c, g)
      → Step s (record s {
        globals = g;
        lock = held i leaving;
        log = (call_of st, code (err c)) ∷ s.log;
      })
  attaches :
      (i : ℕ) {st : Start} {config a : Config} {forwarders : List Forwarder} {g : Globals}
      → s.lock ≡ held i (loaded st (config, forwarders))
      → attach_stat_address config s.globals ≡ (ok a, g)
      → Step s (record s { globals = g; lock = held i (attached st (a, forwarders)) })
  prepares :
      (i : ℕ) {st : Start} {config a : Config} {forwarders : List Forwarder} {g : Globals}
      → s.lock ≡ held i (attached st (config, forwarders))
      → prepare st.env st config s.globals ≡ (ok a, g)
      → Step s (record s { globals = g; lock = held i (prepared st (a, forwarders)) })
  fails_to_prepare :
      (i : ℕ) {st : Start} {config : Config} {forwarders : List Forwarder} {c : ℤ} {g : Globals}
      → s.lock ≡ held i (attached st (config, forwarders))
      → prepare st.env st config s.globals ≡ (err c, g)
      → Step s (record s {
        globals = g;
        lock = held i leaving;
        log = (call_of st, code (err c)) ∷ s.log;
      })
  stores :
      (i : ℕ) {st : Start} {config : Config} {forwarders : List Forwarder} {g : Globals}
      → s.lock ≡ held i (prepared st (config, forwarders))
      → store (record { config = config; forwarders = forwarders }) s.globals ≡ (ok tt, g)
      → Step s (record s {
        globals = g;
        lock = held i leaving;
        log = (call_of st, code (ok tt)) ∷ s.log;
      })
  locks_to_stop :
      (i : ℕ)
      → s.pc i ≡ outside
      → s.lock ≡ free
      → Step s (record s { lock = held i stopping; pc = update s.pc i inside })
  stops :
      (i : ℕ) {r : Outcome (Unit {0})} {g : Globals}
      → s.lock ≡ held i stopping
      → sslocal_stop s.globals ≡ (r, g)
      → Step s (record s { globals = g; lock = held i leaving; log = (stop, code r) ∷ s.log })
  leaves :
      (i : ℕ)
      → s.lock ≡ held i leaving
      → Step s (record s { lock = free; pc = update s.pc i outside })
  asks_running :
      (i : ℕ)
      → s.pc i ≡ outside
      → s.lock ≡ free
      → Step s (record s { log = (is_running, flag (sslocal_is_running s.globals)) ∷ s.log })
  sets_stat :
      (i : ℕ) {env : Env} {addr : CStrArg} {r : Outcome (Unit {0})} {g : Globals}
      → s.pc i ≡ outside
      → sslocal_set_stat_address env addr s.globals ≡ (r, g)
      → Step s (record s { globals = g; log = (set_stat env addr, code r) ∷ s.log })
  clones_error :
      (i : ℕ)
      → s.pc i ≡ outside
      → Step s (record s {
        pc = update s.pc i (cloned s.globals.last_error);
        log = (last_error, message s.globals.last_error) ∷ s.log;
      })
  hands_out :
      (i : ℕ) {m : Option Text}
      → s.pc i ≡ cloned m
      → Step s (record s {
        globals = record s.globals { last_error_handed_out = m };
        pc = update s.pc i outside;
      })
  core_fails : (e : Text) → Step s (record s { globals = core_failed e s.globals })

-- The library as it is loaded, and what its threads make of it.
abbrev pub at_load : System
at_load = record { globals = initial; lock = free; pc = λ i. outside; log = [] }

pub data IsReached : System → Type 0 where
  at_first : IsReached at_load
  then_step : {s t : System} → IsReached s → Step s t → IsReached t
