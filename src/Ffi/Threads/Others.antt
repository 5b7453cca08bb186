-- ===== src/Ffi/Threads/Others.antt =====
-- The calls of native/sslocal-ffi/src/lib.rs that start nothing, and every step of a thread.
use mathlib.Core.Path.{subst}
use shadowsocks_ohos.Prelude.{ℕ, ◌≡◌, refl, sym, ap, ◌∙◌, Option, ◌∷◌, Text, inl, inr}
use shadowsocks_ohos.Ffi.State.{Globals, Outcome, ok, err, set_last_error, CStrArg}
use shadowsocks_ohos.Ffi.Start.{Env}
use shadowsocks_ohos.Ffi.Control.{
  sslocal_set_stat_address, sslocal_stop, as_int, sslocal_is_running, sslocal_last_error,
  core_failed,
}
use shadowsocks_ohos.Ffi.Threads.{
  stop, is_running, last_error, set_stat, code, flag, message, call, outside, cloned, stopping,
  leaving, free, held, System,
}
use shadowsocks_ohos.Ffi.Threads.Order.{asked, set, keeps}
use shadowsocks_ohos.Ffi.Threads.Run.{update}
use shadowsocks_ohos.Ffi.Threads.Serial.{Serial, coded}
use shadowsocks_ohos.Ffi.Threads.Invariant.{Tied-cons, debt, Core, Inv, returns}
use shadowsocks_ohos.Ffi.Threads.Moves.{
  sslocal_stop-handed_out, sslocal_set_stat_address-SetsAddress,
}
use shadowsocks_ohos.Ffi.Threads.Keeps.{at_lock, moved}

module _ {s : System} (k : Inv s) where
  pub keeps-stops :
      (i : ℕ) {r : Outcome (Unit {0})} {g : Globals}
      → s.lock ≡ held i stopping
      → sslocal_stop s.globals ≡ (r, g)
      → Inv (record s { globals = g; lock = held i leaving; log = (stop, code r) ∷ s.log })
  unfolding call
  keeps-stops i {r} {g} at e =
      let core = (at_lock k at).0 in
      let handed_out = core.serial.last_error_handed_out in
      let same : core.serial ≡ record s.globals { last_error_handed_out = handed_out } = λ j.
        record {
          instance_slot = core.tied.0 j;
          last_error = core.same_error j;
          last_error_handed_out = handed_out;
          stat_addr = core.same_stat j;
        } in
      record {
        core = record {
          calls = _;
          serial = record g { last_error_handed_out = handed_out };
          history = returns stop core.history (
              ap (λ x. coded (sslocal_stop x)) same
              ∙ ap coded (sslocal_stop-handed_out s.globals handed_out)
              ∙ ap
                  (λ (x : Outcome (Unit {0}) × Globals).
                    coded (x.0, record x.1 { last_error_handed_out = handed_out }))
                  e);
          same_error = refl;
          same_stat = refl;
          tied = (refl, keeps (stop, code r) core.tied.1);
        };
        within = tt;
        waiting = k.waiting;
      }

  pub keeps-asks_running :
      s.lock ≡ free
      → Inv (record s { log = (is_running, flag (sslocal_is_running s.globals)) ∷ s.log })
  unfolding call sslocal_is_running
  keeps-asks_running at =
      let core = (at_lock k at).0 in
      record {
        core =
            subst
              (λ l.
                Core (debt l) s.globals
                  ((is_running, flag (as_int s.globals.instance_slot)) ∷ s.log))
              (sym at)
              (record {
                calls = _;
                serial = core.serial;
                history =
                    returns is_running core.history
                      (ap (λ slot. (flag (as_int slot), core.serial)) core.tied.0);
                same_error = core.same_error;
                same_stat = core.same_stat;
                tied = (core.tied.0, keeps _ core.tied.1);
              });
        within = k.within;
        waiting = k.waiting;
      }

  pub keeps-sets_stat :
      {env : Env} {addr : CStrArg} {r : Outcome (Unit {0})} {g : Globals}
      → sslocal_set_stat_address env addr s.globals ≡ (r, g)
      → Inv (record s { globals = g; log = (set_stat env addr, code r) ∷ s.log })
  unfolding call set_last_error
  keeps-sets_stat {env} {addr} {r} {g} e = elim (sslocal_set_stat_address-SetsAddress env addr) [
    | inl (a, f) ↦
        subst
          (λ (x : Outcome (Unit {0}) × Globals).
            Inv (record s { globals = x.1; log = (set_stat env addr, code x.0) ∷ s.log }))
          (sym (f s.globals) ∙ e)
          (record {
            core = record {
              calls = _;
              serial = record k.core.serial { stat_addr = a };
              history = returns (set_stat env addr) k.core.history (ap coded (f k.core.serial));
              same_error = k.core.same_error;
              same_stat = refl;
              tied = Tied-cons (debt s.lock) _ _ _ _ (set env addr (ok tt)) k.core.tied;
            };
            within = k.within;
            waiting = k.waiting;
          })
    | inr (m, c, f) ↦
        subst
          (λ (x : Outcome (Unit {0}) × Globals).
            Inv (record s { globals = x.1; log = (set_stat env addr, code x.0) ∷ s.log }))
          (sym (f s.globals) ∙ e)
          (record {
            core = record {
              calls = _;
              serial = set_last_error m k.core.serial;
              history = returns (set_stat env addr) k.core.history (ap coded (f k.core.serial));
              same_error = refl;
              same_stat = k.core.same_stat;
              tied = Tied-cons (debt s.lock) _ _ _ _ (set env addr (err c)) k.core.tied;
            };
            within = k.within;
            waiting = k.waiting;
          })
  ]

  pub keeps-clones_error :
      (i : ℕ)
      → Inv (record s {
        pc = update s.pc i (cloned s.globals.last_error);
        log = (last_error, message s.globals.last_error) ∷ s.log;
      })
  unfolding call sslocal_last_error
  keeps-clones_error i = record {
    core = record {
      calls = _;
      serial = record k.core.serial { last_error_handed_out = k.core.serial.last_error };
      history = returns last_error k.core.history (
          ap
            (λ m. (
              message m,
              record k.core.serial { last_error_handed_out = k.core.serial.last_error },
            ))
            k.core.same_error);
      same_error = k.core.same_error;
      same_stat = k.core.same_stat;
      tied = Tied-cons (debt s.lock) _ _ _ _ (asked s.globals.last_error) k.core.tied;
    };
    within = k.within;
    waiting = moved k i (cloned s.globals.last_error) tt;
  }

  pub keeps-hands_out :
      (i : ℕ) (m : Option Text)
      → Inv (record s {
        globals = record s.globals { last_error_handed_out = m };
        pc = update s.pc i outside;
      })
  keeps-hands_out i m = record {
    core = record {
      calls = k.core.calls;
      serial = k.core.serial;
      history = k.core.history;
      same_error = k.core.same_error;
      same_stat = k.core.same_stat;
      tied = k.core.tied;
    };
    within = k.within;
    waiting = moved k i outside tt;
  }

  pub keeps-core_fails : (e : Text) → Inv (record s { globals = core_failed e s.globals })
  unfolding core_failed set_last_error
  keeps-core_fails e = record {
    core = record {
      calls = k.core.calls;
      serial = core_failed e k.core.serial;
      history = Serial.core_fails e k.core.history;
      same_error = refl;
      same_stat = k.core.same_stat;
      tied = k.core.tied;
    };
    within = k.within;
    waiting = k.waiting;
  }
