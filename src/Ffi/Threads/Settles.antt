-- ===== src/Ffi/Threads/Settles.antt =====
-- The end of a start of native/sslocal-ffi/src/lib.rs: where the address is read, it is settled whether the
-- start succeeds, and with which instance.
use mathlib.Core.Path.{subst}
use shadowsocks_ohos.Prelude.{ℕ, ◌≡◌, refl, sym, ap, ◌∙◌, none, List, ◌∷◌}
use shadowsocks_ohos.Ffi.State.{ℤ, Globals, ok, err, Config, Forwarder}
use shadowsocks_ohos.Ffi.Start.{attach_stat_address, store}
use shadowsocks_ohos.Ffi.Threads.{
  Start, code, call_of, prepare, Log, loaded, attached, prepared, leaving, held, System,
}
use shadowsocks_ohos.Ffi.Threads.Order.{started, here, moves}
use shadowsocks_ohos.Ffi.Threads.Local.{Fate, goes, fails, panics, enact, prepare-IsLocal}
use shadowsocks_ohos.Ffi.Threads.Serial.{call-perform, coded}
use shadowsocks_ohos.Ffi.Threads.Stages.{
  Goes-of_ok, Fails-of_err, Launched, perform-unprepared, perform-stored,
}
use shadowsocks_ohos.Ffi.Threads.Invariant.{owes, with_stat, Core, Inv, returns}
use shadowsocks_ohos.Ffi.Threads.Moves.{
  attach-with_stat, owes-prepare, owes-prepare_err, prepare-locals,
}
use shadowsocks_ohos.Ffi.Threads.Keeps.{at_lock, refused_inside}

module _ {g : Globals} {log : Log} (core : Core none g log) where
  -- A start that is bound to succeed is a call that has succeeded where it read the address.
  Core-owes :
      (st : Start) {config : Config} {forwarders : List Forwarder} (r : Fate Config)
      → ((x : Globals) → prepare st.env st (with_stat config g.stat_addr) x ≡ enact r x)
      → g.instance_slot ≡ none
      → Launched st.env st (config, forwarders)
      → Core (owes st forwarders r) g log
  unfolding enact
  Core-owes st (fails m c) f idle launched = core
  Core-owes st panics f idle launched = core
  Core-owes st {config} {forwarders} (goes c) f idle launched = record {
    calls = _;
    serial = _;
    history = returns (call_of st) core.history (
        call-perform st core.serial
        ∙ ap coded (
            perform-stored st.env st core.serial launched (core.tied.0 ∙ idle)
              (attach-with_stat config core.serial)
              (ap (λ stat. prepare st.env st (with_stat config stat) core.serial) core.same_stat
                ∙ f core.serial)));
    same_error = core.same_error;
    same_stat = core.same_stat;
    tied = (refl, (core.calls, core.tied.1, here));
  }

module _ {s : System} (k : Inv s) where
  pub keeps-attaches :
      (i : ℕ) {st : Start} {config a : Config} {forwarders : List Forwarder} {g : Globals}
      → s.lock ≡ held i (loaded st (config, forwarders))
      → attach_stat_address config s.globals ≡ (ok a, g)
      → Inv (record s { globals = g; lock = held i (attached st (a, forwarders)) })
  keeps-attaches i {st} {config} {a} {forwarders} at e =
      let (core, (idle, launched)) = at_lock k at in
      let stat = s.globals.stat_addr in
      let q = sym (attach-with_stat config s.globals) ∙ e in
      let same_config : with_stat config stat ≡ a = cc in
      let same : s.globals ≡ _ = ap (λ r. r.1) q in
      subst (λ g. Inv (record s { globals = g; lock = held i (attached st (a, forwarders)) })) same
        (subst
          (λ b. Inv (record s { globals = s.globals; lock = held i (attached st (b, forwarders)) }))
          same_config
          (record {
            core =
                let h = prepare-IsLocal st.env st (with_stat config stat) in
                Core-owes core st h.fate h.enacts idle launched;
            within = (idle, (config, launched, (stat, refl)));
            waiting = k.waiting;
          }))

  pub keeps-prepares :
      (i : ℕ) {st : Start} {config a : Config} {forwarders : List Forwarder} {g : Globals}
      → s.lock ≡ held i (attached st (config, forwarders))
      → prepare st.env st config s.globals ≡ (ok a, g)
      → Inv (record s { globals = g; lock = held i (prepared st (a, forwarders)) })
  keeps-prepares i {st} {config} {a} {forwarders} at e =
      let (core, (idle, _)) = at_lock k at in
      let (same, f) = Goes-of_ok (prepare-IsLocal st.env st config) e in
      subst (λ g. Inv (record s { globals = g; lock = held i (prepared st (a, forwarders)) }))
        (sym same)
        (record {
          core =
              subst (λ d. Core d s.globals s.log)
                (owes-prepare st.env st s.globals config forwarders e) core;
          within = idle;
          waiting = k.waiting;
        })

  pub keeps-fails_to_prepare :
      (i : ℕ) {st : Start} {config : Config} {forwarders : List Forwarder} {c : ℤ} {g : Globals}
      → s.lock ≡ held i (attached st (config, forwarders))
      → prepare st.env st config s.globals ≡ (err c, g)
      → Inv (record s {
        globals = g;
        lock = held i leaving;
        log = (call_of st, code (err c)) ∷ s.log;
      })
  keeps-fails_to_prepare i {st} {config} {forwarders} {c} {g} at e =
      let (owing, (idle, (loaded_config, launched, (stat, same_config)))) = at_lock k at in
      let (m, same, f) = Fails-of_err (prepare-IsLocal st.env st config) e in
      let core =
        subst (λ d. Core d s.globals s.log)
          (owes-prepare_err st.env st s.globals config forwarders e) owing in
      refused_inside k i st m core same (
        perform-unprepared st.env st core.serial launched (core.tied.0 ∙ idle)
          (attach-with_stat loaded_config core.serial)
          (sym (
              prepare-locals st.env st s.globals loaded_config stat core.serial.stat_addr
                (subst (λ b. prepare st.env st b s.globals ≡ (err c, g)) same_config e) core.serial)
            ∙ ap (λ b. prepare st.env st b core.serial) (sym same_config)
            ∙ f core.serial))

  pub keeps-stores :
      (i : ℕ) {st : Start} {config : Config} {forwarders : List Forwarder} {g : Globals}
      → s.lock ≡ held i (prepared st (config, forwarders))
      → store (record { config = config; forwarders = forwarders }) s.globals ≡ (ok tt, g)
      → Inv (record s {
        globals = g;
        lock = held i leaving;
        log = (call_of st, code (ok tt)) ∷ s.log;
      })
  unfolding store
  keeps-stores i {st} {config} {forwarders} at e =
      let (core, idle) = at_lock k at in
      subst
        (λ g. Inv (record s {
          globals = g;
          lock = held i leaving;
          log = (call_of st, code (ok tt)) ∷ s.log;
        }))
        (ap (λ r. r.1) e)
        (record {
          core = record {
            calls = core.calls;
            serial = core.serial;
            history = core.history;
            same_error = core.same_error;
            same_stat = core.same_stat;
            tied = let (slot, (calls, p, q)) = core.tied in (slot, moves (started st) p q);
          };
          within = tt;
          waiting = k.waiting;
        })
