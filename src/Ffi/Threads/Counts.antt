-- ===== src/Ffi/Threads/Counts.antt =====
-- How often the threads of native/sslocal-ffi/src/lib.rs have started and stopped an instance.

use mathlib.Core.List.{foldr}
use shadowsocks_ohos.Prelude.{
  ◌∷◌, ℕ, suc, ◌+◌, ◌≤◌, ◌≡◌, refl, sym, ap, ◌∙◌, Bool, true, false, arith,
}
use shadowsocks_ohos.Ffi.State.{ℤ, pos, Globals, Outcome, ok, err, panic, CStrArg}
use shadowsocks_ohos.Ffi.Start.{Env, sslocal_start, sslocal_start_tun_fd}
use shadowsocks_ohos.Ffi.Control.{sslocal_stop, sslocal_is_running}
use shadowsocks_ohos.Ffi.Session.Starts.{StartsAt, sslocal_start-StartsAt}
use shadowsocks_ohos.Ffi.Session.Steps.{StopsAt, sslocal_stop-StopsAt}
use shadowsocks_ohos.Ffi.Session.Lifecycle.{
  History, loaded, starts, starts_tun, starts_not, starts_tun_not, stops, stops_not, sets_stat,
  asks_error, core_fails, History-running,
}
use shadowsocks_ohos.Ffi.Threads.{
  Call, start, start_tun, stop, is_running, last_error, set_stat, Returned, code, call, Log, free,
  System,
}
use shadowsocks_ohos.Ffi.Threads.Order.{Inserts, here, before, Reorders, ends, keeps, moves}
use shadowsocks_ohos.Ffi.Threads.Run.{IsReached}
use shadowsocks_ohos.Ffi.Threads.Serial.{Serial, at_load, then_call}
use shadowsocks_ohos.Ffi.Threads.Running.{IsReached-Serialises}

-- A start that has succeeded, and a stop.
abbrev pub starts_one : Call × Returned → Bool
starts_one (start env config_json, code (ok _)) = true
starts_one (start_tun env config_json tun_fd, code (ok _)) = true
starts_one _ = false

abbrev pub stops_one : Call × Returned → Bool
stops_one (stop, code (ok _)) = true
stops_one _ = false

-- How many there are in a log.
abbrev one_more : Bool → ℕ → ℕ
one_more true n = suc n
one_more false n = n

unfoldable pub tally : (Call × Returned → Bool) → Log → ℕ
tally counts log = foldr (λ x n. one_more (counts x) n) 0 log

one_more_comm : (b c : Bool) (n : ℕ) → one_more b (one_more c n) ≡ one_more c (one_more b n)
one_more_comm true true n = refl
one_more_comm true false n = refl
one_more_comm false true n = refl
one_more_comm false false n = refl

tally-Inserts :
    (counts : Call × Returned → Bool) {e : Call × Returned} {l l' : Log}
    → Inserts e l l'
    → tally counts (e ∷ l) ≡ tally counts l'
unfolding tally
tally-Inserts counts here = refl
tally-Inserts counts {e} (before {log = l} {x = x} _ p) =
    one_more_comm (counts e) (counts x) (tally counts l)
    ∙ ap (one_more (counts x)) (tally-Inserts counts p)

tally-Reorders :
    (counts : Call × Returned → Bool) {l l' : Log}
    → Reorders l l'
    → tally counts l ≡ tally counts l'
unfolding tally
tally-Reorders counts ends = refl
tally-Reorders counts (keeps x p) = ap (one_more (counts x)) (tally-Reorders counts p)
tally-Reorders counts (moves {e = e} _ p q) =
    ap (one_more (counts e)) (tally-Reorders counts p) ∙ tally-Inserts counts q

module _ {a b : ℕ} {g : Globals} (h : History a b g) where
  History-start :
      (env : Env) (config_json : CStrArg) (r : Outcome (Unit {0}) × Globals)
      → sslocal_start env config_json g ≡ r
      → StartsAt g r
      → History (one_more (starts_one (start env config_json, code r.0)) a) b r.1
  History-start env config_json (ok _, g') e k = starts env config_json h e
  History-start env config_json (err c, g') e k = starts_not env config_json h e
  History-start env config_json (panic, g') e k = elim k [ ]

  History-start_tun :
      (env : Env) (config_json : CStrArg) (tun_fd : ℤ) (r : Outcome (Unit {0}) × Globals)
      → sslocal_start_tun_fd env config_json tun_fd g ≡ r
      → StartsAt g r
      → History (one_more (starts_one (start_tun env config_json tun_fd, code r.0)) a) b r.1
  History-start_tun env config_json tun_fd (ok _, g') e k = starts_tun env config_json tun_fd h e
  History-start_tun env config_json tun_fd (err c, g') e k =
      starts_tun_not env config_json tun_fd h e
  History-start_tun env config_json tun_fd (panic, g') e k = elim k [ ]

  History-stop :
      (r : Outcome (Unit {0}) × Globals)
      → sslocal_stop g ≡ r
      → StopsAt g r
      → History a (one_more (stops_one (stop, code r.0)) b) r.1
  History-stop (ok _, g') e k = stops h e
  History-stop (err c, g') e k = stops_not h e
  History-stop (panic, g') e k = elim k [ ]

  History-call :
      (c : Call)
      → History
          (one_more (starts_one (c, (call c g).0)) a)
          (one_more (stops_one (c, (call c g).0)) b)
          (call c g).1
  unfolding call
  History-call (start env config_json) =
      History-start env config_json (sslocal_start env config_json g) refl
        (sslocal_start-StartsAt env config_json (pos 0) g).0
  History-call (start_tun env config_json tun_fd) =
      History-start_tun env config_json tun_fd (sslocal_start_tun_fd env config_json tun_fd g) refl
        (sslocal_start-StartsAt env config_json tun_fd g).1
  History-call stop = History-stop (sslocal_stop g) refl (sslocal_stop-StopsAt g)
  History-call is_running = h
  History-call last_error = asks_error h
  History-call (set_stat env addr) = sets_stat env addr h

History-Serial :
    {l : Log} {g : Globals} → Serial l g → History (tally starts_one l) (tally stops_one l) g
unfolding tally
History-Serial at_load = loaded
History-Serial (then_call c h) = History-call (History-Serial h) c
History-Serial (Serial.core_fails e h) = core_fails e (History-Serial h)

-- However threads call the entry points at the same time: while no thread holds the lock of the instance,
-- `sslocal_is_running` answers with the number of the starts that have succeeded less that of the stops
-- that have, which is 0 or 1.
pub IsReached-running :
    (s : System)
    → IsReached s
    → s.lock ≡ free
    → (n : ℕ) × (n ≤ 1)
      × (tally starts_one s.log ≡ tally stops_one s.log + n)
      × (sslocal_is_running s.globals ≡ pos n)
unfolding sslocal_is_running
IsReached-running s h at =
    let (calls, g, serial, p, same) = IsReached-Serialises s h at in
    let (n, few, balance, running) = History-running g (History-Serial serial) in
    (
      n,
      few,
      omega (arith, balance, tally-Reorders starts_one p, tally-Reorders stops_one p),
      sym (ap (λ x. sslocal_is_running x) same) ∙ running,
    )
