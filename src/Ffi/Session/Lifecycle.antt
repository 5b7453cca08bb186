-- ===== src/Ffi/Session/Lifecycle.antt =====
-- How often native/sslocal-ffi/src/lib.rs was started and stopped, against what it says of itself.

use shadowsocks_ohos.Prelude.{
  ℕ, suc, ◌+◌, ◌≤◌, ◌≡◌, refl, sym, ap, ◌∙◌, Option, none, some, Text, arith,
}
use shadowsocks_ohos.Ffi.State.{
  ℤ, pos, Globals, Outcome, ok, err, panic, Instance, CStrArg, set_last_error,
}
use shadowsocks_ohos.Ffi.Start.{Env, sslocal_start, sslocal_start_tun_fd}
use shadowsocks_ohos.Ffi.Control.{
  sslocal_set_stat_address, sslocal_stop, sslocal_is_running, sslocal_last_error, core_failed,
}
use shadowsocks_ohos.Ffi.Session.Quiet.{Refused}
use shadowsocks_ohos.Ffi.Session.Starts.{StartsAt, sslocal_start-StartsAt}
use shadowsocks_ohos.Ffi.Session.Steps.{
  initial, StopsAt, sslocal_stop-StopsAt, SetsAt, sslocal_set_stat_address-SetsAt,
}

-- The calls since the library was loaded, and the errors of the core between them, with the number of
-- starts and of stops among them that succeeded. What the system answers may change from call to call.
pub data History : ℕ → ℕ → Globals → Type 0 where
  loaded : History 0 0 initial
  starts :
      {a b : ℕ} {g g' : Globals} (env : Env) (config_json : CStrArg)
      → History a b g
      → sslocal_start env config_json g ≡ (ok tt, g')
      → History (suc a) b g'
  starts_tun :
      {a b : ℕ} {g g' : Globals} (env : Env) (config_json : CStrArg) (tun_fd : ℤ)
      → History a b g
      → sslocal_start_tun_fd env config_json tun_fd g ≡ (ok tt, g')
      → History (suc a) b g'
  starts_not :
      {a b : ℕ} {g g' : Globals} {code : ℤ} (env : Env) (config_json : CStrArg)
      → History a b g
      → sslocal_start env config_json g ≡ (err code, g')
      → History a b g'
  starts_tun_not :
      {a b : ℕ} {g g' : Globals} {code : ℤ} (env : Env) (config_json : CStrArg) (tun_fd : ℤ)
      → History a b g
      → sslocal_start_tun_fd env config_json tun_fd g ≡ (err code, g')
      → History a b g'
  stops :
      {a b : ℕ} {g g' : Globals}
      → History a b g
      → sslocal_stop g ≡ (ok tt, g')
      → History a (suc b) g'
  stops_not :
      {a b : ℕ} {g g' : Globals} {code : ℤ}
      → History a b g
      → sslocal_stop g ≡ (err code, g')
      → History a b g'
  sets_stat :
      {a b : ℕ} {g : Globals} (env : Env) (addr : CStrArg)
      → History a b g
      → History a b (sslocal_set_stat_address env addr g).1
  asks_error : {a b : ℕ} {g : Globals} → History a b g → History a b (sslocal_last_error g).1
  core_fails : {a b : ℕ} {g : Globals} (e : Text) → History a b g → History a b (core_failed e g)

abbrev count : Option Instance → ℕ
count none = 0
count (some i) = 1

-- The starts are the stops and the instance that runs.
abbrev Balanced : ℕ → ℕ → Globals → Type 0
Balanced a b g = a ≡ b + count g.instance_slot

Balanced-start :
    {a : ℕ} (b : ℕ) (g : Globals) {g' : Globals}
    → StartsAt g (ok tt, g')
    → Balanced a b g
    → Balanced (suc a) b g'
Balanced-start b g (idle, (i, e)) h =
    omega (arith, h, ap count idle, ap (λ (x : Globals). count x.instance_slot) e)

Balanced-Refused :
    {a : ℕ} (b : ℕ) (g : Globals) {g' : Globals} {code : ℤ}
    → Refused g code g'
    → Balanced a b g
    → Balanced a b g'
Balanced-Refused b g r h = omega (arith, h, ap count r.same_instance)

is_running-count :
    (slot : Option Instance) (g : Globals)
    → g.instance_slot ≡ slot
    → sslocal_is_running g ≡ pos (count slot)
unfolding sslocal_is_running
is_running-count none g e = rw (sslocal_is_running, e) refl
is_running-count (some i) g e = rw (sslocal_is_running, e) refl

count-le : (slot : Option Instance) → count slot ≤ 1
count-le none = omega arith
count-le (some i) = omega arith

pos-injective : {m n : ℕ} → pos m ≡ pos n → m ≡ n
pos-injective e = cc

Balanced-stop :
    {a : ℕ} (b : ℕ) (g : Globals) {g' : Globals}
    → StopsAt g (ok tt, g')
    → Balanced a b g
    → Balanced a (suc b) g'
Balanced-stop b g {g'} (before, after, _) h =
    let one = pos-injective (sym before ∙ is_running-count g.instance_slot g refl) in
    let none_now = pos-injective (sym after ∙ is_running-count g'.instance_slot g' refl) in
    omega (arith, h, one, none_now)

Balanced-set :
    {a : ℕ} (b : ℕ) (g : Globals) (r : Outcome (Unit {0}) × Globals)
    → SetsAt g r
    → Balanced a b g
    → Balanced a b r.1
Balanced-set b g (ok u, g') (_, e) h =
    omega (arith, h, ap (λ (x : Globals). count x.instance_slot) e)
Balanced-set b g (err code, g') r h = Balanced-Refused b g r h
Balanced-set b g (panic, g') r h = elim r [ ]

History-Balanced : {a b : ℕ} (g : Globals) → History a b g → Balanced a b g
unfolding sslocal_last_error core_failed set_last_error
History-Balanced g loaded = refl
History-Balanced g' (starts {b = b} {g = g} env config_json before e) =
    Balanced-start b g (rw e at (sslocal_start-StartsAt env config_json (pos 0) g).0)
      (History-Balanced g before)
History-Balanced g' (starts_tun {b = b} {g = g} env config_json tun_fd before e) =
    Balanced-start b g (rw e at (sslocal_start-StartsAt env config_json tun_fd g).1)
      (History-Balanced g before)
History-Balanced g' (starts_not {b = b} {g = g} env config_json before e) =
    Balanced-Refused b g (rw e at (sslocal_start-StartsAt env config_json (pos 0) g).0)
      (History-Balanced g before)
History-Balanced g' (starts_tun_not {b = b} {g = g} env config_json tun_fd before e) =
    Balanced-Refused b g (rw e at (sslocal_start-StartsAt env config_json tun_fd g).1)
      (History-Balanced g before)
History-Balanced g' (stops {b = b} {g = g} before e) =
    Balanced-stop b g (rw e at (sslocal_stop-StopsAt g)) (History-Balanced g before)
History-Balanced g' (stops_not {b = b} {g = g} before e) =
    Balanced-Refused b g (rw e at (sslocal_stop-StopsAt g)).1 (History-Balanced g before)
History-Balanced g' (sets_stat {b = b} {g = g} env addr before) =
    Balanced-set b g (sslocal_set_stat_address env addr g)
      (sslocal_set_stat_address-SetsAt env addr g) (History-Balanced g before)
History-Balanced g' (asks_error {b = b} {g = g} before) = History-Balanced g before
History-Balanced g' (core_fails {b = b} {g = g} e before) = History-Balanced g before

-- After any calls and any errors of the core, `sslocal_is_running` answers with the number of the starts
-- that succeeded less that of the stops that succeeded, which is 0 or 1.
pub History-running :
    {a b : ℕ} (g : Globals)
    → History a b g
    → (n : ℕ) × (n ≤ 1) × (a ≡ b + n) × (sslocal_is_running g ≡ pos n)
History-running g h = (
  count g.instance_slot,
  count-le g.instance_slot,
  History-Balanced g h,
  is_running-count g.instance_slot g refl,
)
