-- ===== src/Ffi/Threads/Running.antt =====
-- Threads that call native/sslocal-ffi/src/lib.rs at the same time, against calls one after the other.

use shadowsocks_ohos.Prelude.{◌≡◌, refl, []}
use shadowsocks_ohos.Ffi.State.{Globals}
use shadowsocks_ohos.Ffi.Threads.{begun, inside, outside, free, System, Log}
use shadowsocks_ohos.Ffi.Threads.Order.{Reorders, ends}
use shadowsocks_ohos.Ffi.Threads.Run.{
  Step, begins, reads_config, rejects_config, locks, finds_none, finds_one, launches,
  fails_to_launch, attaches, prepares, fails_to_prepare, stores, locks_to_stop, stops, leaves,
  asks_running, sets_stat, clones_error, hands_out, core_fails, IsReached, at_first, then_step,
}
use shadowsocks_ohos.Ffi.Threads.Serial.{Serial, at_load}
use shadowsocks_ohos.Ffi.Threads.Invariant.{Inv}
use shadowsocks_ohos.Ffi.Threads.Keeps.{
  at_lock, at_pc, moved, keeps-reads_config, keeps-rejects_config, keeps-finds_none,
  keeps-finds_one, keeps-launches, keeps-fails_to_launch,
}
use shadowsocks_ohos.Ffi.Threads.Settles.{
  keeps-attaches, keeps-prepares, keeps-fails_to_prepare, keeps-stores,
}
use shadowsocks_ohos.Ffi.Threads.Others.{
  keeps-stops, keeps-asks_running, keeps-sets_stat, keeps-clones_error, keeps-hands_out,
  keeps-core_fails,
}

Step-Inv : {s t : System} → Step s t → Inv s → Inv t
Step-Inv (begins i st at) k = record {
  core = k.core;
  within = k.within;
  waiting = moved k i (begun st) tt;
}
Step-Inv (reads_config i {st} at e) k = keeps-reads_config k i st e
Step-Inv (rejects_config i {st} at e) k = keeps-rejects_config k i st e
Step-Inv (locks i {st} {x} at lock) k = record {
  core = (at_lock k lock).0;
  within = at_pc k i at;
  waiting = moved k i inside tt;
}
Step-Inv (finds_none i at e) k = keeps-finds_none k i at e
Step-Inv (finds_one i at e) k = keeps-finds_one k i at e
Step-Inv (launches i at e) k = keeps-launches k i at e
Step-Inv (fails_to_launch i at e) k = keeps-fails_to_launch k i at e
Step-Inv (attaches i at e) k = keeps-attaches k i at e
Step-Inv (prepares i at e) k = keeps-prepares k i at e
Step-Inv (fails_to_prepare i at e) k = keeps-fails_to_prepare k i at e
Step-Inv (stores i at e) k = keeps-stores k i at e
Step-Inv (locks_to_stop i at lock) k = record {
  core = (at_lock k lock).0;
  within = tt;
  waiting = moved k i inside tt;
}
Step-Inv (stops i at e) k = keeps-stops k i at e
Step-Inv (leaves i lock) k = record {
  core = (at_lock k lock).0;
  within = tt;
  waiting = moved k i outside tt;
}
Step-Inv (asks_running i at lock) k = keeps-asks_running k lock
Step-Inv (sets_stat i at e) k = keeps-sets_stat k e
Step-Inv (clones_error i at) k = keeps-clones_error k i
Step-Inv (hands_out i {m} at) k = keeps-hands_out k i m
Step-Inv (core_fails e) k = keeps-core_fails k e

pub IsReached-Inv : (s : System) → IsReached s → Inv s
IsReached-Inv s at_first = record {
  core = record {
    calls = [];
    serial = _;
    history = at_load;
    same_error = refl;
    same_stat = refl;
    tied = (refl, ends);
  };
  within = tt;
  waiting = λ i. tt;
}
IsReached-Inv t (then_step {s} before step) = Step-Inv step (IsReached-Inv s before)

-- The calls that are settled, but for starts that have succeeded in their order, lead one after the other
-- to the same answers and the same statics, but for the message that was handed out.
abbrev pub Serialises : Log → Globals → Type 0
Serialises log g =
    (calls : Log) × (g' : Globals) × Serial calls g'
    × Reorders log calls
    × (g' ≡ record g { last_error_handed_out = g'.last_error_handed_out })

-- However threads call the entry points at the same time, and whatever the running core reports: while no
-- thread holds the lock of the instance, the calls settled so far, made one after the other in the order
-- in which they were settled, with the core's errors between them, each return what they returned, and
-- lead to the same instance, recorded error and stat address; but each start that has succeeded may
-- have to be moved to an earlier place, before calls settled just ahead of it, which are starts that
-- were refused, `sslocal_last_error` and `sslocal_set_stat_address`.
pub IsReached-Serialises : (s : System) → IsReached s → s.lock ≡ free → Serialises s.log s.globals
IsReached-Serialises s h at =
    let core = (at_lock (IsReached-Inv s h) at).0 in
    (
      core.calls,
      core.serial,
      core.history,
      core.tied.1,
      λ j. record {
        instance_slot = core.tied.0 j;
        last_error = core.same_error j;
        last_error_handed_out = core.serial.last_error_handed_out;
        stat_addr = core.same_stat j;
      },
    )
