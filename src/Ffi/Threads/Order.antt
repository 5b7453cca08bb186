-- ===== src/Ffi/Threads/Order.antt =====
-- How the order of the calls that threads make of native/sslocal-ffi/src/lib.rs differs from that in which
-- they are settled.
use shadowsocks_ohos.Prelude.{Option, [], ◌∷◌, Text}
use shadowsocks_ohos.Ffi.State.{ℤ, Outcome, ok, err, CStrArg}
use shadowsocks_ohos.Ffi.Start.{Env}
use shadowsocks_ohos.Ffi.Threads.{
  Start, Call, last_error, set_stat, Returned, code, message, call_of, Log,
}

-- A start that has succeeded.
pub data IsStarted : Call × Returned → Type 0 where
  started : (st : Start) → IsStarted (call_of st, code (ok tt))

-- A call that may be settled while another thread holds the lock of the instance.
pub data IsOutside : Call × Returned → Type 0 where
  refused : (st : Start) (c : ℤ) → IsOutside (call_of st, code (err c))
  asked : (m : Option Text) → IsOutside (last_error, message m)
  set :
      (env : Env) (addr : CStrArg) (r : Outcome (Unit {0})) → IsOutside (set_stat env addr, code r)

-- The second log is the first with `e` in it, before no later calls but such as are settled outside the
-- lock. The last call stands first.
pub data Inserts (e : Call × Returned) : Log → Log → Type 0 where
  here : {log : Log} → Inserts e log (e ∷ log)
  before :
      {log log' : Log} {x : Call × Returned}
      → IsOutside x
      → Inserts e log log'
      → Inserts e (x ∷ log) (x ∷ log')

-- The second log is the first, with starts that have succeeded moved before calls that were settled outside
-- the lock just ahead of them.
pub data Reorders : Log → Log → Type 0 where
  ends : Reorders [] []
  keeps : {log log' : Log} (x : Call × Returned) → Reorders log log' → Reorders (x ∷ log) (x ∷ log')
  moves :
      {log log' log'' : Log} {e : Call × Returned}
      → IsStarted e
      → Reorders log log'
      → Inserts e log' log''
      → Reorders (e ∷ log) log''
