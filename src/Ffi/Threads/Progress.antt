-- ===== src/Ffi/Threads/Progress.antt =====
-- The thread inside the lock of native/sslocal-ffi/src/lib.rs gets out of it.
use mathlib.Core.Path.{subst}
use shadowsocks_ohos.Prelude.{
  ℕ, zero, suc, ◌≤◌, ◌<◌, ◌≡◌, refl, Option, none, some, List, Option-cases, inl, inr, arith,
}
use shadowsocks_ohos.Json.{Value}
use shadowsocks_ohos.Ffi.State.{raise, Config, Forwarder}
use shadowsocks_ohos.Ffi.Specs.{PluginSpec}
use shadowsocks_ohos.Ffi.Start.{store}
use shadowsocks_ohos.Ffi.Session.Quiet.{QuietAt}
use shadowsocks_ohos.Ffi.Session.Starts.{not_running-elim}
use shadowsocks_ohos.Ffi.Threads.{
  Start, Held, locked, checked, loaded, attached, prepared, stopping, leaving, Lock, free, held,
  System,
}
use shadowsocks_ohos.Ffi.Threads.Run.{
  Step, finds_none, finds_one, launches, fails_to_launch, attaches, prepares, fails_to_prepare,
  stores, stops, leaves, IsReached, then_step, begins, reads_config, rejects_config, locks,
  locks_to_stop, asks_running, sets_stat, clones_error, hands_out, core_fails,
}
use shadowsocks_ohos.Ffi.Threads.Stages.{Parsed}
use shadowsocks_ohos.Ffi.Threads.Invariant.{Knows}
use shadowsocks_ohos.Ffi.Threads.Keeps.{at_lock}
use shadowsocks_ohos.Ffi.Threads.Moves.{attach-with_stat}
use shadowsocks_ohos.Ffi.Threads.Running.{IsReached-Inv}
use shadowsocks_ohos.Ffi.Threads.Calm.{
  HaveSites, before_lock-IsQuiet, launch-IsQuiet, prepare-IsQuiet, IsQuiet-Returns,
}

-- How many steps of its own a thread is from the release of the lock, at most.
abbrev pub to_go : Held → ℕ
to_go (locked st x) = 6
to_go (checked st x) = 5
to_go (loaded st y) = 4
to_go (attached st y) = 3
to_go (prepared st y) = 2
to_go stopping = 2
to_go leaving = 1

to_go-le : (h : Held) → to_go h ≤ 6
to_go-le (locked st x) = omega arith
to_go-le (checked st x) = omega arith
to_go-le (loaded st y) = omega arith
to_go-le (attached st y) = omega arith
to_go-le (prepared st y) = omega arith
to_go-le stopping = omega arith
to_go-le leaving = omega arith

to_go-positive : (h : Held) → 0 < to_go h
to_go-positive (locked st x) = omega arith
to_go-positive (checked st x) = omega arith
to_go-positive (loaded st y) = omega arith
to_go-positive (attached st y) = omega arith
to_go-positive (prepared st y) = omega arith
to_go-positive stopping = omega arith
to_go-positive leaving = omega arith

abbrev pub left : Lock → ℕ
left free = 0
left (held i h) = to_go h

-- The thread that takes a step; none is one of the core's own.
abbrev pub mover : {s t : System} → Step s t → Option ℕ
mover (begins i _ _) = some i
mover (reads_config i _ _) = some i
mover (rejects_config i _ _) = some i
mover (locks i _ _) = some i
mover (finds_none i _ _) = some i
mover (finds_one i _ _) = some i
mover (launches i _ _) = some i
mover (fails_to_launch i _ _) = some i
mover (attaches i _ _) = some i
mover (prepares i _ _) = some i
mover (fails_to_prepare i _ _) = some i
mover (stores i _ _) = some i
mover (locks_to_stop i _ _) = some i
mover (stops i _ _) = some i
mover (leaves i _) = some i
mover (asks_running i _ _) = some i
mover (sets_stat i _ _) = some i
mover (clones_error i _) = some i
mover (hands_out i _) = some i
mover (core_fails e) = none

-- No thread but `i` is inside the lock.
abbrev OnlyIn : ℕ → Lock → Type 0
OnlyIn i free = Unit
OnlyIn i (held j h) = j ≡ i

-- A step of thread `i` after which less than `n` are left.
abbrev Advances : ℕ → ℕ → System → Type 0
Advances i n s =
    (t : System) × ((step : Step s t) × (mover step ≡ some i) × OnlyIn i t.lock × (left t.lock < n))

module _ {s : System} (i : ℕ) where
  launch-Advances :
      {st : Start} {x : Value × List PluginSpec}
      → s.lock ≡ held i (checked st x)
      → Parsed st.env st x
      → Advances i 5 s
  launch-Advances {st} {x} at parsed =
      let all : HaveSites x =
        (subst (QuietAt HaveSites s.globals) (parsed s.globals)
          ((before_lock-IsQuiet st.env st).quiet s.globals)).1 in
      elim (IsQuiet-Returns (launch-IsQuiet st.env x all) s.globals) [
        | inl (y, g, e) ↦ (_, (launches i at e, refl, refl, omega arith))
        | inr (c, g, e) ↦ (_, (fails_to_launch i at e, refl, refl, omega arith))
      ]

  prepare-Advances :
      {st : Start} {config : Config} {forwarders : List Forwarder}
      → s.lock ≡ held i (attached st (config, forwarders))
      → Advances i 3 s
  prepare-Advances {st} {config} at =
      elim (IsQuiet-Returns (prepare-IsQuiet st.env st config) s.globals) [
        | inl (y, g, e) ↦ (_, (prepares i at e, refl, refl, omega arith))
        | inr (c, g, e) ↦ (_, (fails_to_prepare i at e, refl, refl, omega arith))
      ]

  check-Advances :
      {st : Start} {x : Value × List PluginSpec} → s.lock ≡ held i (locked st x) → Advances i 6 s
  unfolding raise
  check-Advances at = elim (Option-cases s.globals.instance_slot) [
    | inl idle ↦ (_, (finds_none i at (not_running-elim s.globals idle), refl, refl, omega arith))
    | inr (instance, busy) ↦
        (_, (finds_one i at (not_running-elim s.globals busy), refl, refl, omega arith))
  ]

  holder-Advances :
      (h : Held) → s.lock ≡ held i h → Knows h s.globals.instance_slot → Advances i (to_go h) s
  unfolding store
  holder-Advances (locked st x) at k = check-Advances at
  holder-Advances (checked st x) at k = launch-Advances at k.1
  holder-Advances (loaded st (config, forwarders)) at k =
      (_, (attaches i at (attach-with_stat config s.globals), refl, refl, omega arith))
  holder-Advances (attached st y) at k = prepare-Advances at
  holder-Advances (prepared st y) at k = (_, (stores i at refl, refl, refl, omega arith))
  holder-Advances stopping at k = (_, (stops i at refl, refl, refl, omega arith))
  holder-Advances leaving at k = (_, (leaves i at, refl, tt, omega arith))

-- `n` steps of thread `i` at most, and no other's.
pub data Alone (i : ℕ) : ℕ → System → System → Type 0 where
  ready : {n : ℕ} {s : System} → Alone i n s s
  first :
      {n : ℕ} {s t u : System} (step : Step s t)
      → mover step ≡ some i
      → Alone i n t u
      → Alone i (suc n) s u

release :
    (n i : ℕ) (s : System) (l : Lock)
    → IsReached s
    → s.lock ≡ l
    → left l ≤ n
    → OnlyIn i l
    → (t : System) × Alone i n s t × (t.lock ≡ free)
release n i s free reached at few only = (s, ready, at)
release zero i s (held j h) reached at few only = absurd (omega (arith, to_go-positive h))
release (suc n) i s (held j h) reached at few only =
    let mine = subst (λ j. s.lock ≡ held j h) only at in
    let (t, (step, own, still, less)) =
      holder-Advances i h mine (at_lock (IsReached-Inv s reached) at).1 in
    let (u, rest, done) =
      release n i t t.lock (then_step reached step) refl (omega (arith, few, less)) still in
    (u, first step own rest, done)

-- In every reachable state, a thread that is inside the lock of the instance can release it by six steps
-- of its own, or fewer, whatever the other threads have done before.
pub IsReached-release :
    (s : System) (i : ℕ) (h : Held)
    → IsReached s
    → s.lock ≡ held i h
    → (t : System) × Alone i 6 s t × (t.lock ≡ free)
IsReached-release s i h reached at = release 6 i s (held i h) reached at (to_go-le h) refl
