-- ===== src/Tests/Threads.antt =====
-- Two threads that call the entry points at the same time.
use shadowsocks_ohos.Prelude.{ℕ, ◌≤◌, ◌+◌, ◌≡◌, refl, none, some, [], codes, equal}
use shadowsocks_ohos.Ffi.State.{pos, null, text, pure, raise, attempt, ◌>>=◌, bound, cstr_arg}
use shadowsocks_ohos.Ffi.Specs.{required, parsed, or_panic}
use shadowsocks_ohos.Ffi.Start.{not_running, attach_stat_address, store}
use shadowsocks_ohos.Ffi.Control.{sslocal_is_running, sslocal_set_stat_address}
use shadowsocks_ohos.Ffi.Threads.{Start, before_lock, launch, prepare, System, free}
use shadowsocks_ohos.Ffi.Threads.Run.{
  Step, begins, reads_config, rejects_config, locks, finds_none, launches, attaches, prepares,
  stores, leaves, asks_running, sets_stat, clones_error, hands_out, at_load, IsReached, at_first,
  then_step,
}
use shadowsocks_ohos.Ffi.Threads.Running.{Serialises, IsReached-Serialises}
use shadowsocks_ohos.Ffi.Threads.Counts.{starts_one, stops_one, tally, IsReached-running}
use shadowsocks_ohos.Ffi.Threads.Progress.{Alone, IsReached-release}
use shadowsocks_ohos.Ffi.Session.Steps.{IsCString}
use shadowsocks_ohos.Ffi.Threads.Readable.{IsReached-IsCString}
use shadowsocks_ohos.Tests.Ffi.{system}

abbrev Ran : Type 0
Ran = (s : System) × IsReached s

abbrev go : (r : Ran) {t : System} → Step r.0 t → Ran
go r {t} step = (t, then_step r.1 step)

abbrev first_start : Start
first_start = record { env = system; config_json = text []; tun_fd = some (pos 5) }

abbrev second_start : Start
second_start = record { env = system; config_json = null; tun_fd = none }

-- The first thread has found no instance, when the second one's config is refused; it has looked for the
-- stat address, when the second one sets it, asks for the error and has not got it yet.
unfoldable about_to_store : Ran
unfolding before_lock launch prepare not_running attach_stat_address pure raise attempt ◌>>=◌ bound
    required parsed or_panic cstr_arg equal sslocal_set_stat_address
about_to_store =
    let r = go (at_load, at_first) (begins 0 first_start refl) in
    let r = go r (reads_config 0 refl refl) in
    let r = go r (locks 0 refl refl) in
    let r = go r (finds_none 0 refl refl) in
    let r = go r (begins 1 second_start refl) in
    let r = go r (rejects_config 1 refl refl) in
    let r = go r (launches 0 refl refl) in
    let r = go r (attaches 0 refl refl) in
    let r = go r (sets_stat 1 {env = system} {addr = text (codes "a:1")} refl refl) in
    let r = go r (clones_error 1 refl) in go r (prepares 0 refl refl)

-- It stores its instance and leaves; the second thread gets the error and asks whether one runs.
unfoldable all_done : Ran
unfolding about_to_store store
all_done =
    let r = go about_to_store (stores 0 refl refl) in
    let r = go r (leaves 0 refl) in
    let r = go r (hands_out 1 refl) in go r (asks_running 1 refl refl)

IsReached-Serialises_example : Serialises all_done.0.log all_done.0.globals
unfolding all_done
IsReached-Serialises_example = IsReached-Serialises all_done.0 all_done.1 refl

IsReached-running_example :
    (n : ℕ) × (n ≤ 1)
    × (tally starts_one all_done.0.log ≡ tally stops_one all_done.0.log + n)
    × (sslocal_is_running all_done.0.globals ≡ pos n)
unfolding all_done
IsReached-running_example = IsReached-running all_done.0 all_done.1 refl

IsReached-release_example : (t : System) × Alone 0 6 about_to_store.0 t × (t.lock ≡ free)
unfolding about_to_store
IsReached-release_example = IsReached-release about_to_store.0 0 _ about_to_store.1 refl

IsReached-IsCString_example :
    IsCString all_done.0.globals.last_error × IsCString all_done.0.globals.last_error_handed_out
unfolding all_done
IsReached-IsCString_example = IsReached-IsCString all_done.0 all_done.1
