-- ===== src/NetHelper/Client.antt =====
-- How the client of native/sslocal-ffi/examples/net_helper.rs ends.
use shadowsocks_ohos.Prelude.{
  ℕ, zero, suc, ◌+◌, ◌*◌, ◌<◌, ◌≡◌, ◌≢◌, ◌⊎◌, inl, inr, refl, true, false, length, arith, ap, ◌∙◌,
  Bool,
}
use shadowsocks_ohos.Io.{Answer, done, failed, IoError}
use shadowsocks_ohos.NetHelper.{
  Report, mismatch, failed_with, retried, ClientEnd, client_retry_delay, on_attempt, attempts,
  run_client,
}

-- The attempts from number `i` on, `n` of them, fail, each in its way.
abbrev pub Fails : (ℕ → Answer IoError Bool) → ℕ → ℕ → Type 0
Fails try_it i zero = Unit {0}
Fails try_it i (suc n) = (try_it i ≢ done true) × Fails try_it (suc i) n

-- The client has failed `k` times, with a report and a sleep each.
abbrev pub HasFailed : (ℕ → Answer IoError Bool) → ℕ → ℕ → ClientEnd → Type 0
HasFailed try_it i k end =
    Fails try_it i k × (length end.reports ≡ k) × (end.slept ≡ client_retry_delay * k)

-- One of `n` attempts is the first to be answered right, or none is.
abbrev pub Ends : (ℕ → Answer IoError Bool) → ℕ → ℕ → ClientEnd → Type 0
Ends try_it i n end =
    ((k : ℕ) × (k < n) × HasFailed try_it i k end × (try_it (i + k) ≡ done true) × (end.code ≡ 0))
    ⊎ (HasFailed try_it i n end × (end.code ≡ 1))

-- One more failure in front.
retried-Ends :
    (try_it : ℕ → Answer IoError Bool) (i n : ℕ) (report : Report) (rest : ClientEnd)
    → try_it i ≢ done true
    → Ends try_it (suc i) n rest
    → Ends try_it i (suc n) (retried report rest)
retried-Ends try_it i n report rest wrong (inl (k, less, (fails, reports, slept), right, code)) =
    inl (
      suc k,
      omega arith,
      ((wrong, fails), ap suc reports, omega (arith, slept)),
      ap try_it {x = i + suc k} {y = suc i + k} (omega arith) ∙ right,
      code,
    )
retried-Ends try_it i n report rest wrong (inr ((fails, reports, slept), code)) =
    inr (((wrong, fails), ap suc reports, omega (arith, slept)), code)

attempts-Ends : (try_it : ℕ → Answer IoError Bool) (n i : ℕ) → Ends try_it i n (attempts try_it n i)
unfolding attempts
attempts-Ends try_it zero i = inr ((tt, refl, refl), refl)
attempts-Ends try_it (suc n) i = answered (try_it i) refl (attempts-Ends try_it n (suc i))
  where
    answered :
        (a : Answer IoError Bool)
        → try_it i ≡ a
        → Ends try_it (suc i) n (attempts try_it n (suc i))
        → Ends try_it i (suc n) (on_attempt i (attempts try_it n (suc i)) a)
    answered (done true) e rest =
        inl
          (0, omega arith, (tt, refl, refl), ap try_it {x = i + 0} {y = i} (omega arith) ∙ e, refl)
    answered (done false) e rest =
        retried-Ends try_it i n (mismatch i) (attempts try_it n (suc i)) (λ right. cc) rest
    answered (failed x) e rest =
        retried-Ends try_it i n (failed_with i x) (attempts try_it n (suc i)) (λ right. cc) rest

-- The client exits with 0 at the first of its 30 attempts that is answered right, behind a report and
-- half a second of sleep for each that was not; if none is, it exits with 1 behind 30 of them.
pub run_client-Ends : (try_it : ℕ → Answer IoError Bool) → Ends try_it 0 30 (run_client try_it)
unfolding run_client
run_client-Ends try_it = attempts-Ends try_it 30 0
