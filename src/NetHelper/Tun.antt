-- ===== src/NetHelper/Tun.antt =====
-- The tun role of native/sslocal-ffi/examples/net_helper.rs, on the library of native/sslocal-ffi/src/lib.rs.
use shadowsocks_ohos.Prelude.{
  ℕ, zero, suc, ◌≤◌, ◌≡◌, ◌≢◌, refl, ap, ◌∙◌, false, [], ◌∷◌, none, some, Bytes, Text, take,
  replicate, All, ◌==◌, ==_iff, Bool-cases, inl, inr, if◌then◌else◌, if_false, arith,
}
use shadowsocks_ohos.Encode.{utf8}
use shadowsocks_ohos.Io.{Answer, done, failed, IoError}
use shadowsocks_ohos.Ffi.State.{ℤ, pos, sslocal_ok, Outcome, ok, err, panic, Globals, text, has_nul}
use shadowsocks_ohos.Ffi.Start.{Env, until_nul, if_named, recover_tun_name, sslocal_start_tun_fd}
use shadowsocks_ohos.Ffi.Control.{sslocal_last_error, sslocal_is_running}
use shadowsocks_ohos.Ffi.Session.Starts.{StartsAt, sslocal_start-StartsAt}
use shadowsocks_ohos.NetHelper.{
  overlay, ifr_name, Kernel, open_tun, TunEnd, no_device, nul_in_config, core_panicked,
  start_failed, routes, tun_started, run_tun,
}

-- Free of NULs.
abbrev pub NoNul : Bytes → Type 0
NoNul s = All (λ b. b ≢ 0) s

until_nul-zeros : (k : ℕ) → until_nul (replicate k 0) ≡ []
unfolding until_nul
until_nul-zeros zero = refl
until_nul-zeros (suc k) = refl

-- A name in a longer buffer of zeros ends where it ends.
until_nul-overlay :
    (n k : ℕ) (name : Bytes)
    → n ≤ k
    → NoNul name
    → until_nul (overlay n name (replicate k 0)) ≡ take n name
unfolding until_nul overlay
until_nul-overlay zero k name h free = until_nul-zeros k
until_nul-overlay (suc n) k [] h free = until_nul-zeros k
until_nul-overlay (suc n) zero (b ∷ name) h free = absurd (omega arith)
until_nul-overlay (suc n) (suc k) (b ∷ name) h free =
    if_false _ _ (not_nul b free.0)
    ∙ ap (λ s. b ∷ s) (until_nul-overlay n k name (omega arith) free.1)
  where
    not_nul : (b : ℕ) → b ≢ 0 → (b == 0) ≡ false
    not_nul b h = ground (arith, ==_iff b 0)

-- The library finds the name that the helper has given to a tun device it opened, cut to the first
-- fifteen bytes of its UTF-8: if it holds no NUL, the bytes that are left are the UTF-8 of a name of at
-- least one character, those decode to that name, and the kernel gives back the bytes that it was given.
pub recover_tun_name-ifr_name :
    (env : Env) (fd : ℤ) (ifname name : Text)
    → NoNul (utf8 ifname)
    → take 15 (utf8 ifname) ≡ utf8 name
    → name ≢ []
    → env.from_utf8 (utf8 name) ≡ some name
    → env.tun_name fd ≡ some (ifr_name ifname)
    → recover_tun_name env fd ≡ some name
unfolding recover_tun_name ifr_name
recover_tun_name-ifr_name env fd ifname [] free cut given decodes e = absurd (given refl)
recover_tun_name-ifr_name env fd ifname (c ∷ name) free cut given decodes e =
    rw (recover_tun_name, e)
      (ap (λ s. if_named (env.from_utf8 s))
          (until_nul-overlay 15 16 (utf8 ifname) (omega arith) free ∙ cut)
        ∙ ap if_named decodes)

-- How the tun role goes on, from a state: a start that fails has a code of failure and a message, and
-- leaves the instance; and while packets are routed one runs.
abbrev pub Goes : Globals → TunEnd → Type 0
Goes g (no_device e) = Unit {0}
Goes g nul_in_config = Unit {0}
Goes g core_panicked = ⊥
Goes g (start_failed code message g') =
    (code ≢ sslocal_ok) × ((m : Text) × (message ≡ some m)) × (g'.instance_slot ≡ g.instance_slot)
Goes g (routes fd g') = (g.instance_slot ≡ none) × (sslocal_is_running g' ≡ pos 1)

tun_started-Goes :
    (fd : ℕ) (g : Globals) (r : Outcome (Unit {0}) × Globals)
    → StartsAt g r
    → Goes g (tun_started fd r)
unfolding tun_started sslocal_last_error sslocal_is_running
tun_started-Goes fd g (ok u, g') (idle, (i, e)) = (idle, ap sslocal_is_running e)
tun_started-Goes fd g (err code, g') r = (r.failure, (_, r.recorded.1), r.same_instance)
tun_started-Goes fd g (panic, g') r = r

-- The library never panics under the tun role. If its start fails, the role exits with a code of
-- failure and a message that is there, and no instance has come or gone; and where it goes on to route,
-- an instance runs and none ran before.
pub run_tun-Goes :
    (env : Env) (kernel : Kernel) (config_json ifname : Text) (g : Globals)
    → Goes g (run_tun env kernel config_json ifname g)
unfolding run_tun
run_tun-Goes env kernel config_json ifname g = opened (open_tun kernel ifname)
  where
    opened :
        (a : Answer IoError ℕ)
        → Goes g (elim a [
          | failed e ↦ no_device e
          | done fd ↦
              if has_nul config_json
              then nul_in_config
              else tun_started fd (sslocal_start_tun_fd env (text config_json) (pos fd) g)
        ])
    opened (failed e) = tt
    opened (done fd) = elim (Bool-cases (has_nul config_json)) [
      | inl nul ↦ rw nul tt
      | inr free ↦
          rw free
            (tun_started-Goes fd g _ (sslocal_start-StartsAt env (text config_json) (pos fd) g).1)
    ]
