-- ===== src/Tests/NetHelper.antt =====
-- The helper of the end-to-end test, run.
use shadowsocks_ohos.Prelude.{
  ℕ, ◌≤◌, ◌≡◌, refl, ap, List, ◌++◌, Bytes, length, leb, le→leb, All, if_true, [], ◌∷◌, Bool, true,
  false, none, some, equal, codes, take, ltb, arith, if◌then◌else◌,
}
use shadowsocks_ohos.Encode.{utf8}
use shadowsocks_ohos.Io.{Answer, done, failed, IoError, other}
use shadowsocks_ohos.Ffi.State.{pos}
use shadowsocks_ohos.Ffi.Start.{Env, recover_tun_name}
use shadowsocks_ohos.Ffi.Session.Steps.{initial}
use shadowsocks_ohos.NetHelper.Echo.{joined, IsChunk, written_back, ToEcho, run_client-echo}
use shadowsocks_ohos.NetHelper.{
  Socket, try_client, client, usage, main, Kernel, ifr_name, run_tun, run_client,
}
use shadowsocks_ohos.NetHelper.Client.{Ends, run_client-Ends}
use shadowsocks_ohos.NetHelper.Tun.{Goes, NoNul, recover_tun_name-ifr_name, run_tun-Goes}
use shadowsocks_ohos.Tests.Ffi.{system}

runs_client :
    main (codes "net_helper" ∷ codes "client" ∷ codes "a:1" ∷ codes "hi" ∷ [])
    ≡ client (codes "a:1") (codes "hi")
unfolding main equal
runs_client = refl

misses_argument :
    main (codes "net_helper" ∷ codes "client" ∷ codes "a:1" ∷ [])
    ≡ usage (codes "client <host:port> <message>")
unfolding main equal
misses_argument = refl

-- The third attempt is right.
abbrev third : ℕ → Answer IoError Bool
third i = done (if ltb i 2 then false else true)

run_client-Ends_example : Ends third 0 30 (run_client third)
run_client-Ends_example = run_client-Ends third

abbrev named : Env
named = record system { tun_name = λ _. some (ifr_name (codes "tun0")) }

tun0-NoNul : NoNul (utf8 (codes "tun0"))
unfolding utf8
tun0-NoNul = omega arith

is_short : take 15 (utf8 (codes "tun0")) ≡ utf8 (codes "tun0")
unfolding utf8
is_short = refl

in_ascii : named.from_utf8 (utf8 (codes "tun0")) ≡ some (codes "tun0")
unfolding utf8
in_ascii = refl

recover_tun_name-ifr_name_example : recover_tun_name named (pos 5) ≡ some (codes "tun0")
recover_tun_name-ifr_name_example =
    recover_tun_name-ifr_name named (pos 5) (codes "tun0") (codes "tun0") tun0-NoNul is_short
      (λ e. absurd cc) in_ascii refl

abbrev kernel : Kernel
kernel = record {
  open_dev = done 5;
  set_iff = λ fd name flags. pos 0;
  last_os_error = record { kind = other 0; raw_os_error = none; message = [] };
}

run_tun-Goes_example : Goes initial (run_tun named kernel [] (codes "tun0") initial)
run_tun-Goes_example = run_tun-Goes named kernel [] (codes "tun0") initial

-- A network that hands over one byte at a time.
abbrev one_by_one : Bytes → List Bytes
one_by_one [] = []
one_by_one (b ∷ sent) = (b ∷ []) ∷ one_by_one sent

joined-one_by_one : (sent : Bytes) → joined (one_by_one sent) ≡ sent
unfolding joined
joined-one_by_one [] = refl
joined-one_by_one (b ∷ sent) = ap (λ rest. b ∷ rest) (joined-one_by_one sent)

one_by_one-IsChunk : (sent : Bytes) → All IsChunk (one_by_one sent)
one_by_one-IsChunk [] = tt
one_by_one-IsChunk (b ∷ sent) = ((omega arith, omega arith), one_by_one-IsChunk sent)

abbrev timed_out : IoError
timed_out = record { kind = other 1; raw_os_error = none; message = [] }

abbrev echo_net : Socket Bytes
echo_net = record {
  connect = λ target. done [];
  set_read_timeout = λ n sent. done sent;
  set_write_timeout = λ n sent. done sent;
  write_all = λ more sent. done (sent ++ more);
  read_exact = λ n sent.
      let back = written_back (one_by_one sent) in
      if leb n (length back) then done (take n back) else failed timed_out;
}

reads_echo :
    (sent : Bytes) (n : ℕ)
    → n ≤ length (written_back (one_by_one sent))
    → echo_net.read_exact n sent ≡ done (take n (written_back (one_by_one sent)))
reads_echo sent n h = if_true _ _ (le→leb n _ h)

abbrev to_echo : ToEcho echo_net (codes "a:1")
to_echo = record {
  stream = λ sent. sent;
  cut = one_by_one;
  connects = refl;
  keeps_read_timeout = λ sent n. refl;
  keeps_write_timeout = λ sent n. refl;
  sends = λ sent more. refl;
  loses_nothing = joined-one_by_one;
  cuts = one_by_one-IsChunk;
  brings_back = reads_echo;
}

run_client-echo_example :
    run_client (λ i. try_client echo_net (codes "a:1") (codes "hi"))
    ≡ record { reports = []; slept = 0; code = 0 }
run_client-echo_example = run_client-echo to_echo (codes "hi")
