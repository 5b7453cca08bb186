-- ===== src/Tests/Ffi.antt =====
-- The entry points on a system that answers.
use shadowsocks_ohos.Prelude.{◌≡◌, refl, [], ◌∷◌, none, some, codes, equal, ◌+◌}
use shadowsocks_ohos.Json.{Value, str, num, arr, obj, nil, cons, end, field}
use shadowsocks_ohos.Ffi.State.{
  pos, negsuc, tun, Config, Globals, ok, err, done, text, pure, raise, attempt, ◌>>=◌,
}
use shadowsocks_ohos.Ffi.Specs.{server, required, parsed, or_panic}
use shadowsocks_ohos.Ffi.State.{cstr_arg}
use shadowsocks_ohos.Ffi.Start.{
  Env, start_with_json, tun_index, sslocal_start, sslocal_start_tun_fd,
}
use shadowsocks_ohos.Ffi.Control.{sslocal_stop, sslocal_is_running}
use shadowsocks_ohos.Ffi.Session.SetUp.{SetsUp, start_with_json-SetsUp}
use shadowsocks_ohos.Ffi.Session.Tun.{Chooses, tun_index-Chooses}
use shadowsocks_ohos.Ffi.Session.Starts.{StartsAt, sslocal_start-StartsAt}
use shadowsocks_ohos.Ffi.Session.Steps.{StopsAt, sslocal_stop-StopsAt, initial}

-- A server entry with a plugin, in a `servers` array.
abbrev json : Value
json = obj (
    field (codes "servers")
      (arr (
        cons
          (obj (
            field (codes "server") (str (codes "example.org")) (
              field (codes "server_port") (num 8388) (
                field (codes "plugin") (str (codes "obfs-local"))
                  (field (codes "plugin_opts") (str (codes "obfs=tls")) end)))))
          nil))
      end)

abbrev config : Config
config = record {
  locals =
      record { protocol = tun; tun_device_fd = none; tun_interface_name = none; rest = 0 } ∷ [];
  local_stat_addr = none;
  rest = 0;
}

abbrev pub system : Env
system = record {
  build_runtime = done tt;
  listen = λ k. done (40_000 + k);
  from_str = λ _. done json;
  load_config = λ _. done config;
  dup = λ _. pos 9;
  last_os_error = codes "none";
  tun_name = λ _. some (codes "tun0");
  from_utf8 = λ s. some s;
  parse_addr = λ s. done s;
}

abbrev started : Globals
started = (sslocal_start_tun_fd system (text []) (pos 5) initial).1

starts : sslocal_is_running started ≡ pos 1
unfolding sslocal_start_tun_fd sslocal_is_running equal pure raise attempt ◌>>=◌ required parsed
    or_panic cstr_arg
starts = refl

refuses_twice : (sslocal_start_tun_fd system (text []) (pos 5) started).0 ≡ err (negsuc 2)
unfolding sslocal_start_tun_fd sslocal_is_running equal pure raise attempt ◌>>=◌ required parsed
    or_panic cstr_arg
refuses_twice = refl

refuses_fd : (sslocal_start_tun_fd system (text []) (negsuc 0) initial).0 ≡ err (negsuc 0)
unfolding sslocal_start_tun_fd raise
refuses_fd = refl

sslocal_start-StartsAt_example :
    StartsAt initial (sslocal_start system (text []) initial)
    × StartsAt initial (sslocal_start_tun_fd system (text []) (pos 5) initial)
sslocal_start-StartsAt_example = sslocal_start-StartsAt system (text []) (pos 5) initial

sslocal_stop-StopsAt_example : StopsAt started (sslocal_stop started)
sslocal_stop-StopsAt_example = sslocal_stop-StopsAt started

tun_index-Chooses_example : Chooses config.locals (tun_index config.locals)
tun_index-Chooses_example = tun_index-Chooses config.locals

-- A start that points the server at its forwarder.
abbrev begun : Globals
begun = (start_with_json system json pure initial).1

begins : start_with_json system json pure initial ≡ (ok tt, begun)
unfolding start_with_json equal pure raise attempt ◌>>=◌ required parsed or_panic
begins = refl

start_with_json-SetsUp_example : SetsUp system json (server 0) (codes "server_port") initial begun
unfolding equal
start_with_json-SetsUp_example =
    start_with_json-SetsUp system json pure (server 0) (codes "server_port") initial begun refl
      begins
