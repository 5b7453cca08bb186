-- ===== src/Tests/Plugin.antt =====
-- A forwarder whose listener is short of descriptors once and then gone.
use shadowsocks_ohos.Prelude.{◌+◌, ◌*◌, ◌≤◌, ◌≡◌, refl, [], ◌∷◌, List, some, Text, codes, length}
use shadowsocks_ohos.Io.{IoError, other}
use shadowsocks_ohos.Plugin.{PluginKind, simple_obfs_http}
use shadowsocks_ohos.Plugin.Accept.{
  Errno, Accepted, connection, failed, relay, sleep, give_up, accept_loop,
}
use shadowsocks_ohos.Plugin.Accept.Serves.{
  Serves, waited, relays, accept_loop-Serves, length-accept_loop,
}

abbrev os : Errno
os = record { emfile = 24; enfile = 23; enobufs = 105; enomem = 12 }

abbrev kind : PluginKind
kind = simple_obfs_http []

abbrev host : Text
host = codes "example.org"

abbrev too_many_files : IoError
too_many_files = record { kind = other 24; raw_os_error = some 24; message = [] }

abbrev bad_descriptor : IoError
bad_descriptor = record { kind = other 9; raw_os_error = some 9; message = [] }

abbrev answers : List Accepted
answers =
    connection 1 ∷ failed too_many_files ∷ connection 2 ∷ failed bad_descriptor ∷ connection 3 ∷ []

two_served :
    accept_loop os kind host 8388 answers
    ≡ relay 1 kind host 8388 ∷ sleep 100 ∷ relay 2 kind host 8388 ∷ give_up bad_descriptor ∷ []
unfolding accept_loop
two_served = refl

accept_loop-Serves_example :
    Serves os kind host 8388 answers (accept_loop os kind host 8388 answers)
accept_loop-Serves_example = accept_loop-Serves os kind host 8388 answers

length-accept_loop_example :
    100 * length (accept_loop os kind host 8388 answers)
    ≤ 100 * (relays (accept_loop os kind host 8388 answers) + 1)
      + waited (accept_loop os kind host 8388 answers)
length-accept_loop_example = length-accept_loop os kind host 8388 answers
