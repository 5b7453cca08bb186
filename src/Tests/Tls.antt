-- ===== src/Tests/Tls.antt =====
-- The TLS wrapper on a pipe.
use shadowsocks_ohos.Prelude.{
  none, Option, ◌+◌, ◌≤◌, ◌<◌, ◌^◌, min, ◌≡◌, refl, [], ◌∷◌, ◌++◌, true, some, Bytes, Text, codes,
  length, take, replicate, arith, leb→le,
}
use shadowsocks_ohos.Encode.{utf8, be16}
use shadowsocks_ohos.Io.{Poll, ok}
use shadowsocks_ohos.Obfs.Drain.{drain}
use shadowsocks_ohos.Obfs.Tls.{
  TlsObfs, Entropy, new, build_client_hello, framed, tls_chunk_size, poll_read, poll_write,
  poll_flush, poll_shutdown,
}
use shadowsocks_ohos.Obfs.Tls.Hello.{read_client_hello}
use shadowsocks_ohos.Obfs.Tls.Hello.RoundTrip.{read_client_hello-build_client_hello}
use shadowsocks_ohos.Obfs.Tls.Surface.{skip, surface, records, joined, surface-response}
use shadowsocks_ohos.Obfs.Tls.Read.{new-IsValid, readable, IsValid, Surfaces, rounds}
use shadowsocks_ohos.Obfs.Tls.Read.Loop.{poll_read-Surfaces}
use shadowsocks_ohos.Obfs.Tls.Write.Session.{
  Accepts, answered, retried, Follows, none_yet, then_write, writes-records,
}
use shadowsocks_ohos.Obfs.Tls.Write.Flush.{Keeps, poll_flush-Keeps}
use shadowsocks_ohos.Tests.Pipe.{Pipe, accept, pipe, pipe-IsStream, fresh}

abbrev two : Bytes
two = 1 ∷ 2 ∷ []

abbrev handshake : Bytes
handshake = replicate 105 1

abbrev answer : Option (Poll Bytes × TlsObfs Pipe) → Option (Poll Bytes)
answer none = none
answer (some (r, _)) = some r

abbrev pub server : Text
server = codes "example.org"

abbrev pub rng : Entropy
rng = record { random = replicate 28 7; session_id = replicate 32 9; now = 1_700_000_000 }

-- A server's handshake, a payload of two bytes and a record of three.
abbrev response : Bytes
response = handshake ++ (be16 2 ++ ((4 ∷ 5 ∷ []) ++ records ((6 ∷ 7 ∷ 8 ∷ []) ∷ [])))

abbrev pub start : TlsObfs Pipe
start = new (fresh response) server

reads_payload : answer (poll_read pipe 500 100 start) ≡ some (ok (4 ∷ 5 ∷ []))
unfolding new poll_read framed
reads_payload = refl

pub start-IsValid : IsValid pipe pipe-IsStream start
start-IsValid = new-IsValid pipe pipe-IsStream (fresh response) server

start-rounds : rounds pipe pipe-IsStream start < 500
unfolding new framed
start-rounds = omega arith

poll_read-Surfaces_example :
    Surfaces pipe pipe-IsStream 100
      (readable pipe pipe-IsStream start)
      (poll_read pipe 500 100 start)
poll_read-Surfaces_example =
    poll_read-Surfaces pipe pipe-IsStream 500 100 start start-IsValid start-rounds

hand : length handshake ≡ 105
hand = refl

surface-response_example :
    surface (skip 105) response ≡ (4 ∷ 5 ∷ []) ++ joined ((6 ∷ 7 ∷ 8 ∷ []) ∷ [])
surface-response_example =
    surface-response handshake (4 ∷ 5 ∷ []) ((6 ∷ 7 ∷ 8 ∷ []) ∷ []) hand (omega arith)
      (omega arith, tt)

random_size : length rng.random ≡ 28
random_size = refl

session_size : length rng.session_id ≡ 32
session_size = refl

name_size : length (utf8 server) ≡ 11
unfolding utf8
name_size = refl

name_fits : 212 + length two + length (utf8 server) < 2 ^ 16
name_fits = omega (arith, name_size)

read_client_hello-build_client_hello_example :
    (read_client_hello (build_client_hello rng two server) ≡ some (two, utf8 server))
    × (length (build_client_hello rng two server) ≡ 217 + length two + length (utf8 server))
read_client_hello-build_client_hello_example =
    read_client_hello-build_client_hello rng two server random_size session_size name_fits

abbrev pub greeting : Bytes
greeting = 5 ∷ 6 ∷ 7 ∷ []

abbrev pub waiting : TlsObfs Pipe
waiting = (poll_write pipe rng greeting start).1

abbrev written : TlsObfs Pipe
written = (poll_write pipe rng greeting waiting).1

abbrev later : TlsObfs Pipe
later = (poll_write pipe rng (8 ∷ 9 ∷ []) written).1

pub idle : start.write_buf ≡ []
unfolding new
idle = refl

first : start.first_request ≡ true
unfolding new
first = refl

start_write : Accepts pipe greeting 3 written rng start
unfolding new poll_write build_client_hello utf8 drain accept
start_write = retried {r' = rng} {h' = waiting} refl (answered refl)

later_write : Follows pipe written ([] ++ take 2 (8 ∷ 9 ∷ []) ∷ []) later
unfolding new poll_write build_client_hello utf8 framed drain accept
later_write = then_write {buf = 8 ∷ 9 ∷ []} {n = 2} {r = rng} none_yet refl (answered refl)

waiting_inside : waiting.write_buf_off ≤ length waiting.write_buf
unfolding new poll_write build_client_hello utf8 drain accept
waiting_inside = leb→le waiting.write_buf_off (length waiting.write_buf) refl

name_short : length (utf8 server) ≤ 48_939
name_short = omega (arith, name_size)

writes-records_example :
    (3 ≡ min (length greeting) tls_chunk_size)
    × ((hello : Bytes) × (rest : Bytes) × (later.inner.sent ≡ start.inner.sent ++ (hello ++ rest))
        × (read_client_hello hello ≡ some (take 3 greeting, utf8 server))
        × (surface (skip 3) rest ≡ joined ([] ++ take 2 (8 ∷ 9 ∷ []) ∷ [])))
unfolding new
writes-records_example =
    writes-records pipe pipe-IsStream greeting start idle first refl random_size session_size
      name_short start_write later_write

poll_flush-Keeps_example :
    Keeps pipe pipe-IsStream waiting (poll_flush pipe waiting)
    × Keeps pipe pipe-IsStream waiting (poll_shutdown pipe waiting)
poll_flush-Keeps_example = poll_flush-Keeps pipe pipe-IsStream waiting waiting_inside
