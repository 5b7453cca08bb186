-- ===== src/Tests/Duplex/Tls.antt =====
-- Reads of the TLS wrapper behind a write, and to the end; a flush between a write and its retry.
use shadowsocks_ohos.Prelude.{
  Option, ◌<◌, ◌≡◌, refl, [], ◌∷◌, ◌++◌, none, some, Bytes, length, arith,
}
use shadowsocks_ohos.Encode.{utf8}
use shadowsocks_ohos.Io.{Poll, pending, ok}
use shadowsocks_ohos.Obfs.Drain.{drain}
use shadowsocks_ohos.Obfs.Tls.{
  TlsObfs, new, build_client_hello, framed, poll_read, poll_write, poll_flush,
}
use shadowsocks_ohos.Obfs.Tls.Read.{readable, rounds}
use shadowsocks_ohos.Obfs.Tls.Read.Finish.{IsReady, read_all, read_all-readable}
use shadowsocks_ohos.Obfs.Tls.Duplex.{
  Calls, Conveys, none_yet, then_read, then_write, Calls-Conveys,
}
use shadowsocks_ohos.Obfs.Tls.Write.Flush.{flush_before_rewrite}
use shadowsocks_ohos.Tests.Pipe.{Pipe, accept, pipe, pipe-IsStream}
use shadowsocks_ohos.Tests.Tls.{start, rng, greeting, waiting, server, idle, start-IsValid}

abbrev behind : TlsObfs Pipe → Option (Poll Bytes × TlsObfs Pipe) → TlsObfs Pipe
behind h none = h
behind h (some (_, g)) = g

abbrev read_waiting : TlsObfs Pipe
read_waiting = behind waiting (poll_read pipe 500 100 waiting)

abbrev payload : Bytes
payload = 4 ∷ 5 ∷ []

waits_and_reads : poll_read pipe 500 100 waiting ≡ some (ok payload, read_waiting)
unfolding new poll_read framed poll_write build_client_hello utf8 drain accept
waits_and_reads = refl

waiting-rounds : rounds pipe pipe-IsStream waiting < 500
unfolding new framed poll_write build_client_hello utf8 drain accept
waiting-rounds = omega arith

calls : Calls pipe pipe-IsStream start ([] ++ payload) read_waiting
calls = then_read 500 100 (then_write rng greeting none_yet) waiting-rounds waits_and_reads

Calls-Conveys_example : Conveys pipe pipe-IsStream start ([] ++ payload) read_waiting
Calls-Conveys_example = Calls-Conveys pipe pipe-IsStream start start-IsValid calls

pipe-IsReady : IsReady pipe
pipe-IsReady n p = (_, refl)

start-readable : length (readable pipe pipe-IsStream start) < 10
unfolding new framed
start-readable = omega arith

read_all-readable_example :
    read_all pipe pipe-IsStream 10 3 start ≡ readable pipe pipe-IsStream start
read_all-readable_example =
    read_all-readable pipe pipe-IsStream 10 3 start pipe-IsReady (omega arith) start-IsValid
      start-readable

abbrev flushed : TlsObfs Pipe
flushed = (poll_flush pipe waiting).1

abbrev twice : TlsObfs Pipe
twice = (poll_write pipe rng greeting flushed).1

left_pending : poll_write pipe rng greeting start ≡ (pending, waiting)
unfolding new poll_write build_client_hello utf8 drain accept
left_pending = refl

then_flushed : poll_flush pipe waiting ≡ (ok tt, flushed)
unfolding new poll_write poll_flush build_client_hello utf8 drain accept
then_flushed = refl

then_written : poll_write pipe rng greeting flushed ≡ (ok 3, twice)
unfolding new poll_write poll_flush build_client_hello utf8 framed drain accept
then_written = refl

-- The payload 5 6 7 is sent twice.
flush_before_rewrite_example :
    twice.inner.sent ≡ [] ++ (build_client_hello rng greeting server ++ framed greeting)
unfolding new
flush_before_rewrite_example =
    flush_before_rewrite pipe pipe-IsStream greeting rng rng start waiting flushed twice idle refl
      left_pending then_flushed then_written
