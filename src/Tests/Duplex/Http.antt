-- ===== src/Tests/Duplex/Http.antt =====
-- Reads of the HTTP wrapper behind a write.
use shadowsocks_ohos.Prelude.{Option, ◌≡◌, refl, [], ◌∷◌, ◌++◌, none, some, Bytes, equal, arith}
use shadowsocks_ohos.Encode.{utf8, decimal}
use shadowsocks_ohos.Io.{Poll, ok}
use shadowsocks_ohos.Obfs.Drain.{drain}
use shadowsocks_ohos.Obfs.Http.{
  HttpObfs, new, host_header, build_http_request, find_double_crlf, poll_read, poll_write,
}
use shadowsocks_ohos.Obfs.Http.Read.Bounds.{IsSmall, AnswersSmall, poll_read-AnswersSmall}
use shadowsocks_ohos.Obfs.Http.Duplex.{
  Calls, Delivers, none_yet, then_read, then_write, Calls-Delivers,
}
use shadowsocks_ohos.Tests.Pipe.{Pipe, accept, pipe, pipe-IsStream}
use shadowsocks_ohos.Tests.Http.{start, rng, greeting, waiting, start-IsValid}

-- The state behind an answer.
abbrev pub behind : HttpObfs Pipe → Option (Poll Bytes × HttpObfs Pipe) → HttpObfs Pipe
behind h none = h
behind h (some (_, g)) = g

abbrev read_once : HttpObfs Pipe
read_once = behind start (poll_read pipe 2 start)

abbrev pub two : Bytes
two = 1 ∷ 2 ∷ []

once : poll_read pipe 2 start ≡ some (ok two, read_once)
unfolding new poll_read find_double_crlf equal
once = refl

start-IsSmall : IsSmall pipe pipe-IsStream start
unfolding new
start-IsSmall = record {
  scratch_small = omega arith;
  leftover_small = omega arith;
  nothing_left = λ _. refl;
}

poll_read-AnswersSmall_example : AnswersSmall pipe pipe-IsStream (ok two) read_once
poll_read-AnswersSmall_example =
    poll_read-AnswersSmall pipe pipe-IsStream 2 start read_once start-IsSmall once

-- The write waits, and the read behind it is answered.
abbrev pub read_waiting : HttpObfs Pipe
read_waiting = behind waiting (poll_read pipe 2 waiting)

waits_and_reads : poll_read pipe 2 waiting ≡ some (ok two, read_waiting)
unfolding new poll_read find_double_crlf equal poll_write build_http_request host_header utf8
    decimal drain accept
waits_and_reads = refl

pub calls : Calls pipe start ([] ++ two) read_waiting
calls = then_read 2 (then_write rng greeting none_yet) waits_and_reads

Calls-Delivers_example : Delivers pipe pipe-IsStream start ([] ++ two) read_waiting
Calls-Delivers_example = Calls-Delivers pipe pipe-IsStream start start-IsValid calls
