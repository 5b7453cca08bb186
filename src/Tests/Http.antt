-- ===== src/Tests/Http.antt =====
-- The HTTP wrapper on a pipe.
use shadowsocks_ohos.Prelude.{
  Option, ℕ, ◌+◌, ◌≤◌, ◌≡◌, refl, [], ◌∷◌, ◌++◌, true, none, some, Bytes, Text, codes, length, take,
  equal, arith, ◌↔◌, drop, leb→le,
}
use shadowsocks_ohos.Encode.{utf8, decimal, NoCr}
use shadowsocks_ohos.Io.{Poll, pending, ok}
use shadowsocks_ohos.Obfs.Drain.{drain}
use shadowsocks_ohos.Obfs.Drain.Sends.{Drained, Stops, drain-Stops}
use shadowsocks_ohos.Obfs.Http.{
  HttpObfs, Entropy, new, host_header, build_http_request, find_double_crlf, poll_read, poll_write,
  poll_flush, poll_shutdown,
}
use shadowsocks_ohos.Obfs.Http.Find.{IsAt, IsFirst, find_double_crlf_lem}
use shadowsocks_ohos.Obfs.Http.Read.{new-IsValid, readable, IsValid, Reads}
use shadowsocks_ohos.Obfs.Http.Read.Loop.{poll_read-Reads}
use shadowsocks_ohos.Obfs.Http.Write.Session.{
  Accepts, answered, retried, Follows, none_yet, then_write, writes-payload,
}
use shadowsocks_ohos.Obfs.Http.Write.Flush.{Flushes, poll_flush-Flushes, flush_before_retry}
use shadowsocks_ohos.Tests.Pipe.{Pipe, accept, pipe, pipe-IsStream, fresh}

abbrev answer : Option (Poll Bytes × HttpObfs Pipe) → Option (Poll Bytes)
answer none = none
answer (some (r, _)) = some r

abbrev pub server : Text
server = codes "example.org"

abbrev pub rng : Entropy
rng = record {
  rand_bytes = 1 ∷ 2 ∷ 3 ∷ [];
  ua_maj_word = 100;
  ua_min_word = 7;
  encode = λ _. codes "AQID";
}

abbrev pub response : Bytes
response = 72 ∷ 13 ∷ 10 ∷ 13 ∷ 10 ∷ 1 ∷ 2 ∷ 3 ∷ []

abbrev pub start : HttpObfs Pipe
start = new (fresh response) server 8388

head_end : find_double_crlf response ≡ some 1
unfolding find_double_crlf equal
head_end = refl

reads_body : answer (poll_read pipe 2 start) ≡ some (ok (1 ∷ 2 ∷ []))
unfolding new poll_read find_double_crlf equal
reads_body = refl

pub start-IsValid : IsValid pipe pipe-IsStream start
start-IsValid = new-IsValid pipe pipe-IsStream (fresh response) server 8388

poll_read-Reads_example :
    Reads pipe pipe-IsStream 2 (readable pipe pipe-IsStream start) (poll_read pipe 2 start)
poll_read-Reads_example = poll_read-Reads pipe pipe-IsStream 2 start start-IsValid

abbrev pub greeting : Bytes
greeting = 5 ∷ 6 ∷ 7 ∷ []

abbrev pub waiting : HttpObfs Pipe
waiting = (poll_write pipe rng greeting start).1

abbrev pub flushed : HttpObfs Pipe
flushed = (poll_flush pipe waiting).1

abbrev pub written : HttpObfs Pipe
written = (poll_write pipe rng greeting waiting).1

abbrev twice : HttpObfs Pipe
twice = (poll_write pipe rng greeting flushed).1

pub server-NoCr : NoCr server
server-NoCr = omega arith

pub key-NoCr : NoCr (rng.encode rng.rand_bytes)
key-NoCr = omega arith

pub idle : start.write_buf ≡ []
unfolding new
idle = refl

first : start.first_request ≡ true
unfolding new
first = refl

left_pending : poll_write pipe rng greeting start ≡ (pending, waiting)
unfolding new poll_write build_http_request host_header utf8 decimal drain accept
left_pending = refl

pub start_write : Accepts pipe greeting 3 written rng start
unfolding new poll_write build_http_request host_header utf8 decimal drain accept
start_write = retried {r' = rng} {h' = waiting} left_pending (answered refl)

pub later_write :
    Follows pipe written ([] ++ take 2 (8 ∷ 9 ∷ [])) (poll_write pipe rng (8 ∷ 9 ∷ []) written).1
unfolding new poll_write build_http_request host_header utf8 decimal drain accept
later_write = then_write {buf = 8 ∷ 9 ∷ []} {n = 2} {r = rng} none_yet (answered refl)

waiting_inside : waiting.write_buf_off ≤ length waiting.write_buf
unfolding new poll_write build_http_request host_header utf8 decimal drain accept
waiting_inside = leb→le waiting.write_buf_off (length waiting.write_buf) refl

then_flushed : poll_flush pipe waiting ≡ (ok tt, flushed)
unfolding new poll_write poll_flush build_http_request host_header utf8 decimal drain accept
then_flushed = refl

then_written : poll_write pipe rng greeting flushed ≡ (ok 3, twice)
unfolding new poll_write poll_flush build_http_request host_header utf8 decimal drain accept
then_written = refl

writes-payload_example :
    (3 ≡ length greeting)
    × ((wire : Bytes) × (i : ℕ) × ((poll_write pipe rng (8 ∷ 9 ∷ []) written).1.inner.sent
          ≡ start.inner.sent ++ wire)
        × (find_double_crlf wire ≡ some i)
        × (drop (i + 4) wire ≡ greeting ++ ([] ++ take 2 (8 ∷ 9 ∷ []))))
unfolding new
writes-payload_example =
    writes-payload pipe pipe-IsStream start idle first server-NoCr key-NoCr start_write later_write

poll_flush-Flushes_example :
    Flushes pipe pipe-IsStream waiting (poll_flush pipe waiting)
    × Flushes pipe pipe-IsStream waiting (poll_shutdown pipe waiting)
poll_flush-Flushes_example = poll_flush-Flushes pipe pipe-IsStream waiting waiting_inside

-- The payload 5 6 7 is sent twice.
flush_before_retry_example :
    twice.inner.sent ≡ [] ++ (build_http_request rng server 8388 greeting ++ take 3 greeting)
unfolding new
flush_before_retry_example =
    flush_before_retry pipe pipe-IsStream greeting rng rng start waiting flushed twice idle first
      left_pending then_flushed then_written

find_double_crlf_lem_example :
    ((i : ℕ) → (find_double_crlf response ≡ some i) ↔ IsFirst i response)
    × ((find_double_crlf response ≡ none) ↔ ((i : ℕ) → ¬ IsAt i response))
find_double_crlf_lem_example = find_double_crlf_lem response

drain-Stops_example :
    Drained pipe pipe-IsStream greeting 1 (fresh []) (drain pipe greeting 1 (fresh []))
    × Stops pipe pipe-IsStream greeting (drain pipe greeting 1 (fresh []))
drain-Stops_example = drain-Stops pipe pipe-IsStream greeting 1 (fresh []) (omega arith)
