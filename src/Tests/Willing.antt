-- ===== src/Tests/Willing.antt =====
-- The wrappers on a stream that takes whatever is written.
use shadowsocks_ohos.Prelude.{
  ◌≤◌, ◌≡◌, refl, sym, ap, take, take_all, arith, [], ◌∷◌, ◌++◌, Bytes, codes, length, is_empty,
}
use shadowsocks_ohos.Io.{ok, Transport, IsStream}
use shadowsocks_ohos.Obfs.Drain.Willing.{IsWilling}
use shadowsocks_ohos.Obfs.Http
use shadowsocks_ohos.Obfs.Http.{HttpObfs}
use shadowsocks_ohos.Obfs.Http.Write.Willing.{Accepts, poll_write_accepted}
use shadowsocks_ohos.Obfs.Tls
use shadowsocks_ohos.Obfs.Tls.{TlsObfs, tls_chunk_size}
use shadowsocks_ohos.Obfs.Tls.Write.Willing.{Takes, poll_write_taken}
use shadowsocks_ohos.Tests.Http as OnHttp
use shadowsocks_ohos.Tests.Tls as OnTls

-- It is what was written.
abbrev greedy : Transport Bytes
greedy = record {
  poll_read = λ n s. (ok [], s);
  poll_write = λ buf s. (ok (length buf), s ++ buf);
  poll_flush = λ s. (ok tt, s);
  poll_shutdown = λ s. (ok tt, s);
}

greedy-IsWilling : IsWilling greedy
greedy-IsWilling b buf s = (length buf, refl)

takes_all : (buf s : Bytes) → (s ++ buf ≡ s ++ take (length buf) buf) × (length buf ≤ length buf)
takes_all buf s = (ap (λ b. s ++ b) (sym (take_all (length buf) buf (omega arith))), omega arith)

greedy-IsStream : IsStream greedy
greedy-IsStream = record {
  incoming = λ s. [];
  outgoing = λ s. s;
  read_reads = λ n s. (refl, omega arith, λ room e. refl);
  read_sends_nothing = λ n s. refl;
  write_writes = takes_all;
  write_reads_nothing = λ buf s. refl;
  flush_keeps = λ s. refl;
  shutdown_keeps = λ s. refl;
  flush_reads_nothing = λ s. refl;
  shutdown_reads_nothing = λ s. refl;
}

abbrev two : Bytes
two = 1 ∷ 2 ∷ []

abbrev http_start : HttpObfs Bytes
http_start = Http.new [] (codes "a.org") 80

http_inside : http_start.write_buf_off ≤ length http_start.write_buf
unfolding Http.new
http_inside = omega arith

poll_write_accepted_example :
    Accepts greedy greedy-IsStream OnHttp.rng two http_start
      (is_empty http_start.write_buf)
      http_start.first_request
      (Http.poll_write greedy OnHttp.rng two http_start)
poll_write_accepted_example =
    poll_write_accepted greedy greedy-IsStream OnHttp.rng two http_start greedy-IsWilling
      http_inside

abbrev tls_start : TlsObfs Bytes
tls_start = Tls.new [] (codes "a.org")

tls_inside : tls_start.write_buf_off ≤ length tls_start.write_buf
unfolding Tls.new
tls_inside = omega arith

poll_write_taken_example :
    Takes greedy greedy-IsStream OnTls.rng two tls_start
      (is_empty tls_start.write_buf)
      (Tls.poll_write greedy OnTls.rng two tls_start)
poll_write_taken_example =
    poll_write_taken greedy greedy-IsStream OnTls.rng two tls_start greedy-IsWilling tls_inside
