-- ===== src/Obfs/Http/Duplex.antt =====
-- Calls of `HttpObfs` in native/sslocal-ffi/src/obfs.rs in any order: the two directions of a relay
-- share one wrapper, and its reads and writes come as they may.
use shadowsocks_ohos.Prelude.{
  ℕ, ◌≡◌, refl, sym, ap, ◌∙◌, [], ◌++◌, Bytes, some, append_assoc, length, drop, arith,
}
use shadowsocks_ohos.Io.{pending, ok, err, IoError, Transport, IsStream}
use shadowsocks_ohos.Obfs.Http.{
  HttpObfs, Entropy, find_double_crlf, poll_read, poll_write, poll_flush, poll_shutdown,
}
use shadowsocks_ohos.Obfs.Http.Read.{readable, unread_body, IsValid}
use shadowsocks_ohos.Obfs.Http.Read.Loop.{poll_read-Reads}
use shadowsocks_ohos.Obfs.Http.Write.Frame.{SameReads, poll_write-SameReads, poll_flush-SameReads}

module _ {S : Type 0} (t : Transport S) where
  -- Some calls in a row, and the bytes that the reads among them answered with.
  pub data Calls (h : HttpObfs S) : Bytes → HttpObfs S → Type 0 where
    none_yet : Calls h [] h
    then_read :
        {bytes more : Bytes} {g g' : HttpObfs S} (n : ℕ)
        → Calls h bytes g
        → poll_read t n g ≡ some (ok more, g')
        → Calls h (bytes ++ more) g'
    then_wait :
        {bytes : Bytes} {g g' : HttpObfs S} (n : ℕ)
        → Calls h bytes g
        → poll_read t n g ≡ some (pending, g')
        → Calls h bytes g'
    then_fail :
        {bytes : Bytes} {g g' : HttpObfs S} {e : IoError} (n : ℕ)
        → Calls h bytes g
        → poll_read t n g ≡ some (err e, g')
        → Calls h bytes g'
    then_write :
        {bytes : Bytes} {g : HttpObfs S} (r : Entropy) (buf : Bytes)
        → Calls h bytes g
        → Calls h bytes (poll_write t r buf g).1
    then_flush :
        {bytes : Bytes} {g : HttpObfs S} → Calls h bytes g → Calls h bytes (poll_flush t g).1
    then_shutdown :
        {bytes : Bytes} {g : HttpObfs S} → Calls h bytes g → Calls h bytes (poll_shutdown t g).1

module _ {S : Type 0} (t : Transport S) (law : IsStream t) where
  SameReads-readable :
      {h g : HttpObfs S} → SameReads t law h g → readable t law g ≡ readable t law h
  SameReads-readable s = λ i.
      drop (s.same_leftover_off i) (s.same_leftover i)
      ++ unread_body (s.same_first_response i) (s.same_scratch i) (s.same_incoming i)

  SameReads-IsValid : {h g : HttpObfs S} → SameReads t law h g → IsValid t law h → IsValid t law g
  SameReads-IsValid s v = record {
    leftover_fits = omega (arith, s.same_leftover_off, ap length s.same_leftover, v.leftover_fits);
    nothing_left = λ e. s.same_leftover ∙ v.nothing_left (sym s.same_first_response ∙ e);
    no_head = λ e. ap find_double_crlf s.same_scratch ∙ v.no_head (sym s.same_first_response ∙ e);
  }

  -- What was read, and what may still be read, are what might have been read at first.
  abbrev pub Delivers : HttpObfs S → Bytes → HttpObfs S → Type 0
  Delivers h bytes g = (readable t law h ≡ bytes ++ readable t law g) × IsValid t law g

  Delivers-SameReads :
      (h : HttpObfs S) (bytes : Bytes) {g g' : HttpObfs S}
      → Delivers h bytes g
      → SameReads t law g g'
      → Delivers h bytes g'
  Delivers-SameReads h bytes d s =
      (d.0 ∙ ap (λ b. bytes ++ b) (sym (SameReads-readable s)), SameReads-IsValid s d.1)

  -- From a valid state, whatever is read, written, flushed and shut down in whatever order, and
  -- whichever calls wait or fail: the reads answer with the bytes behind the response's head, in order,
  -- none lost and none twice, and what is not yet read stays there to be read.
  pub Calls-Delivers :
      (h : HttpObfs S) {bytes : Bytes} {g : HttpObfs S}
      → IsValid t law h
      → Calls t h bytes g
      → Delivers h bytes g
  Calls-Delivers h v none_yet = (refl, v)
  Calls-Delivers h {g = g'} v (then_read {bytes} {more} {g} n calls e) =
      let (same, w) = Calls-Delivers h v calls in
      let ((taken, _, _), w') = rw e at (poll_read-Reads t law n g w) in
      (same ∙ ap (λ b. bytes ++ b) taken ∙ sym (append_assoc bytes more (readable t law g')), w')
  Calls-Delivers h v (then_wait {bytes} {g} n calls e) =
      let (same, w) = Calls-Delivers h v calls in
      let (kept, w') = rw e at (poll_read-Reads t law n g w) in
      (same ∙ ap (λ b. bytes ++ b) (sym kept), w')
  Calls-Delivers h v (then_fail {bytes} {g} n calls e) =
      let (same, w) = Calls-Delivers h v calls in
      let (kept, w') = rw e at (poll_read-Reads t law n g w) in
      (same ∙ ap (λ b. bytes ++ b) (sym kept), w')
  Calls-Delivers h v (then_write {bytes} {g} r buf calls) =
      Delivers-SameReads h bytes (Calls-Delivers h v calls) (poll_write-SameReads t law r buf g)
  Calls-Delivers h v (then_flush {bytes} {g} calls) =
      Delivers-SameReads h bytes (Calls-Delivers h v calls) (poll_flush-SameReads t law g).0
  Calls-Delivers h v (then_shutdown {bytes} {g} calls) =
      Delivers-SameReads h bytes (Calls-Delivers h v calls) (poll_flush-SameReads t law g).1
