-- ===== src/Obfs/Tls/Duplex.antt =====
-- Calls of `TlsObfs` in native/sslocal-ffi/src/obfs.rs in any order: the two directions of a relay
-- share one wrapper, and its reads and writes come as they may.
use shadowsocks_ohos.Prelude.{
  ℕ, ◌<◌, ◌≡◌, refl, sym, ap, ◌∙◌, [], ◌++◌, Bytes, some, append_assoc, length, arith,
}
use shadowsocks_ohos.Io.{pending, ok, err, IoError, Transport, IsStream}
use shadowsocks_ohos.Obfs.Tls.{TlsObfs, Entropy, poll_read, poll_write, poll_flush, poll_shutdown}
use shadowsocks_ohos.Obfs.Tls.Read.{readable, expect_at, IsValid, rounds}
use shadowsocks_ohos.Obfs.Tls.Read.Loop.{poll_read-Surfaces}
use shadowsocks_ohos.Obfs.Tls.Surface.{surface}
use shadowsocks_ohos.Obfs.Tls.Write.Frame.{SameReads, poll_write-SameReads, poll_flush-SameReads}

module _ {S : Type 0} (t : Transport S) (law : IsStream t) where
  -- Some calls in a row, and the bytes that the reads among them answered with. Each read has the fuel
  -- that it takes.
  pub data Calls (h : TlsObfs S) : Bytes → TlsObfs S → Type 0 where
    none_yet : Calls h [] h
    then_read :
        {bytes more : Bytes} {g g' : TlsObfs S} (f n : ℕ)
        → Calls h bytes g
        → rounds t law g < f
        → poll_read t f n g ≡ some (ok more, g')
        → Calls h (bytes ++ more) g'
    then_wait :
        {bytes : Bytes} {g g' : TlsObfs S} (f n : ℕ)
        → Calls h bytes g
        → rounds t law g < f
        → poll_read t f n g ≡ some (pending, g')
        → Calls h bytes g'
    then_fail :
        {bytes : Bytes} {g g' : TlsObfs S} {e : IoError} (f n : ℕ)
        → Calls h bytes g
        → rounds t law g < f
        → poll_read t f n g ≡ some (err e, g')
        → Calls h bytes g'
    then_write :
        {bytes : Bytes} {g : TlsObfs S} (r : Entropy) (buf : Bytes)
        → Calls h bytes g
        → Calls h bytes (poll_write t r buf g).1
    then_flush :
        {bytes : Bytes} {g : TlsObfs S} → Calls h bytes g → Calls h bytes (poll_flush t g).1
    then_shutdown :
        {bytes : Bytes} {g : TlsObfs S} → Calls h bytes g → Calls h bytes (poll_shutdown t g).1

module _ {S : Type 0} (t : Transport S) (law : IsStream t) where
  SameReads-readable : {h g : TlsObfs S} → SameReads t law h g → readable t law g ≡ readable t law h
  SameReads-readable s = λ i.
      surface (expect_at (s.same_read_phase i) (s.same_len_buf i) (s.same_len_progress i))
        (s.same_incoming i)

  SameReads-IsValid : {h g : TlsObfs S} → SameReads t law h g → IsValid t law h → IsValid t law g
  SameReads-IsValid s v = record {
    two_bytes = ap length s.same_len_buf ∙ v.two_bytes;
    in_length = omega (arith, s.same_len_progress, v.in_length);
  }

  -- What was read, and what may still be read, are what might have been read at first.
  abbrev pub Conveys : TlsObfs S → Bytes → TlsObfs S → Type 0
  Conveys h bytes g = (readable t law h ≡ bytes ++ readable t law g) × IsValid t law g

  Conveys-SameReads :
      (h : TlsObfs S) (bytes : Bytes) {g g' : TlsObfs S}
      → Conveys h bytes g
      → SameReads t law g g'
      → Conveys h bytes g'
  Conveys-SameReads h bytes d s =
      (d.0 ∙ ap (λ b. bytes ++ b) (sym (SameReads-readable s)), SameReads-IsValid s d.1)

  -- From a valid state, whatever is read, written, flushed and shut down in whatever order, and
  -- whichever calls wait or fail: the reads answer with the bytes that the records surface, in order,
  -- none lost and none twice, and what is not yet read stays there to be read.
  pub Calls-Conveys :
      (h : TlsObfs S) {bytes : Bytes} {g : TlsObfs S}
      → IsValid t law h
      → Calls t law h bytes g
      → Conveys h bytes g
  Calls-Conveys h v none_yet = (refl, v)
  Calls-Conveys h {g = g'} v (then_read {bytes} {more} {g} f n calls enough e) =
      let (same, w) = Calls-Conveys h v calls in
      let ((taken, _, _), w') = rw e at (poll_read-Surfaces t law f n g w enough) in
      (same ∙ ap (λ b. bytes ++ b) taken ∙ sym (append_assoc bytes more (readable t law g')), w')
  Calls-Conveys h v (then_wait {bytes} {g} f n calls enough e) =
      let (same, w) = Calls-Conveys h v calls in
      let (kept, w') = rw e at (poll_read-Surfaces t law f n g w enough) in
      (same ∙ ap (λ b. bytes ++ b) (sym kept), w')
  Calls-Conveys h v (then_fail {bytes} {g} f n calls enough e) =
      let (same, w) = Calls-Conveys h v calls in
      let (kept, w') = rw e at (poll_read-Surfaces t law f n g w enough) in
      (same ∙ ap (λ b. bytes ++ b) (sym kept), w')
  Calls-Conveys h v (then_write {bytes} {g} r buf calls) =
      Conveys-SameReads h bytes (Calls-Conveys h v calls) (poll_write-SameReads t law r buf g)
  Calls-Conveys h v (then_flush {bytes} {g} calls) =
      Conveys-SameReads h bytes (Calls-Conveys h v calls) (poll_flush-SameReads t law g).0
  Calls-Conveys h v (then_shutdown {bytes} {g} calls) =
      Conveys-SameReads h bytes (Calls-Conveys h v calls) (poll_flush-SameReads t law g).1
