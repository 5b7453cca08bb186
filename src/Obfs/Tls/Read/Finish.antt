-- ===== src/Obfs/Tls/Read/Finish.antt =====
-- Reading a `TlsObfs` of native/sslocal-ffi/src/obfs.rs to its end, on a stream that is always ready.
use shadowsocks_ohos.Prelude.{
  ℕ, zero, suc, ◌-◌, ◌<◌, ◌≡◌, refl, sym, ap, ◌∙◌, [], ◌∷◌, ◌++◌, Bytes, Option, none, some, min,
  leb, ◌==◌, Bool-cases, inl, inr, length, length-append, arith,
}
use shadowsocks_ohos.Io.{Poll, pending, ok, err, Transport, IsStream}
use shadowsocks_ohos.Obfs.Tls.{
  TlsReadPhase, discard, length_field, payload, TlsObfs, discarded, length_read, payload_read,
  read_round, poll_read,
}
use shadowsocks_ohos.Obfs.Tls.Read.{readable, IsValid, Surfaces, rounds}
use shadowsocks_ohos.Obfs.Tls.Read.Loop.{poll_read-Surfaces}

module _ {S : Type 0} (t : Transport S) where
  -- Every read answers at once, and without an error.
  abbrev pub IsReady : Type 0
  IsReady = (n : ℕ) (s : S) → (bytes : Bytes) × ((t.poll_read n s).0 ≡ ok bytes)

  -- An answer of `ok`, if there is one.
  abbrev Answers : Option (Poll Bytes × TlsObfs S) → Type 0
  Answers none = Unit {0}
  Answers (some (pending, g)) = ⊥
  Answers (some (ok bytes, g)) = Unit {0}
  Answers (some (err e, g)) = ⊥

  module _ (again : TlsObfs S → Option (Poll Bytes × TlsObfs S))
      (next : (g : TlsObfs S) → Answers (again g)) where
    discarded-Answers :
        (k : ℕ) (h : TlsObfs S) (r : Poll Bytes) {bytes : Bytes}
        → r ≡ ok bytes
        → Answers (discarded again k h r)
    unfolding discarded
    discarded-Answers k h pending e = cc
    discarded-Answers k h (err x) e = cc
    discarded-Answers k h (ok []) e = tt
    discarded-Answers k h (ok (b ∷ bytes)) e = next _

    length_read-Answers :
        (h : TlsObfs S) (r : Poll Bytes) {bytes : Bytes}
        → r ≡ ok bytes
        → Answers (length_read again h r)
    unfolding length_read
    length_read-Answers h pending e = cc
    length_read-Answers h (err x) e = cc
    length_read-Answers h (ok []) e = tt
    length_read-Answers h (ok (b ∷ bytes)) e = next _

    payload_read-Answers :
        (k : ℕ) (h : TlsObfs S) (r : Poll Bytes) {bytes : Bytes}
        → r ≡ ok bytes
        → Answers (some (payload_read k h r))
    unfolding payload_read
    payload_read-Answers k h pending e = cc
    payload_read-Answers k h (err x) e = cc
    payload_read-Answers k h (ok []) e = tt
    payload_read-Answers k h (ok (b ∷ bytes)) e = tt

    read_round-Answers :
        IsReady
        → (n : ℕ) (h : TlsObfs S) (phase : TlsReadPhase) → Answers (read_round t again n h phase)
    unfolding read_round
    read_round-Answers ready n h (discard zero) = next _
    read_round-Answers ready n h (discard (suc k)) =
        discarded-Answers (suc k) _ _ (ready (min (suc k) 256) h.inner).1
    read_round-Answers ready n h length_field = elim (Bool-cases (leb 2 h.len_progress)) [
      | inl both ↦ rw both (next _)
      | inr short ↦ rw short (length_read-Answers _ _ (ready (2 - h.len_progress) h.inner).1)
    ]
    read_round-Answers ready n h (payload zero) = next _
    read_round-Answers ready n h (payload (suc k)) = elim (Bool-cases (min n (suc k) == 0)) [
      | inl full ↦ rw full tt
      | inr room ↦ rw room (payload_read-Answers (suc k) _ _ (ready (min n (suc k)) h.inner).1)
    ]

  poll_read-Answers : IsReady → (f n : ℕ) (h : TlsObfs S) → Answers (poll_read t f n h)
  unfolding poll_read
  poll_read-Answers ready zero n h = tt
  poll_read-Answers ready (suc f) n h =
      read_round-Answers (poll_read t f n) (λ g. poll_read-Answers ready f n g) ready n h
        h.read_phase

-- The bytes of an answer, and what comes of the calls behind it; no bytes are the end.
abbrev pub read_answer :
    {S : Type 0} → (TlsObfs S → Bytes) → Option (Poll Bytes × TlsObfs S) → Bytes
read_answer more none = []
read_answer more (some (pending, g)) = []
read_answer more (some (err e, g)) = []
read_answer more (some (ok [], g)) = []
read_answer more (some (ok (b ∷ bytes), g)) = (b ∷ bytes) ++ more g

module _ {S : Type 0} (t : Transport S) (law : IsStream t) where
  -- A caller that reads until no bytes are answered, at most so many times and with room for `n` bytes
  -- each time. It gives each call the fuel that the call wants.
  unfoldable pub read_all : ℕ → ℕ → TlsObfs S → Bytes
  read_all zero n h = []
  read_all (suc k) n h = read_answer (read_all k n) (poll_read t (suc (rounds t law h)) n h)

  answer-readable :
      (more : TlsObfs S → Bytes) (n : ℕ) (before : Bytes) (o : Option (Poll Bytes × TlsObfs S))
      → 0 < n
      → Surfaces t law n before o
      → Answers t o
      → ((g : TlsObfs S)
          → IsValid t law g
          → length (readable t law g) < length before
          → more g ≡ readable t law g)
      → read_answer more o ≡ before
  answer-readable more n before none room s a next = elim s [ ]
  answer-readable more n before (some (pending, g)) room s a next = elim a [ ]
  answer-readable more n before (some (err e, g)) room s a next = elim a [ ]
  answer-readable more n before (some (ok [], g)) room ((_, _, ends), v) a next =
      sym (ends room refl)
  answer-readable more n before (some (ok (b ∷ bytes), g)) room ((same, _, _), v) a next =
      ap (λ x. (b ∷ bytes) ++ x)
        (next g v (omega (arith, ap length same, length-append bytes (readable t law g))))
      ∙ sym same

  -- On a stream whose reads answer at once, a caller that reads from a valid state on, with room
  -- for a byte or more each time, until no bytes are answered, is given all that the records
  -- surface, in order, and no more; one call more than there are such bytes is enough.
  pub read_all-readable :
      (k n : ℕ) (h : TlsObfs S)
      → IsReady t
      → 0 < n
      → IsValid t law h
      → length (readable t law h) < k
      → read_all k n h ≡ readable t law h
  unfolding read_all
  read_all-readable zero n h ready room v enough = elim enough [ ]
  read_all-readable (suc k) n h ready room v enough =
      answer-readable (read_all k n) n (readable t law h) (poll_read t (suc (rounds t law h)) n h)
        room (poll_read-Surfaces t law (suc (rounds t law h)) n h v (omega arith))
        (poll_read-Answers t ready (suc (rounds t law h)) n h)
        (λ g valid less. read_all-readable k n g ready room valid (omega arith))
