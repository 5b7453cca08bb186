-- ===== src/Obfs/Tls/Read/Frame.antt =====
-- What `TlsObfs::poll_read` in native/sslocal-ffi/src/obfs.rs leaves alone: the write side.
use shadowsocks_ohos.Prelude.{
  ℕ, zero, suc, ◌-◌, ◌≡◌, refl, ◌∙◌, [], ◌∷◌, Bytes, Bool, Option, none, some, min, leb, ◌==◌,
  Bool-cases, inl, inr,
}
use shadowsocks_ohos.Io.{Poll, pending, ok, err, Transport, IsStream}
use shadowsocks_ohos.Obfs.Tls.{
  TlsReadPhase, discard, length_field, payload, TlsObfs, discarded, length_read, payload_read,
  read_round, poll_read,
}

module _ {S : Type 0} (t : Transport S) (law : IsStream t) where
  open law use {outgoing, read_sends_nothing}

  -- The write side is as it was: what is buffered, what it stands for, and what was sent.
  pub record SameWrites (h g : TlsObfs S) : Type 0 where
    pub same_server : g.server ≡ h.server
    pub same_first_request : g.first_request ≡ h.first_request
    pub same_write_buf : g.write_buf ≡ h.write_buf
    pub same_write_buf_off : g.write_buf_off ≡ h.write_buf_off
    pub same_pending_input : g.pending_input ≡ h.pending_input
    pub same_outgoing : outgoing g.inner ≡ outgoing h.inner

  SameWrites-trans : {h g k : TlsObfs S} → SameWrites h g → SameWrites g k → SameWrites h k
  SameWrites-trans a b = record {
    same_server = b.same_server ∙ a.same_server;
    same_first_request = b.same_first_request ∙ a.same_first_request;
    same_write_buf = b.same_write_buf ∙ a.same_write_buf;
    same_write_buf_off = b.same_write_buf_off ∙ a.same_write_buf_off;
    same_pending_input = b.same_pending_input ∙ a.same_pending_input;
    same_outgoing = b.same_outgoing ∙ a.same_outgoing;
  }

  -- Changes of the read side and of the inner stream's input.
  reading :
      (h : TlsObfs S) (s : S) (first : Bool) (phase : TlsReadPhase) (buf : Bytes) (p : ℕ)
      → outgoing s ≡ outgoing h.inner
      → SameWrites h (record h {
        inner = s;
        first_response = first;
        read_phase = phase;
        len_buf = buf;
        len_progress = p;
      })
  reading h s first phase buf p e = record {
    same_server = refl;
    same_first_request = refl;
    same_write_buf = refl;
    same_write_buf_off = refl;
    same_pending_input = refl;
    same_outgoing = e;
  }

  abbrev AllSameWrites : TlsObfs S → Option (Poll Bytes × TlsObfs S) → Type 0
  AllSameWrites h none = Unit {0}
  AllSameWrites h (some (r, g)) = SameWrites h g

  After-SameWrites :
      (h g : TlsObfs S) (o : Option (Poll Bytes × TlsObfs S))
      → SameWrites h g
      → AllSameWrites g o
      → AllSameWrites h o
  After-SameWrites h g none a b = tt
  After-SameWrites h g (some (r, k)) a b = SameWrites-trans a b

  module _ (again : TlsObfs S → Option (Poll Bytes × TlsObfs S))
      (next : (g : TlsObfs S) → AllSameWrites g (again g)) where
    discarded-SameWrites :
        (k : ℕ) (h : TlsObfs S) (r : Poll Bytes) → AllSameWrites h (discarded again k h r)
    unfolding discarded
    discarded-SameWrites k h pending = reading h h.inner _ _ _ _ refl
    discarded-SameWrites k h (err e) = reading h h.inner _ _ _ _ refl
    discarded-SameWrites k h (ok []) = reading h h.inner _ _ _ _ refl
    discarded-SameWrites k h (ok (b ∷ bytes)) =
        After-SameWrites h _ _ (reading h h.inner _ _ _ _ refl) (next _)

    length_read-SameWrites :
        (h : TlsObfs S) (r : Poll Bytes) → AllSameWrites h (length_read again h r)
    unfolding length_read
    length_read-SameWrites h pending = reading h h.inner _ _ _ _ refl
    length_read-SameWrites h (err e) = reading h h.inner _ _ _ _ refl
    length_read-SameWrites h (ok []) = reading h h.inner _ _ _ _ refl
    length_read-SameWrites h (ok (b ∷ bytes)) =
        After-SameWrites h _ _ (reading h h.inner _ _ _ _ refl) (next _)

    payload_read-SameWrites :
        (k : ℕ) (h : TlsObfs S) (r : Poll Bytes) → SameWrites h (payload_read k h r).1
    unfolding payload_read
    payload_read-SameWrites k h pending = reading h h.inner _ _ _ _ refl
    payload_read-SameWrites k h (err e) = reading h h.inner _ _ _ _ refl
    payload_read-SameWrites k h (ok []) = reading h h.inner _ _ _ _ refl
    payload_read-SameWrites k h (ok (b ∷ bytes)) = reading h h.inner _ _ _ _ refl

    read_round-SameWrites :
        (n : ℕ) (h : TlsObfs S) (phase : TlsReadPhase)
        → AllSameWrites h (read_round t again n h phase)
    unfolding read_round
    read_round-SameWrites n h (discard zero) =
        After-SameWrites h _ _ (reading h h.inner _ _ _ _ refl) (next _)
    read_round-SameWrites n h (discard (suc k)) =
        After-SameWrites h _ _ (reading h _ _ _ _ _ (read_sends_nothing (min (suc k) 256) h.inner))
          (discarded-SameWrites (suc k) _ _)
    read_round-SameWrites n h length_field = elim (Bool-cases (leb 2 h.len_progress)) [
      | inl both ↦ rw both (After-SameWrites h _ _ (reading h h.inner _ _ _ _ refl) (next _))
      | inr short ↦ rw short (
          After-SameWrites h _ _
            (reading h _ _ _ _ _ (read_sends_nothing (2 - h.len_progress) h.inner))
            (length_read-SameWrites _ _))
    ]
    read_round-SameWrites n h (payload zero) =
        After-SameWrites h _ _ (reading h h.inner _ _ _ _ refl) (next _)
    read_round-SameWrites n h (payload (suc k)) = elim (Bool-cases (min n (suc k) == 0)) [
      | inl full ↦ rw full (reading h h.inner _ _ _ _ refl)
      | inr room ↦ rw room (
          SameWrites-trans (reading h _ _ _ _ _ (read_sends_nothing (min n (suc k)) h.inner))
            (payload_read-SameWrites (suc k) _ _))
    ]

  poll_read-AllSameWrites : (f n : ℕ) (h : TlsObfs S) → AllSameWrites h (poll_read t f n h)
  unfolding poll_read
  poll_read-AllSameWrites zero n h = tt
  poll_read-AllSameWrites (suc f) n h =
      read_round-SameWrites (poll_read t f n) (λ g. poll_read-AllSameWrites f n g) n h h.read_phase

  -- A read leaves all of the write side as it is, what was sent included.
  pub poll_read-SameWrites :
      {r : Poll Bytes} (f n : ℕ) (h g : TlsObfs S)
      → poll_read t f n h ≡ some (r, g)
      → SameWrites h g
  poll_read-SameWrites f n h g e = rw e at (poll_read-AllSameWrites f n h)
