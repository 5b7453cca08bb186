-- ===== src/Obfs/Tls/Read/Loop.antt =====
-- The loop of `TlsObfs::poll_read` in native/sslocal-ffi/src/obfs.rs, round by round.
use shadowsocks_ohos.Prelude.{
  ℕ, zero, suc, ◌-◌, ◌<◌, min, ◌≡◌, refl, sym, ap, Option, Bytes, arith, leb, leb→le, not_leb→lt,
  not_zero, ==_iff, Bool-cases, inl, inr, if_true, if_false, ◌==◌, false,
}
use shadowsocks_ohos.Io.{Poll, Transport, IsStream}
use shadowsocks_ohos.Obfs.Tls.{
  TlsReadPhase, discard, length_field, payload, TlsObfs, length_read, read_round, poll_read,
  frame_length, tls_record_header_discard,
}
use shadowsocks_ohos.Obfs.Tls.Surface.{surface, surface-body_zero}
use shadowsocks_ohos.Obfs.Tls.Read.{
  readable_at, readable, IsValid, Surfaces, rounds_at, rounds, GoesOn, field_read, payload_idle,
  discarded-Surfaces, length_read-Surfaces, payload_read-Surfaces,
}

module _ {S : Type 0} (t : Transport S) (law : IsStream t) where
  open law use {incoming, read_reads}

  in_phase :
      (phase : TlsReadPhase) (h : TlsObfs S)
      → h.read_phase ≡ phase
      → readable t law h ≡ readable_at t law phase h
  in_phase phase h e = ap (λ ph. readable_at t law ph h) e

  read_round-Surfaces :
      (again : TlsObfs S → Option (Poll Bytes × TlsObfs S)) (n : ℕ) (h : TlsObfs S)
      (phase : TlsReadPhase)
      → h.read_phase ≡ phase
      → IsValid t law h
      → GoesOn t law again n (rounds_at t law phase h)
      → Surfaces t law n (readable_at t law phase h) (read_round t again n h phase)
  unfolding read_round
  read_round-Surfaces again n h (discard zero) e v next =
      next (record h { read_phase = length_field; len_progress = 0 })
        (record { two_bytes = v.two_bytes; in_length = omega arith }) (omega arith)
  read_round-Surfaces again n h (discard (suc k)) e v next =
      discarded-Surfaces t law again n k (incoming h.inner)
        (record h { inner = (t.poll_read (min (suc k) 256) h.inner).1 })
        (t.poll_read (min (suc k) 256) h.inner).0 e
        (record { two_bytes = v.two_bytes; in_length = v.in_length })
        (read_reads (min (suc k) 256) h.inner) (λ g valid less. next g valid (omega arith))
  read_round-Surfaces again n h length_field e v next = elim (Bool-cases (leb 2 h.len_progress)) [
    | inl both ↦
        let (complete, idle) = field_read h.len_buf h.len_progress (leb→le 2 h.len_progress both) in
        let size = frame_length h.len_buf in
        rw
          (
            if_true (again (record h { read_phase = payload size }))
                (length_read again
                  (record h { inner = (t.poll_read (2 - h.len_progress) h.inner).1 })
                  (t.poll_read (2 - h.len_progress) h.inner).0)
                both,
            ap (λ x. surface x (incoming h.inner)) complete,
          )
          (next (record h { read_phase = payload size })
            (record { two_bytes = v.two_bytes; in_length = v.in_length })
            (omega (arith, idle, payload_idle size h.len_progress)))
    | inr short ↦
        let below = not_leb→lt 2 h.len_progress short in
        rw
          (if_false (again (record h { read_phase = payload (frame_length h.len_buf) }))
            (length_read again (record h { inner = (t.poll_read (2 - h.len_progress) h.inner).1 })
              (t.poll_read (2 - h.len_progress) h.inner).0)
            short)
          (length_read-Surfaces t law again n (incoming h.inner)
            (record h { inner = (t.poll_read (2 - h.len_progress) h.inner).1 })
            (t.poll_read (2 - h.len_progress) h.inner).0 e below
            (record { two_bytes = v.two_bytes; in_length = v.in_length })
            (read_reads (2 - h.len_progress) h.inner) (λ g valid less. next g valid (omega arith)))
  ]
  read_round-Surfaces again n h (payload zero) e v next =
      rw (surface-body_zero (incoming h.inner)) (
        next (record h { read_phase = discard tls_record_header_discard; first_response = false })
          (record { two_bytes = v.two_bytes; in_length = v.in_length }) (omega arith))
  read_round-Surfaces again n h (payload (suc k)) e v next =
      elim (Bool-cases (min n (suc k) == 0)) [
        | inl full ↦ rw full (
          (
            sym (in_phase (payload (suc k)) h e),
            omega arith,
            λ room _. absurd (omega (arith, (==_iff (min n (suc k)) 0).0 full)),
          ),
          v,
        )
        | inr room ↦ rw room (
            payload_read-Surfaces t law n k (incoming h.inner)
              (record h { inner = (t.poll_read (min n (suc k)) h.inner).1 })
              (t.poll_read (min n (suc k)) h.inner).0 e (not_zero (min n (suc k)) room)
              (record { two_bytes = v.two_bytes; in_length = v.in_length })
              (read_reads (min n (suc k)) h.inner))
      ]

  -- From a valid state and with fuel for the rounds that the peer's bytes can cause, `poll_read` ends,
  -- in a valid state, and to its caller the wrapper is a stream of what the records surface: an answer
  -- takes the next of those bytes off the front, at most as many as there is room for; a wait or an
  -- error loses none, wherever in a record it falls; and no bytes are answered, where there is room,
  -- only when none will come.
  pub poll_read-Surfaces :
      (f n : ℕ) (h : TlsObfs S)
      → IsValid t law h
      → rounds t law h < f
      → Surfaces t law n (readable t law h) (poll_read t f n h)
  unfolding poll_read
  poll_read-Surfaces zero n h v enough = elim enough [ ]
  poll_read-Surfaces (suc f) n h v enough =
      read_round-Surfaces (poll_read t f n) n h h.read_phase refl v
        (λ g valid less. poll_read-Surfaces f n g valid (omega arith))
