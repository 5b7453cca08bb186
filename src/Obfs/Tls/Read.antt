-- ===== src/Obfs/Tls/Read.antt =====
-- The read side of `TlsObfs` in native/sslocal-ffi/src/obfs.rs against the meaning of the records.
pub mod Frame
pub mod Loop
pub mod Finish
use shadowsocks_ohos.Prelude.{
  Text, ℕ, zero, suc, ◌+◌, ◌-◌, ◌*◌, ◌≤◌, ◌<◌, min, ◌≡◌, refl, sym, ap, ◌∙◌, [], ◌∷◌, ◌++◌, Bytes,
  false, Option, none, some, length, arith, is_empty, leb, leb→le, not_leb→lt, not_zero, ==_iff,
  Bool-cases, inl, inr, if_true, if_false, ◌==◌, length-append,
}
use shadowsocks_ohos.Io.{Poll, pending, ok, err, Transport, IsStream, ReadsFrom}
use shadowsocks_ohos.Obfs.Tls.{
  new, TlsReadPhase, discard, length_field, payload, TlsObfs, discarded, length_read, payload_read,
  read_round, poll_read, frame_length, copied, tls_record_header_discard,
}
use shadowsocks_ohos.Obfs.Tls.Surface.{
  Expect, skip, low, body, surface, surface-nil, surface-skip, surface-body, surface-body_zero,
}

abbrev first_byte : Bytes → ℕ
first_byte [] = 0
first_byte (b ∷ _) = b

-- What the read state waits for.
abbrev pub expect_at : TlsReadPhase → Bytes → ℕ → Expect
expect_at (discard k) buf p = skip k
expect_at (payload k) buf p = body k
expect_at length_field buf zero = skip 0
expect_at length_field buf (suc zero) = low (first_byte buf)
expect_at length_field buf (suc (suc p)) = body (frame_length buf)

-- How many rounds of the loop may come before the next byte is read.
abbrev pub idle_rounds : TlsReadPhase → ℕ → ℕ
idle_rounds (discard zero) p = 1
idle_rounds (discard (suc k)) p = 0
idle_rounds length_field (suc (suc p)) = 3
idle_rounds length_field _ = 0
idle_rounds (payload zero) p = 2
idle_rounds (payload (suc k)) p = 0

idle_rounds-le : (phase : TlsReadPhase) (p : ℕ) → idle_rounds phase p ≤ 3
idle_rounds-le (discard zero) p = omega arith
idle_rounds-le (discard (suc k)) p = omega arith
idle_rounds-le length_field zero = omega arith
idle_rounds-le length_field (suc zero) = omega arith
idle_rounds-le length_field (suc (suc p)) = omega arith
idle_rounds-le (payload zero) p = omega arith
idle_rounds-le (payload (suc k)) p = omega arith

-- The bytes of the length field as they come in.
copied-surface :
    (buf : Bytes) (p : ℕ) (bytes s : Bytes)
    → length buf ≡ 2
    → length bytes ≤ 2 - p
    → is_empty bytes ≡ false
    → (length (copied buf p bytes) ≡ 2)
      × (surface (expect_at length_field buf p) (bytes ++ s)
          ≡ surface (expect_at length_field (copied buf p bytes) (p + length bytes)) s)
unfolding copied frame_length
copied-surface buf p [] s e le ne = cc
copied-surface [] p (x ∷ bytes) s e le ne = absurd (omega arith)
copied-surface (a ∷ []) p (x ∷ bytes) s e le ne = absurd (omega arith)
copied-surface (a ∷ b ∷ c ∷ buf) p (x ∷ bytes) s e le ne = absurd (omega arith)
copied-surface (a ∷ b ∷ []) zero (x ∷ []) s e le ne = (refl, refl)
copied-surface (a ∷ b ∷ []) zero (x ∷ y ∷ []) s e le ne = (refl, refl)
copied-surface (a ∷ b ∷ []) zero (x ∷ y ∷ z ∷ bytes) s e le ne = absurd (omega arith)
copied-surface (a ∷ b ∷ []) (suc zero) (x ∷ []) s e le ne = (refl, refl)
copied-surface (a ∷ b ∷ []) (suc zero) (x ∷ y ∷ bytes) s e le ne = absurd (omega arith)
copied-surface (a ∷ b ∷ []) (suc (suc p)) (x ∷ bytes) s e le ne = absurd (omega arith)

pub field_read :
    (buf : Bytes) (p : ℕ)
    → 2 ≤ p
    → (expect_at length_field buf p ≡ body (frame_length buf)) × (idle_rounds length_field p ≡ 3)
field_read buf zero h = absurd (omega arith)
field_read buf (suc zero) h = absurd (omega arith)
field_read buf (suc (suc p)) h = (refl, refl)

pub payload_idle : (k p : ℕ) → idle_rounds (payload k) p ≤ 2
payload_idle zero p = omega arith
payload_idle (suc k) p = omega arith

module _ {S : Type 0} (t : Transport S) (law : IsStream t) where
  open law use {incoming, read_reads}

  abbrev pub readable_at : TlsReadPhase → TlsObfs S → Bytes
  readable_at phase h = surface (expect_at phase h.len_buf h.len_progress) (incoming h.inner)

  -- All that the caller will be given.
  abbrev pub readable : TlsObfs S → Bytes
  readable h = readable_at h.read_phase h

  pub record IsValid (h : TlsObfs S) : Type 0 where
    pub two_bytes : length h.len_buf ≡ 2
    pub in_length : h.len_progress ≤ 2

  pub new-IsValid : (s : S) (server : Text) → IsValid (new s server)
  unfolding new
  new-IsValid s server = record { two_bytes = refl; in_length = omega arith }

  abbrev pub Surfaces : ℕ → Bytes → Option (Poll Bytes × TlsObfs S) → Type 0
  Surfaces n before none = ⊥
  Surfaces n before (some (r, g)) = ReadsFrom n before r (readable g) × IsValid g

  -- Four rounds for each byte that the peer still sends, and the idle ones before the next.
  abbrev pub rounds_at : TlsReadPhase → TlsObfs S → ℕ
  rounds_at phase h = 4 * length (incoming h.inner) + idle_rounds phase h.len_progress

  -- The fuel that a call wants: it is spent by the bytes that the peer still sends.
  abbrev pub rounds : TlsObfs S → ℕ
  rounds h = rounds_at h.read_phase h

  -- The inner stream gave nothing, or has changed nothing.
  stays :
      (phase : TlsReadPhase) (before : Bytes) (h : TlsObfs S)
      → h.read_phase ≡ phase
      → incoming h.inner ≡ before
      → readable h ≡ surface (expect_at phase h.len_buf h.len_progress) before
  stays phase before h e w =
      ap (λ ph. readable_at ph h) e ∙ ap (surface (expect_at phase h.len_buf h.len_progress)) w

  -- The end of the stream: nothing more is surfaced.
  ends :
      (n m : ℕ) (phase : TlsReadPhase) (before : Bytes) (h : TlsObfs S)
      → h.read_phase ≡ phase
      → 0 < m
      → ReadsFrom m before (ok []) (incoming h.inner)
      → ReadsFrom n (surface (expect_at phase h.len_buf h.len_progress) before) (ok []) (readable h)
  ends n m phase before h e room w =
      let expected = expect_at phase h.len_buf h.len_progress in
      (
        sym (stays phase before h e (sym w.0)),
        omega arith,
        λ _ _. ap (surface expected) (w.2 room refl) ∙ surface-nil expected,
      )

  -- From `again` on: it may be called where fewer rounds are left.
  abbrev pub GoesOn : (TlsObfs S → Option (Poll Bytes × TlsObfs S)) → ℕ → ℕ → Type 0
  GoesOn again n rounds =
      (g : TlsObfs S)
      → IsValid g
      → rounds_at g.read_phase g < rounds
      → Surfaces n (readable g) (again g)

  fewer :
      (g : TlsObfs S) (before : Bytes) (b : ℕ) (bytes : Bytes)
      → before ≡ (b ∷ bytes) ++ incoming g.inner
      → rounds_at g.read_phase g < 4 * length before
  fewer g before b bytes e = omega (
    arith,
    ap length e,
    length-append bytes (incoming g.inner),
    idle_rounds-le g.read_phase g.len_progress,
  )

  pub discarded-Surfaces :
      (again : TlsObfs S → Option (Poll Bytes × TlsObfs S)) (n k : ℕ) (before : Bytes)
      (h : TlsObfs S) (r : Poll Bytes)
      → h.read_phase ≡ discard (suc k)
      → IsValid h
      → ReadsFrom (min (suc k) 256) before r (incoming h.inner)
      → GoesOn again n (4 * length before)
      → Surfaces n (surface (skip (suc k)) before) (discarded again (suc k) h r)
  unfolding discarded
  discarded-Surfaces again n k before h pending e v w next =
      (stays (discard (suc k)) before h e w, v)
  discarded-Surfaces again n k before h (err x) e v w next =
      (stays (discard (suc k)) before h e w, v)
  discarded-Surfaces again n k before h (ok []) e v w next =
      (ends n (min (suc k) 256) (discard (suc k)) before h e (omega arith) w, v)
  discarded-Surfaces again n k before h (ok (b ∷ bytes)) e v w next =
      let rest = incoming h.inner in
      let same : surface (skip (suc k)) before ≡ surface (skip (suc k - suc (length bytes))) rest =
        ap (surface (skip (suc k))) w.0
        ∙ surface-skip (suc k) (b ∷ bytes) rest (omega (arith, w.1)) in
      rw same (
        next (record h { read_phase = discard (suc k - suc (length bytes)) })
          (record { two_bytes = v.two_bytes; in_length = v.in_length })
          (fewer (record h { read_phase = discard (suc k - suc (length bytes)) }) before b bytes
            w.0))

  pub length_read-Surfaces :
      (again : TlsObfs S → Option (Poll Bytes × TlsObfs S)) (n : ℕ) (before : Bytes) (h : TlsObfs S)
      (r : Poll Bytes)
      → h.read_phase ≡ length_field
      → h.len_progress < 2
      → IsValid h
      → ReadsFrom (2 - h.len_progress) before r (incoming h.inner)
      → GoesOn again n (4 * length before)
      → Surfaces n
          (surface (expect_at length_field h.len_buf h.len_progress) before)
          (length_read again h r)
  unfolding length_read
  length_read-Surfaces again n before h pending e p v w next = (stays length_field before h e w, v)
  length_read-Surfaces again n before h (err x) e p v w next = (stays length_field before h e w, v)
  length_read-Surfaces again n before h (ok []) e p v w next =
      (ends n (2 - h.len_progress) length_field before h e (omega arith) w, v)
  length_read-Surfaces again n before h (ok (b ∷ bytes)) e p v w next =
      let g = record h {
        len_buf = copied h.len_buf h.len_progress (b ∷ bytes);
        len_progress = h.len_progress + suc (length bytes);
      } in
      let (two, read) =
        copied-surface h.len_buf h.len_progress (b ∷ bytes) (incoming h.inner) v.two_bytes w.1
          refl in
      let expected = expect_at length_field h.len_buf h.len_progress in
      rw (ap (surface expected) w.0 ∙ read ∙ sym (stays length_field (incoming h.inner) g e refl)) (
        next g (record { two_bytes = two; in_length = omega (arith, w.1) })
          (fewer g before b bytes w.0))

  pub payload_read-Surfaces :
      (n k : ℕ) (before : Bytes) (h : TlsObfs S) (r : Poll Bytes)
      → h.read_phase ≡ payload (suc k)
      → 0 < min n (suc k)
      → IsValid h
      → ReadsFrom (min n (suc k)) before r (incoming h.inner)
      → Surfaces n (surface (body (suc k)) before) (some (payload_read (suc k) h r))
  unfolding payload_read
  payload_read-Surfaces n k before h pending e p v w = (stays (payload (suc k)) before h e w, v)
  payload_read-Surfaces n k before h (err x) e p v w = (stays (payload (suc k)) before h e w, v)
  payload_read-Surfaces n k before h (ok []) e p v w =
      (ends n (min n (suc k)) (payload (suc k)) before h e p w, v)
  payload_read-Surfaces n k before h (ok (b ∷ bytes)) e p v w = (
    (
      ap (surface (body (suc k))) w.0
          ∙ surface-body (suc k) (b ∷ bytes) (incoming h.inner) (omega (arith, w.1)),
      omega (arith, w.1),
      λ _ x. cc,
    ),
    record { two_bytes = v.two_bytes; in_length = v.in_length },
  )
