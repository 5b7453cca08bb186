-- ===== src/Obfs/Http/Read.antt =====
-- The read side of `HttpObfs` in native/sslocal-ffi/src/obfs.rs: what the caller sees of the
-- peer's bytes.
pub mod Loop
pub mod Frame
pub mod Bounds
pub mod Ways
use shadowsocks_ohos.Prelude.{
  Text, ℕ, zero, suc, ◌+◌, ◌-◌, ◌≤◌, ◌<◌, min, ◌≡◌, ◌≢◌, refl, sym, ap, ◌∙◌, ◌⊎◌, List, [], ◌∷◌,
  ◌++◌, Bytes, Bool, true, false, Option, none, some, length, take, drop, drop_all, drop-nil, arith,
  append-nil, append_assoc, is_empty, is_empty-nil, take_all, drop-append, drop-drop,
  take-append-drop_append, length-take, length-drop, length-append, ltb, leb, ltb→lt, not_ltb→le,
  if◌then◌else◌, Bool-cases, Option-cases, inl, inr,
}
use shadowsocks_ohos.Io.{Poll, pending, ok, err, Transport, IsStream, ReadsFrom, ReadsFrom-at}
use shadowsocks_ohos.Obfs.Http.Find.{find_double_crlf-append, find_double_crlf-some, IsAt-le}
use shadowsocks_ohos.Obfs.Http.{
  new, HttpObfs, find_double_crlf, max_header, read_inner, read_leftover, header_found,
  header_grown, header_round, header_loop, poll_read,
}

abbrev pub behind_match : Bytes → Option ℕ → Bytes
behind_match s none = []
behind_match s (some i) = drop (i + 4) s

-- What stands behind the head of a response: nothing until the head is complete.
abbrev pub behind_head : Bytes → Bytes
behind_head s = behind_match s (find_double_crlf s)

-- What the inner stream still has for the caller: all of it, or what stands behind the head.
abbrev pub unread_body : Bool → Bytes → Bytes → Bytes
unread_body true scratch bytes = behind_head (scratch ++ bytes)
unread_body false scratch bytes = bytes

-- Nothing is taken from nothing, or where there is no room.
nothing_taken :
    (n : ℕ) (body : Bytes)
    → min (length body) n ≤ 0
    → (drop (min (length body) n) body ≡ body) × ((drop (min (length body) n) body ≡ []) ⊎ (n ≡ 0))
nothing_taken n body h =
    let none_taken : min (length body) n ≡ 0 = omega arith in
    rw none_taken (refl, empty_or_full body none_taken)
  where
    empty_or_full : (b : Bytes) → min (length b) n ≡ 0 → (b ≡ []) ⊎ (n ≡ 0)
    empty_or_full [] e = inl refl
    empty_or_full (x ∷ b) e = inr (omega arith)

module _ {S : Type 0} (t : Transport S) (law : IsStream t) where
  open law use {incoming, read_reads}

  -- All that the caller will be given.
  abbrev pub readable : HttpObfs S → Bytes
  readable h =
      drop h.leftover_off h.leftover
      ++ unread_body h.first_response h.response_scratch (incoming h.inner)

  -- While the head is being read, nothing is left over, and what was read so far holds no head.
  pub record IsValid (h : HttpObfs S) : Type 0 where
    pub leftover_fits : h.leftover_off ≤ length h.leftover
    pub nothing_left : h.first_response ≡ true → h.leftover ≡ []
    pub no_head : h.first_response ≡ true → find_double_crlf h.response_scratch ≡ none

  pub new-IsValid : (s : S) (host : Text) (port : ℕ) → IsValid (new s host port)
  unfolding new find_double_crlf
  new-IsValid s host port = record {
    leftover_fits = omega arith;
    nothing_left = λ _. refl;
    no_head = λ _. refl;
  }

  -- The call ends, with an answer that a stream of the readable bytes may give.
  abbrev pub Reads : ℕ → Bytes → Option (Poll Bytes × HttpObfs S) → Type 0
  Reads n before none = ⊥
  Reads n before (some (r, g)) = ReadsFrom n before r (readable g) × IsValid g

  pub read_leftover-Reads :
      (n : ℕ) (h : HttpObfs S)
      → IsValid h
      → h.leftover_off < length h.leftover
      → Reads n (readable h) (some (read_leftover n h))
  unfolding read_leftover
  read_leftover-Reads n h v lt =
      let avail = drop h.leftover_off h.leftover in
      let taken = min (length avail) n in
      let off = h.leftover_off + taken in
      let there : 0 < length avail = omega (arith, length-drop h.leftover_off h.leftover) in
      let size : length (take taken avail) ≡ taken = omega (arith, length-take taken avail) in
      let rest = unread_body h.first_response h.response_scratch (incoming h.inner) in
      let split : avail ++ rest ≡ take taken avail ++ (drop off h.leftover ++ rest) =
        sym (take-append-drop_append taken avail rest)
        ∙ ap (λ b. take taken avail ++ (b ++ rest)) (drop-drop h.leftover_off taken h.leftover) in
      (elim (Bool-cases (leb (length h.leftover) off)) [
        | inl used_up ↦ rw used_up (
          (
            split
                ∙ ap (λ b. take taken avail ++ (b ++ rest))
                    (drop_all off h.leftover (ground arith)),
            omega arith,
            λ room e. absurd (omega (arith, ap length e)),
          ),
          record { leftover_fits = omega arith; nothing_left = λ _. refl; no_head = v.no_head },
        )
        | inr some_left ↦ rw some_left (
          (split, omega arith, λ room e. absurd (omega (arith, ap length e))),
          record {
            leftover_fits = ground arith;
            nothing_left = v.nothing_left;
            no_head = v.no_head;
          },
        )
      ])

  readable-passes :
      (h : HttpObfs S)
      → h.first_response ≡ false
      → drop h.leftover_off h.leftover ≡ []
      → readable h ≡ incoming h.inner
  readable-passes h f e = rw (e, f)

  pub passthrough-Reads :
      (n : ℕ) (h : HttpObfs S)
      → h.first_response ≡ false
      → drop h.leftover_off h.leftover ≡ []
      → IsValid h
      → Reads n (readable h) (some (read_inner t n h))
  unfolding read_inner
  passthrough-Reads n h f e v =
      let g = record h { inner = (t.poll_read n h.inner).1 } in
      (
        ReadsFrom-at n (t.poll_read n h.inner).0 (sym (readable-passes h f e))
            (sym (readable-passes g f e)) (read_reads n h.inner),
        record {
          leftover_fits = v.leftover_fits;
          nothing_left = v.nothing_left;
          no_head = v.no_head;
        },
      )

  behind_head-found :
      (s rest : Bytes) {i : ℕ}
      → find_double_crlf s ≡ some i
      → behind_head (s ++ rest) ≡ drop (i + 4) s ++ rest
  behind_head-found s rest {i} e =
      ap (behind_match (s ++ rest)) (find_double_crlf-append s rest e)
      ∙ drop-append (i + 4) s rest (IsAt-le i s (find_double_crlf-some s e).here)

  -- A read with no room for a byte takes none.
  ReadsFrom-no_room :
      (r : Poll Bytes) (kept before after : Bytes)
      → ReadsFrom 0 before r after
      → ReadsFrom 0 (kept ++ before) r (kept ++ after)
  ReadsFrom-no_room pending kept before after h = ap (λ b. kept ++ b) h
  ReadsFrom-no_room (err e) kept before after h = ap (λ b. kept ++ b) h
  ReadsFrom-no_room (ok []) kept before after h =
      (ap (λ b. kept ++ b) h.0, h.1, λ room e. absurd (omega arith))
  ReadsFrom-no_room (ok (x ∷ bytes)) kept before after h = absurd (omega (arith, h.1))

  -- The state behind the head, with `left` of its bytes kept for later.
  abbrev headless : HttpObfs S → Bytes → HttpObfs S
  headless h left = record h {
    first_response = false;
    leftover = left;
    leftover_off = 0;
    response_scratch = [];
  }

  headless-IsValid : (h : HttpObfs S) (left : Bytes) → IsValid (headless h left)
  headless-IsValid h left = record {
    leftover_fits = omega arith;
    nothing_left = λ e. cc;
    no_head = λ e. cc;
  }

  headless-Reads :
      (n : ℕ) (h : HttpObfs S) (left : Bytes)
      → (left ≡ []) ⊎ (n ≡ 0)
      → Reads n (left ++ incoming h.inner) (some (read_inner t n (headless h left)))
  headless-Reads n h left (inl e) =
      passthrough-Reads n (headless h left) refl e (headless-IsValid h left)
  headless-Reads n h left (inr e) = rw e (
      unfold read_inner in
      (
        ReadsFrom-no_room (t.poll_read 0 h.inner).0 left (incoming h.inner)
            (incoming (t.poll_read 0 h.inner).1) (read_reads 0 h.inner),
        headless-IsValid (record h { inner = (t.poll_read 0 h.inner).1 }) left,
      ))

  header_found-state :
      (n idx : ℕ) (h : HttpObfs S)
      → h.leftover ≡ []
      → h.leftover_off ≡ 0
      → let body = drop (idx + 4) h.response_scratch in
        let taken = min (length body) n in
        header_found t n idx h ≡ (
          if ltb 0 taken
          then (ok (take taken body), headless h (drop taken body))
          else read_inner t n (headless h (drop taken body)))
  unfolding header_found
  header_found-state n idx h e o =
      let body = drop (idx + 4) h.response_scratch in
      let taken = min (length body) n in
      elim (Bool-cases (ltb taken (length body))) [
        | inl more ↦ rw (more, e)
        | inr all ↦ rw (all, e, o, drop_all taken body (not_ltb→le _ _ all))
      ]

  pub header_found-Reads :
      (n idx : ℕ) (h : HttpObfs S)
      → h.leftover ≡ []
      → h.leftover_off ≡ 0
      → find_double_crlf h.response_scratch ≡ some idx
      → Reads n
          (behind_head (h.response_scratch ++ incoming h.inner))
          (some (header_found t n idx h))
  header_found-Reads n idx h e o f =
      let body = drop (idx + 4) h.response_scratch in
      let taken = min (length body) n in
      rw (header_found-state n idx h e o, behind_head-found h.response_scratch (incoming h.inner) f)
        (elim (Bool-cases (ltb 0 taken)) [
          | inl some_taken ↦ rw some_taken (
            (
              sym (take-append-drop_append taken body (incoming h.inner)),
              omega (arith, length-take taken body),
              λ room none_taken. absurd (
                  omega (
                    arith,
                    ap length none_taken,
                    length-take taken body,
                    ltb→lt 0 taken some_taken,
                  )),
            ),
            headless-IsValid h (drop taken body),
          )
          | inr none_taken ↦ rw none_taken (
              let (same, why) = nothing_taken n body (not_ltb→le 0 taken none_taken) in
              rw (ap (λ b. b ++ incoming h.inner) (sym same))
                (headless-Reads n h (drop taken body) why))
        ])
