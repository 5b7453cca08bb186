-- ===== src/Obfs/Http/Read/Loop.antt =====
-- The loop of `HttpObfs::poll_read` in native/sslocal-ffi/src/obfs.rs ends, and reads as a stream.
use shadowsocks_ohos.Prelude.{
  ℕ, zero, suc, ◌+◌, ◌-◌, ◌≤◌, ◌<◌, ◌≡◌, refl, sym, ap, ◌∙◌, [], ◌∷◌, ◌++◌, Bytes, true, Option,
  none, some, length, drop, drop_all, drop-nil, arith, append-nil, append_assoc, length-append, ltb,
  ltb→lt, not_ltb→le, Bool-cases, inl, inr,
}
use shadowsocks_ohos.Io.{Poll, pending, ok, err, Transport, IsStream, ReadsFrom}
use shadowsocks_ohos.Obfs.Http.{
  HttpObfs, find_double_crlf, max_header, header_grown, header_round, header_loop, poll_read,
}
use shadowsocks_ohos.Obfs.Http.Read.{
  behind_head, behind_match, unread_body, readable, IsValid, Reads, read_leftover-Reads,
  passthrough-Reads, header_found-Reads,
}
use shadowsocks_ohos.Obfs.Http.Read.Ways.{poll_read-ways}

module _ {S : Type 0} (t : Transport S) (law : IsStream t) where
  open law use {incoming, read_reads}

  readable_head :
      (h : HttpObfs S)
      → h.first_response ≡ true
      → h.leftover ≡ []
      → readable t law h ≡ behind_head (h.response_scratch ++ incoming h.inner)
  readable_head h f e =
      let body = unread_body h.first_response h.response_scratch (incoming h.inner) in
      ap (λ l. drop h.leftover_off l ++ body) e
      ∙ ap (λ l. l ++ body) (drop-nil h.leftover_off)
      ∙ ap (λ b. unread_body b h.response_scratch (incoming h.inner)) f

  no_body :
      (h : HttpObfs S) (before : Bytes)
      → find_double_crlf h.response_scratch ≡ none
      → before ≡ []
      → behind_head (h.response_scratch ++ before) ≡ []
  no_body h before e nothing =
      ap behind_head (ap (λ b. h.response_scratch ++ b) nothing ∙ append-nil h.response_scratch)
      ∙ ap (behind_match h.response_scratch) e

  leftover_off_zero : (h : HttpObfs S) → IsValid t law h → h.leftover ≡ [] → h.leftover_off ≡ 0
  leftover_off_zero h v e = omega (arith, ap length e, v.leftover_fits)

  header_grown-Reads :
      (again : HttpObfs S → Option (Poll Bytes × HttpObfs S)) (n : ℕ) (h : HttpObfs S)
      (o : Option ℕ)
      → h.first_response ≡ true
      → h.leftover ≡ []
      → h.leftover_off ≡ 0
      → find_double_crlf h.response_scratch ≡ o
      → (length h.response_scratch ≤ max_header
          → IsValid t law h
          → Reads t law n (readable t law h) (again h))
      → Reads t law n (readable t law h) (header_grown t again n h o)
  unfolding header_grown
  header_grown-Reads again n h (some idx) f l off e next =
      rw (readable_head h f l) (header_found-Reads t law n idx h l off e)
  header_grown-Reads again n h none f l off e next =
      let v : IsValid t law h = record {
        leftover_fits = omega arith;
        nothing_left = λ _. l;
        no_head = λ _. e;
      } in
      elim (Bool-cases (ltb max_header (length h.response_scratch))) [
        | inl long ↦ rw long (refl, v)
        | inr short ↦ rw short (next (not_ltb→le _ _ short) v)
      ]

  -- From the round of the loop on: if the rounds that follow end well, so does this one.
  header_round-Reads :
      (again : HttpObfs S → Option (Poll Bytes × HttpObfs S)) (n : ℕ) (before : Bytes)
      (h : HttpObfs S) (r : Poll Bytes)
      → h.first_response ≡ true
      → IsValid t law h
      → ReadsFrom 1024 before r (incoming h.inner)
      → ((bytes : Bytes)
          → let g = record h { response_scratch = h.response_scratch ++ bytes } in
            length h.response_scratch < length g.response_scratch
            → length g.response_scratch ≤ max_header
            → IsValid t law g
            → Reads t law n (readable t law g) (again g))
      → Reads t law n (behind_head (h.response_scratch ++ before)) (header_round t again n h r)
  unfolding header_round
  header_round-Reads again n before h pending f v w next =
      (readable_head h f (v.nothing_left f) ∙ ap (λ b. behind_head (h.response_scratch ++ b)) w, v)
  header_round-Reads again n before h (err e) f v w next =
      (readable_head h f (v.nothing_left f) ∙ ap (λ b. behind_head (h.response_scratch ++ b)) w, v)
  header_round-Reads again n before h (ok []) f v w next =
      let same = readable_head h f (v.nothing_left f) in
      (
        (
          ap (λ b. behind_head (h.response_scratch ++ b)) w.0 ∙ sym same,
          omega arith,
          λ room e. no_body h before (v.no_head f) (w.2 (omega arith) refl),
        ),
        v,
      )
  header_round-Reads again n before h (ok (x ∷ bytes)) f v w next =
      let grown = record h { response_scratch = h.response_scratch ++ x ∷ bytes } in
      let l = v.nothing_left f in
      let same : readable t law grown ≡ behind_head (h.response_scratch ++ before) =
        readable_head grown f l
        ∙ ap behind_head (
            append_assoc h.response_scratch (x ∷ bytes) (incoming h.inner)
            ∙ ap (λ b. h.response_scratch ++ b) (sym w.0)) in
      rw same at (
        header_grown-Reads again n grown (find_double_crlf grown.response_scratch) f l
          (leftover_off_zero h v l) refl
          (next (x ∷ bytes) (omega (arith, length-append h.response_scratch (x ∷ bytes)))))

  header_loop-Reads :
      (f n : ℕ) (h : HttpObfs S)
      → h.first_response ≡ true
      → IsValid t law h
      → 0 < f
      → max_header < length h.response_scratch + f
      → Reads t law n (readable t law h) (header_loop t f n h)
  unfolding header_loop
  header_loop-Reads zero n h e v pos enough = elim pos [ ]
  header_loop-Reads (suc f) n h e v pos enough = rw (readable_head h e (v.nothing_left e)) (
      header_round-Reads (header_loop t f n) n (incoming h.inner)
        (record h { inner = (t.poll_read 1024 h.inner).1 }) (t.poll_read 1024 h.inner).0 e
        (record {
          leftover_fits = v.leftover_fits;
          nothing_left = v.nothing_left;
          no_head = v.no_head;
        })
        (read_reads 1024 h.inner)
        (λ bytes longer fits valid. header_loop-Reads f n _ e valid (omega arith) (omega arith)))

  -- From a valid state every call of `poll_read` ends, in a valid state, and to its caller the wrapper is a stream of the bytes behind
  -- the head of the response: an answer takes the next of them off the front, at most as many as
  -- there is room for; a wait or an error loses none; and no bytes are answered, where there is
  -- room, only when none will come.
  pub poll_read-Reads :
      (n : ℕ) (h : HttpObfs S)
      → IsValid t law h
      → Reads t law n (readable t law h) (poll_read t n h)
  poll_read-Reads n h v =
      poll_read-ways t n h (Reads t law n (readable t law h))
        (λ left. read_leftover-Reads t law n h v (ltb→lt _ _ left))
        (λ _ first.
          header_loop-Reads (suc (max_header - length h.response_scratch)) n h first v (omega arith)
            (omega arith))
        (λ none_left later.
          passthrough-Reads t law n h later
            (drop_all h.leftover_off h.leftover (not_ltb→le _ _ none_left)) v)
