-- ===== src/Obfs/Http/Read/Bounds.antt =====
-- How much `HttpObfs::poll_read` in native/sslocal-ffi/src/obfs.rs keeps in memory.
use shadowsocks_ohos.Prelude.{
  ℕ, zero, suc, ◌+◌, ◌≤◌, min, ◌≡◌, ◌⊎◌, refl, ap, [], ◌∷◌, ◌++◌, Bytes, true, false, Option, none,
  some, length, drop, arith, length-append, length-drop, ltb, not_ltb→le, leb, Bool, if◌then◌else◌,
  Bool-cases, inl, inr,
}
use shadowsocks_ohos.Io.{Poll, pending, ok, err, Transport, IsStream, ReadsFrom}
use shadowsocks_ohos.Obfs.Http.{
  HttpObfs, find_double_crlf, max_header, header_too_long, read_inner, read_leftover, header_found,
  header_grown, header_round, header_loop, poll_read,
}
use shadowsocks_ohos.Obfs.Http.Read.Ways.{poll_read-ways}

module _ {S : Type 0} (t : Transport S) (law : IsStream t) where
  open law use {incoming, read_reads}

  -- What is kept between two calls: a head of 16 KiB at most, or the rest of the read that completed it.
  pub record IsSmall (h : HttpObfs S) : Type 0 where
    pub scratch_small : length h.response_scratch ≤ max_header
    pub leftover_small : length h.leftover ≤ max_header + 1024
    pub nothing_left : h.first_response ≡ true → h.leftover ≡ []

  -- After an answer: all is small, or the head is too long, and by one read of 1024 bytes at most.
  abbrev pub AnswersSmall : Poll Bytes → HttpObfs S → Type 0
  AnswersSmall r g =
      IsSmall g ⊎ ((r ≡ err header_too_long) × (length g.response_scratch ≤ max_header + 1024))

  abbrev AllSmall : Option (Poll Bytes × HttpObfs S) → Type 0
  AllSmall none = Unit {0}
  AllSmall (some (r, g)) = AnswersSmall r g

  -- A state without a head to read.
  headless-IsSmall :
      (h : HttpObfs S)
      → h.first_response ≡ false
      → h.response_scratch ≡ []
      → length h.leftover ≤ max_header + 1024
      → IsSmall h
  headless-IsSmall h f e le = record {
    scratch_small = omega (arith, ap length e);
    leftover_small = le;
    nothing_left = λ g. cc;
  }

  -- Only the inner stream changes.
  with_inner-IsSmall : (h : HttpObfs S) (s : S) → IsSmall h → IsSmall (record h { inner = s })
  with_inner-IsSmall h s v = record {
    scratch_small = v.scratch_small;
    leftover_small = v.leftover_small;
    nothing_left = v.nothing_left;
  }

  read_inner-Small : (n : ℕ) (h : HttpObfs S) → IsSmall h → AllSmall (some (read_inner t n h))
  unfolding read_inner
  read_inner-Small n h v = inl (with_inner-IsSmall h _ v)

  header_found-Small :
      (n idx : ℕ) (h : HttpObfs S)
      → h.leftover ≡ []
      → length h.response_scratch ≤ max_header + 1024
      → AllSmall (some (header_found t n idx h))
  unfolding header_found
  header_found-Small n idx h e le =
      let body = drop (idx + 4) h.response_scratch in
      let taken = min (length body) n in
      let kept = if ltb taken (length body) then h.leftover ++ drop taken body else h.leftover in
      let off = if ltb taken (length body) then 0 else h.leftover_off in
      let g = record h {
        first_response = false;
        leftover = kept;
        leftover_off = off;
        response_scratch = [];
      } in
      let small : IsSmall g = headless-IsSmall g refl refl (
        kept-le body taken (ltb taken (length body))
          (omega (arith, length-drop (idx + 4) h.response_scratch))) in
      elim (Bool-cases (ltb 0 taken)) [
        | inl some_taken ↦ rw some_taken (inl small)
        | inr none_taken ↦ rw none_taken (read_inner-Small n g small)
      ]
    where
      kept-le :
          (body : Bytes) (taken : ℕ) (b : Bool)
          → length body ≤ max_header + 1024
          → length (if b then h.leftover ++ drop taken body else h.leftover) ≤ max_header + 1024
      kept-le body taken true k = rw e (omega (arith, length-drop taken body))
      kept-le body taken false k = rw e (omega arith)

  header_grown-Small :
      (again : HttpObfs S → Option (Poll Bytes × HttpObfs S)) (n : ℕ) (h : HttpObfs S)
      (o : Option ℕ)
      → h.leftover ≡ []
      → length h.response_scratch ≤ max_header + 1024
      → (IsSmall h → AllSmall (again h))
      → AllSmall (header_grown t again n h o)
  unfolding header_grown
  header_grown-Small again n h (some idx) e le next = header_found-Small n idx h e le
  header_grown-Small again n h none e le next =
      elim (Bool-cases (ltb max_header (length h.response_scratch))) [
        | inl long ↦ rw long (inr (refl, le))
        | inr short ↦ rw short (
            next (record {
              scratch_small = not_ltb→le _ _ short;
              leftover_small = omega (arith, ap length e);
              nothing_left = λ _. e;
            }))
      ]

  header_round-Small :
      (again : HttpObfs S → Option (Poll Bytes × HttpObfs S)) (n : ℕ) (before : Bytes)
      (h : HttpObfs S) (r : Poll Bytes)
      → h.first_response ≡ true
      → IsSmall h
      → ReadsFrom 1024 before r (incoming h.inner)
      → ((g : HttpObfs S) → g.first_response ≡ true → IsSmall g → AllSmall (again g))
      → AllSmall (header_round t again n h r)
  unfolding header_round
  header_round-Small again n before h pending f v w next = inl v
  header_round-Small again n before h (err e) f v w next = inl v
  header_round-Small again n before h (ok []) f v w next = inl v
  header_round-Small again n before h (ok (x ∷ bytes)) f v w next =
      let g = record h { response_scratch = h.response_scratch ++ x ∷ bytes } in
      header_grown-Small again n g (find_double_crlf g.response_scratch) (v.nothing_left f)
        (omega (arith, length-append h.response_scratch (x ∷ bytes), v.scratch_small, w.1))
        (next g f)

  header_loop-Small :
      (f n : ℕ) (h : HttpObfs S)
      → h.first_response ≡ true
      → IsSmall h
      → AllSmall (header_loop t f n h)
  unfolding header_loop
  header_loop-Small zero n h e v = tt
  header_loop-Small (suc f) n h e v =
      header_round-Small (header_loop t f n) n (incoming h.inner)
        (record h { inner = (t.poll_read 1024 h.inner).1 }) (t.poll_read 1024 h.inner).0 e
        (with_inner-IsSmall h _ v) (read_reads 1024 h.inner)
        (λ g first small. header_loop-Small f n g first small)

  read_leftover-Small : (n : ℕ) (h : HttpObfs S) → IsSmall h → AllSmall (some (read_leftover n h))
  unfolding read_leftover
  read_leftover-Small n h v = inl (
      kept (
        leb (length h.leftover) (h.leftover_off + min (length (drop h.leftover_off h.leftover)) n)))
    where
      kept :
          (b : Bool)
          → IsSmall (record h {
            leftover = if b then [] else h.leftover;
            leftover_off =
                if b then 0 else h.leftover_off + min (length (drop h.leftover_off h.leftover)) n;
          })
      kept true = record {
        scratch_small = v.scratch_small;
        leftover_small = omega arith;
        nothing_left = λ _. refl;
      }
      kept false = record {
        scratch_small = v.scratch_small;
        leftover_small = v.leftover_small;
        nothing_left = v.nothing_left;
      }

  -- From a state that keeps at most 16 KiB of a response's head, and at most 17 KiB of what
  -- stands behind it and none while the head is being read, a read that ends keeps no more than
  -- that, whatever the peer sends, or refuses the head as too long and has then kept at most 17
  -- KiB of it.
  pub poll_read-AnswersSmall :
      {r : Poll Bytes} (n : ℕ) (h g : HttpObfs S)
      → IsSmall h
      → poll_read t n h ≡ some (r, g)
      → AnswersSmall r g
  poll_read-AnswersSmall n h g v e = rw e at (
      poll_read-ways t n h AllSmall (λ _. read_leftover-Small n h v)
        (λ _ first. header_loop-Small _ n h first v) (λ _ _. read_inner-Small n h v))
