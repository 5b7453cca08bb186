-- ===== src/Obfs/Http/Read/Frame.antt =====
-- What `HttpObfs::poll_read` in native/sslocal-ffi/src/obfs.rs leaves alone, and how much it buffers.
use shadowsocks_ohos.Prelude.{
  ℕ, zero, suc, ◌+◌, min, ◌≡◌, refl, ◌∙◌, [], ◌∷◌, ◌++◌, Bytes, false, Option, none, some, length,
  drop, ltb, Bool-cases, inl, inr,
}
use shadowsocks_ohos.Io.{Poll, pending, ok, err, Transport, IsStream}
use shadowsocks_ohos.Obfs.Http.{
  HttpObfs, find_double_crlf, max_header, read_inner, read_leftover, header_found, header_grown,
  header_round, header_loop, poll_read,
}
use shadowsocks_ohos.Obfs.Http.Read.Ways.{poll_read-ways}

module _ {S : Type 0} (t : Transport S) (law : IsStream t) where
  open law use {incoming, outgoing, read_reads, read_sends_nothing}

  -- The write side is as it was: what is buffered, what it stands for, and what was sent.
  pub record SameWrites (h g : HttpObfs S) : Type 0 where
    pub same_host : g.host ≡ h.host
    pub same_port : g.port ≡ h.port
    pub same_first_request : g.first_request ≡ h.first_request
    pub same_write_buf : g.write_buf ≡ h.write_buf
    pub same_write_buf_off : g.write_buf_off ≡ h.write_buf_off
    pub same_pending_input : g.pending_input ≡ h.pending_input
    pub same_outgoing : outgoing g.inner ≡ outgoing h.inner

  pub SameWrites-trans : {h g k : HttpObfs S} → SameWrites h g → SameWrites g k → SameWrites h k
  SameWrites-trans a b = record {
    same_host = b.same_host ∙ a.same_host;
    same_port = b.same_port ∙ a.same_port;
    same_first_request = b.same_first_request ∙ a.same_first_request;
    same_write_buf = b.same_write_buf ∙ a.same_write_buf;
    same_write_buf_off = b.same_write_buf_off ∙ a.same_write_buf_off;
    same_pending_input = b.same_pending_input ∙ a.same_pending_input;
    same_outgoing = b.same_outgoing ∙ a.same_outgoing;
  }

  abbrev AllSameWrites : HttpObfs S → Option (Poll Bytes × HttpObfs S) → Type 0
  AllSameWrites h none = Unit {0}
  AllSameWrites h (some (r, g)) = SameWrites h g

  -- Changes of the read side and of the inner stream's input.
  pub reading :
      (h : HttpObfs S) (s : S) (first : _) (scratch left : Bytes) (off : ℕ)
      → outgoing s ≡ outgoing h.inner
      → SameWrites h (record h {
        inner = s;
        first_response = first;
        response_scratch = scratch;
        leftover = left;
        leftover_off = off;
      })
  reading h s first scratch left off e = record {
    same_host = refl;
    same_port = refl;
    same_first_request = refl;
    same_write_buf = refl;
    same_write_buf_off = refl;
    same_pending_input = refl;
    same_outgoing = e;
  }

  read_inner-SameWrites : (n : ℕ) (h : HttpObfs S) → SameWrites h (read_inner t n h).1
  unfolding read_inner
  read_inner-SameWrites n h = reading h _ _ _ _ _ (read_sends_nothing n h.inner)

  header_found-SameWrites : (n idx : ℕ) (h : HttpObfs S) → SameWrites h (header_found t n idx h).1
  unfolding header_found
  header_found-SameWrites n idx h =
      elim (Bool-cases (ltb 0 (min (length (drop (idx + 4) h.response_scratch)) n))) [
        | inl some_taken ↦ rw some_taken (reading h _ _ _ _ _ refl)
        | inr none_taken ↦
            rw none_taken
              (SameWrites-trans (reading h h.inner false [] _ _ refl) (read_inner-SameWrites n _))
      ]

  header_grown-SameWrites :
      (again : HttpObfs S → Option (Poll Bytes × HttpObfs S)) (n : ℕ) (h : HttpObfs S)
      (o : Option ℕ)
      → AllSameWrites h (again h)
      → AllSameWrites h (header_grown t again n h o)
  unfolding header_grown
  header_grown-SameWrites again n h (some idx) next = header_found-SameWrites n idx h
  header_grown-SameWrites again n h none next =
      elim (Bool-cases (ltb max_header (length h.response_scratch))) [
        | inl long ↦ rw long (reading h h.inner _ _ _ _ refl)
        | inr short ↦ rw short next
      ]

  After-SameWrites :
      (h g : HttpObfs S) (o : Option (Poll Bytes × HttpObfs S))
      → SameWrites h g
      → AllSameWrites g o
      → AllSameWrites h o
  After-SameWrites h g none a b = tt
  After-SameWrites h g (some (r, k)) a b = SameWrites-trans a b

  header_round-SameWrites :
      (again : HttpObfs S → Option (Poll Bytes × HttpObfs S)) (n : ℕ) (h : HttpObfs S)
      (r : Poll Bytes)
      → ((g : HttpObfs S) → AllSameWrites g (again g))
      → AllSameWrites h (header_round t again n h r)
  unfolding header_round
  header_round-SameWrites again n h pending next = reading h h.inner _ _ _ _ refl
  header_round-SameWrites again n h (err e) next = reading h h.inner _ _ _ _ refl
  header_round-SameWrites again n h (ok []) next = reading h h.inner _ _ _ _ refl
  header_round-SameWrites again n h (ok (x ∷ bytes)) next =
      let g = record h { response_scratch = h.response_scratch ++ x ∷ bytes } in
      After-SameWrites h g _ (reading h h.inner _ _ _ _ refl)
        (header_grown-SameWrites again n g (find_double_crlf g.response_scratch) (next g))

  header_loop-SameWrites : (f n : ℕ) (h : HttpObfs S) → AllSameWrites h (header_loop t f n h)
  unfolding header_loop
  header_loop-SameWrites zero n h = tt
  header_loop-SameWrites (suc f) n h =
      After-SameWrites h (record h { inner = (t.poll_read 1024 h.inner).1 }) _
        (reading h _ _ _ _ _ (read_sends_nothing 1024 h.inner))
        (header_round-SameWrites (header_loop t f n) n _ _ (λ g. header_loop-SameWrites f n g))

  read_leftover-SameWrites : (n : ℕ) (h : HttpObfs S) → SameWrites h (read_leftover n h).1
  unfolding read_leftover
  read_leftover-SameWrites n h = reading h h.inner _ _ _ _ refl

  poll_read-AllSameWrites : (n : ℕ) (h : HttpObfs S) → AllSameWrites h (poll_read t n h)
  poll_read-AllSameWrites n h =
      poll_read-ways t n h (AllSameWrites h) (λ _. read_leftover-SameWrites n h)
        (λ _ _. header_loop-SameWrites _ n h) (λ _ _. read_inner-SameWrites n h)

  -- A read leaves all of the write side as it is, what was sent included.
  pub poll_read-SameWrites :
      {r : Poll Bytes} (n : ℕ) (h g : HttpObfs S) → poll_read t n h ≡ some (r, g) → SameWrites h g
  poll_read-SameWrites n h g e = rw e at (poll_read-AllSameWrites n h)
