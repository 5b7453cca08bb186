-- ===== src/Obfs/Http/Request.antt =====
-- The head of the fake request of native/sslocal-ffi/src/obfs.rs ends where the payload begins.
use shadowsocks_ohos.Prelude.{
  ℕ, zero, suc, ◌+◌, ◌%◌, ◌<◌, ◌≡◌, ◌≢◌, refl, ◌∙◌, List, [], ◌∷◌, ◌++◌, some, Bytes, Text, codes,
  All, All-append, length, drop, arith, append_assoc, ◌==◌, drop-append_exact, drop-drop,
  Bool-cases, inl, inr,
}
use shadowsocks_ohos.Encode.{utf8, decimal, NoCr, utf8-NoCr, decimal-NoCr}
use shadowsocks_ohos.Obfs.Http.Find.{IsAt, IsFirst, IsFirst-find_double_crlf}
use shadowsocks_ohos.Obfs.Http.{crlf, find_double_crlf, Entropy, host_header, build_http_request}

-- A line of a head: not empty, and with no carriage return.
abbrev IsLine : Bytes → Type 0
IsLine [] = ⊥
IsLine (x ∷ l) = NoCr (x ∷ l)

-- A head of the lines, then the body.
abbrev head_block : Bytes → List Bytes → Bytes → Bytes
head_block l [] body = l ++ (crlf ++ (crlf ++ body))
head_block l (m ∷ ls) body = l ++ (crlf ++ head_block m ls body)

abbrev head_length : Bytes → List Bytes → ℕ
head_length l [] = length l
head_length l (m ∷ ls) = length l + suc (suc (head_length m ls))

IsFirst-cons :
    (x : ℕ) (s : Bytes) {i : ℕ} → ¬ IsAt 0 (x ∷ s) → IsFirst i s → IsFirst (suc i) (x ∷ s)
IsFirst-cons x s {i} out f = record { here = f.here; not_before = before }
  where
    before : (j : ℕ) → j < suc i → ¬ IsAt j (x ∷ s)
    before zero lt = out
    before (suc j) lt = f.not_before j (omega arith)

not-IsAt : (x : ℕ) (s : Bytes) → x ≢ 13 → ¬ IsAt 0 (x ∷ s)
not-IsAt x s h at = h (cc)

IsFirst-move : {i j : ℕ} (s : Bytes) → i ≡ j → IsFirst i s → IsFirst j s
IsFirst-move s e f = rw e at f

IsFirst-append : (l s : Bytes) {i : ℕ} → NoCr l → IsFirst i s → IsFirst (length l + i) (l ++ s)
IsFirst-append [] s h f = IsFirst-move s (omega arith) f
IsFirst-append (x ∷ l) s {i} h f =
    IsFirst-move (x ∷ (l ++ s)) (omega arith)
      (IsFirst-cons x (l ++ s) (not-IsAt x (l ++ s) h.0) (IsFirst-append l s h.1 f))

-- A line end before a line is not a head's end.
IsFirst-crlf :
    (l s : Bytes) {i : ℕ} → IsLine l → IsFirst i (l ++ s) → IsFirst (suc (suc i)) (crlf ++ (l ++ s))
IsFirst-crlf [] s h f = elim h [ ]
IsFirst-crlf (x ∷ l) s h f =
    IsFirst-cons 13 (10 ∷ x ∷ (l ++ s)) (λ at. h.0 (cc))
      (IsFirst-cons 10 (x ∷ (l ++ s)) (not-IsAt 10 (x ∷ (l ++ s)) (omega arith)) f)

IsLine-NoCr : (l : Bytes) → IsLine l → NoCr l
IsLine-NoCr [] h = elim h [ ]
IsLine-NoCr (x ∷ l) h = h

-- What stands behind the first line of a head.
abbrev behind : List Bytes → Bytes → Bytes
behind [] body = crlf ++ (crlf ++ body)
behind (m ∷ ls) body = crlf ++ head_block m ls body

head_block-behind :
    (l : Bytes) (ls : List Bytes) (body : Bytes) → head_block l ls body ≡ l ++ behind ls body
head_block-behind l [] body = refl
head_block-behind l (m ∷ ls) body = refl

IsFirst-end : (body : Bytes) → IsFirst 0 (crlf ++ (crlf ++ body))
IsFirst-end body = record { here = refl; not_before = λ j lt. elim lt [ ] }

head_block-IsFirst :
    (l : Bytes) (ls : List Bytes) (body : Bytes)
    → IsLine l
    → All IsLine ls
    → IsFirst (head_length l ls) (head_block l ls body)
head_block-IsFirst l [] body h hs =
    IsFirst-move (head_block l [] body) (omega arith)
      (IsFirst-append l (crlf ++ (crlf ++ body)) (IsLine-NoCr l h) (IsFirst-end body))
head_block-IsFirst l (m ∷ ls) body h hs =
    IsFirst-append l (crlf ++ head_block m ls body) (IsLine-NoCr l h) (
      rw head_block-behind (
        IsFirst-crlf m (behind ls body) hs.0
          (rw head_block-behind at (head_block-IsFirst m ls body hs.0 hs.1))))

drop_line : (l s : Bytes) (k n : ℕ) → n ≡ length l + k → drop n (l ++ s) ≡ drop k s
drop_line l s k n e =
    rw (e, ← drop-drop (length l) k (l ++ s), drop-append_exact (length l) l s refl)

head_block-body :
    (l : Bytes) (ls : List Bytes) (body : Bytes)
    → drop (head_length l ls + 4) (head_block l ls body) ≡ body
head_block-body l [] body = drop_line l (crlf ++ (crlf ++ body)) 4 (length l + 4) refl
head_block-body l (m ∷ ls) body =
    drop_line l (crlf ++ head_block m ls body) (suc (suc (head_length m ls + 4))) _ (omega arith)
    ∙ head_block-body m ls body

-- The lines behind the first, as `build_http_request` fills them in.
abbrev request_lines : Entropy → Text → ℕ → Bytes → List Bytes
request_lines r host port body =
    (codes "Host: " ++ host_header host port)
    ∷ (codes "User-Agent: curl/7."
        ++ (decimal (r.ua_maj_word % 54) ++ (codes "." ++ decimal (r.ua_min_word % 2))))
    ∷ codes "Upgrade: websocket"
    ∷ codes "Connection: Upgrade"
    ∷ (codes "Sec-WebSocket-Key: " ++ r.encode r.rand_bytes)
    ∷ (codes "Content-Length: " ++ decimal (length body))
    ∷ []

build_http_request-head_block :
    (r : Entropy) (host : Text) (port : ℕ) (body : Bytes)
    → build_http_request r host port body
      ≡ head_block (codes "GET / HTTP/1.1") (request_lines r host port body) body
unfolding build_http_request
build_http_request-head_block r host port body = simp append_assoc

host_header-NoCr : (host : Text) (port : ℕ) → NoCr host → NoCr (host_header host port)
unfolding host_header
host_header-NoCr host port h = elim (Bool-cases (port == 80)) [
  | inl plain ↦ rw plain (utf8-NoCr host h)
  | inr other ↦ rw other (
      All-append (λ c. c ≢ 13) (utf8 host) (b':' ∷ decimal port) (utf8-NoCr host h)
        (omega arith, decimal-NoCr port))
]

append-NoCr : (l m : Bytes) → NoCr l → NoCr m → NoCr (l ++ m)
append-NoCr = All-append (λ c. c ≢ 13)

IsLine-append : (l m : Bytes) → IsLine l → NoCr m → IsLine (l ++ m)
IsLine-append [] m h k = elim h [ ]
IsLine-append (x ∷ l) m h k = append-NoCr (x ∷ l) m h k

request_lines-IsLine :
    (r : Entropy) (host : Text) (port : ℕ) (body : Bytes)
    → NoCr host
    → NoCr (r.encode r.rand_bytes)
    → All IsLine (request_lines r host port body)
request_lines-IsLine r host port body h k =
    let agent =
      append-NoCr (decimal (r.ua_maj_word % 54)) (codes "." ++ decimal (r.ua_min_word % 2))
        (decimal-NoCr (r.ua_maj_word % 54)) (omega arith, decimal-NoCr (r.ua_min_word % 2)) in
    (
      IsLine-append (codes "Host: ") _ (omega arith) (host_header-NoCr host port h),
      (
        IsLine-append (codes "User-Agent: curl/7.") _ (omega arith) agent,
        (
          omega arith,
          (
            omega arith,
            (
              IsLine-append (codes "Sec-WebSocket-Key: ") _ (omega arith) k,
              (
                IsLine-append (codes "Content-Length: ") _ (omega arith)
                    (decimal-NoCr (length body)),
                tt,
              ),
            ),
          ),
        ),
      ),
    )

-- A receiver that cuts the request behind its first double line end gets the payload and nothing
-- else, if the host and the encoded key hold no carriage return.
pub build_http_request-body :
    (r : Entropy) (host : Text) (port : ℕ) (body : Bytes)
    → NoCr host
    → NoCr (r.encode r.rand_bytes)
    → (i : ℕ) × (find_double_crlf (build_http_request r host port body) ≡ some i)
      × (drop (i + 4) (build_http_request r host port body) ≡ body)
build_http_request-body r host port body h k =
    let first = codes "GET / HTTP/1.1" in
    let lines = request_lines r host port body in
    (
      head_length first lines,
      rw build_http_request-head_block (
          IsFirst-find_double_crlf (head_block first lines body) (
            head_block-IsFirst first lines body (omega arith)
              (request_lines-IsLine r host port body h k))),
      rw build_http_request-head_block (head_block-body first lines body),
    )
