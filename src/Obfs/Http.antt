-- ===== src/Obfs/Http.antt =====
-- `HttpObfs` of native/sslocal-ffi/src/obfs.rs: the first write goes out inside a fake HTTP
-- request, the head of the first response is stripped, and then both directions pass through.
pub mod Find
pub mod Request
pub mod Write
pub mod Read
pub mod Duplex
mod Message
unfoldable pub use Message.*
use shadowsocks_ohos.Prelude.{
  ℕ, zero, suc, ◌+◌, ◌-◌, ◌*◌, ◌%◌, min, Bool, true, false, ◌++◌, List, [], ◌∷◌, Option, none, some,
  Bytes, Text, codes, equal, is_empty, length, take, drop, ltb, leb, ◌==◌, if◌then◌else◌,
}
use shadowsocks_ohos.Encode.{utf8, decimal}
use shadowsocks_ohos.Io.{Poll, pending, ok, err, IoError, invalid_data, Transport}
use shadowsocks_ohos.Obfs.Drain.{drain}

-- `struct HttpObfs<S>`.
pub record HttpObfs (S : Type 0) : Type 0 where
  pub inner : S
  pub host : Text
  pub port : ℕ
  pub first_request : Bool
  pub write_buf : Bytes
  pub write_buf_off : ℕ
  pub pending_input : ℕ
  pub first_response : Bool
  pub response_scratch : Bytes
  pub leftover : Bytes
  pub leftover_off : ℕ

-- `HttpObfs::new`.
unfoldable pub new : {S : Type 0} → S → Text → ℕ → HttpObfs S
new inner host port = record {
  inner = inner;
  host = host;
  port = port;
  first_request = true;
  write_buf = [];
  write_buf_off = 0;
  pending_input = 0;
  first_response = true;
  response_scratch = [];
  leftover = [];
  leftover_off = 0;
}

abbrev pub double_crlf : Bytes
double_crlf = 13 ∷ 10 ∷ 13 ∷ 10 ∷ []

-- The rounds of `for i in 0..=data.len() - 4`.
unfoldable pub scan : ℕ → ℕ → Bytes → Option ℕ
scan zero i data_bytes = none
scan (suc k) i data_bytes =
    let rest = scan k (suc i) data_bytes in
    if equal (take 4 (drop i data_bytes)) double_crlf then some i else rest

-- `find_double_crlf`.
unfoldable pub find_double_crlf : Bytes → Option ℕ
unfolding scan
find_double_crlf data_bytes =
    if ltb (length data_bytes) 4 then none else scan (length data_bytes - 4 + 1) 0 data_bytes

abbrev pub max_header : ℕ
max_header = 16 * 1024

abbrev pub header_too_long : IoError
header_too_long = record {
  kind = invalid_data;
  raw_os_error = none;
  message = codes "obfs http: response header exceeds limit";
}

-- The end of `poll_drain_write_buf`: a drained buffer is cleared.
unfoldable pub drained :
    {S : Type 0} → HttpObfs S → Poll (Unit {0}) × ℕ × S → Poll (Unit {0}) × HttpObfs S
drained h (pending, off, s) = (pending, record h { inner = s; write_buf_off = off })
drained h (err e, off, s) = (err e, record h { inner = s; write_buf_off = off })
drained h (ok _, off, s) = (ok tt, record h { inner = s; write_buf = []; write_buf_off = 0 })

-- After a drain in `poll_write`: the input length that the drained request stands for.
unfoldable pub report : {S : Type 0} → Poll (Unit {0}) × HttpObfs S → Poll ℕ × HttpObfs S
report (pending, h) = (pending, h)
report (err e, h) = (err e, h)
report (ok _, h) = (ok h.pending_input, record h { pending_input = 0 })

-- `Pin::new(&mut this.inner).poll_flush(cx)`, or `poll_shutdown`.
unfoldable pub on_inner :
    {S : Type 0} → (S → Poll (Unit {0}) × S) → HttpObfs S → Poll (Unit {0}) × HttpObfs S
on_inner act h = let (r, inner) = act h.inner in (r, record h { inner = inner })

-- `ready!(this.poll_drain_write_buf(cx))?`, and then the inner call.
unfoldable pub if_drained :
    {S : Type 0}
    → (S → Poll (Unit {0}) × S)
    → Poll (Unit {0}) × HttpObfs S
    → Poll (Unit {0}) × HttpObfs S
unfolding on_inner
if_drained act (pending, h) = (pending, h)
if_drained act (err e, h) = (err e, h)
if_drained act (ok _, h) = on_inner act h

-- The bytes left over from the first response, as many as there is room for.
unfoldable pub read_leftover : {S : Type 0} → ℕ → HttpObfs S → Poll Bytes × HttpObfs S
read_leftover n h =
    let avail = drop h.leftover_off h.leftover in
    let taken = min (length avail) n in
    let off = h.leftover_off + taken in
    let used_up = leb (length h.leftover) off in
    (
      ok (take taken avail),
      record h {
        leftover = if used_up then [] else h.leftover;
        leftover_off = if used_up then 0 else off;
      },
    )

module _ {S : Type 0} (t : Transport S) where
  -- `poll_drain_write_buf`.
  unfoldable pub poll_drain_write_buf : HttpObfs S → Poll (Unit {0}) × HttpObfs S
  unfolding drained
  poll_drain_write_buf h = drained h (drain t h.write_buf h.write_buf_off h.inner)

  -- `Pin::new(&mut this.inner).poll_read(cx, buf)`.
  unfoldable pub read_inner : ℕ → HttpObfs S → Poll Bytes × HttpObfs S
  read_inner n h = let (r, inner) = t.poll_read n h.inner in (r, record h { inner = inner })

  -- The head of the response ends at `idx` of the scratch buffer.
  unfoldable pub header_found : ℕ → ℕ → HttpObfs S → Poll Bytes × HttpObfs S
  unfolding read_inner
  header_found n idx h =
      let body = drop (idx + 4) h.response_scratch in
      let taken = min (length body) n in
      let more = ltb taken (length body) in
      let h' = record h {
        first_response = false;
        leftover = if more then h.leftover ++ drop taken body else h.leftover;
        leftover_off = if more then 0 else h.leftover_off;
        response_scratch = [];
      } in
      if ltb 0 taken then (ok (take taken body), h') else read_inner n h'

  -- One round of the `loop`, from what the scratch buffer holds now: the head is there, is too
  -- long, or wants another read.
  unfoldable pub header_grown :
      (HttpObfs S → Option (Poll Bytes × HttpObfs S))
      → ℕ
      → HttpObfs S
      → Option ℕ
      → Option (Poll Bytes × HttpObfs S)
  unfolding header_found
  header_grown again n h (some idx) = some (header_found n idx h)
  header_grown again n h none =
      if ltb max_header (length h.response_scratch) then some (err header_too_long, h) else again h

  -- The round, from the answer of the inner stream.
  unfoldable pub header_round :
      (HttpObfs S → Option (Poll Bytes × HttpObfs S))
      → ℕ
      → HttpObfs S
      → Poll Bytes
      → Option (Poll Bytes × HttpObfs S)
  unfolding header_grown
  header_round again n h pending = some (pending, h)
  header_round again n h (err e) = some (err e, h)
  header_round again n h (ok bytes) =
      let grown = record h { response_scratch = h.response_scratch ++ bytes } in
      if is_empty bytes
      then some (ok [], h)
      else header_grown again n grown (find_double_crlf grown.response_scratch)

  -- The `loop` that reads the head of the first response; `none` is that the fuel has run out.
  unfoldable pub header_loop : ℕ → ℕ → HttpObfs S → Option (Poll Bytes × HttpObfs S)
  unfolding header_round
  header_loop zero n h = none
  header_loop (suc f) n h =
      let (r, inner) = t.poll_read 1024 h.inner in
      header_round (header_loop f n) n (record h { inner = inner }) r

  -- `poll_read`, with room for `n` bytes in the caller's buffer. Each round of the loop that goes
  -- on adds a byte at least to the scratch buffer, which bounds the rounds.
  unfoldable pub poll_read : ℕ → HttpObfs S → Option (Poll Bytes × HttpObfs S)
  unfolding read_leftover read_inner header_loop
  poll_read n h =
      if ltb h.leftover_off (length h.leftover)
      then some (read_leftover n h)
      else if h.first_response
      then header_loop (suc (max_header - length h.response_scratch)) n h
      else some (read_inner n h)

  unfoldable pub drain_pending : HttpObfs S → Poll ℕ × HttpObfs S
  unfolding poll_drain_write_buf report
  drain_pending h = report (poll_drain_write_buf h)

  -- `poll_write`.
  unfoldable pub poll_write : Entropy → Bytes → HttpObfs S → Poll ℕ × HttpObfs S
  unfolding drain_pending
  poll_write rng buf h =
      if is_empty h.write_buf
      then (if h.first_request
          then drain_pending (record h {
            first_request = false;
            write_buf = build_http_request rng h.host h.port buf;
            write_buf_off = 0;
            pending_input = length buf;
          })
          else (let (r, inner) = t.poll_write buf h.inner in (r, record h { inner = inner })))
      else drain_pending h

  -- `poll_flush` and `poll_shutdown` drain what is buffered first.
  unfoldable pub after_drain : (S → Poll (Unit {0}) × S) → HttpObfs S → Poll (Unit {0}) × HttpObfs S
  unfolding poll_drain_write_buf on_inner if_drained
  after_drain act h =
      if is_empty h.write_buf then on_inner act h else if_drained act (poll_drain_write_buf h)

  unfoldable pub poll_flush : HttpObfs S → Poll (Unit {0}) × HttpObfs S
  unfolding after_drain
  poll_flush h = after_drain t.poll_flush h

  unfoldable pub poll_shutdown : HttpObfs S → Poll (Unit {0}) × HttpObfs S
  unfolding after_drain
  poll_shutdown h = after_drain t.poll_shutdown h
