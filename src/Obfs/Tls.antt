-- ===== src/Obfs/Tls.antt =====
-- `TlsObfs` of native/sslocal-ffi/src/obfs.rs: the first chunk goes out inside a fake TLS
-- ClientHello, every later one in a fake application-data record, and reads strip the records.
pub mod Hello
pub mod Surface
pub mod Read
pub mod Write
pub mod Duplex
mod Message
unfoldable pub use Message.*
use shadowsocks_ohos.Prelude.{
  ℕ, zero, suc, ◌+◌, ◌-◌, ◌%◌, ◌^◌, min, Bool, true, false, ◌++◌, [], ◌∷◌, Option, none, some,
  Bytes, Text, is_empty, length, take, drop, leb, ◌==◌, if◌then◌else◌,
}
use shadowsocks_ohos.Encode.{utf8, be16, be32, u16_mod, from_be16}
use shadowsocks_ohos.Io.{Poll, pending, ok, err, Transport}
use shadowsocks_ohos.Obfs.Drain.{drain}

abbrev pub tls_chunk_size : ℕ
tls_chunk_size = 2 ^ 14

abbrev pub tls_first_response_discard : ℕ
tls_first_response_discard = 105

abbrev pub tls_record_header_discard : ℕ
tls_record_header_discard = 3

-- `enum TlsReadPhase`.
pub data TlsReadPhase : Type 0 where
  discard : ℕ → TlsReadPhase
  length_field : TlsReadPhase
  payload : ℕ → TlsReadPhase

-- `struct TlsObfs<S>`; `len_buf` holds two bytes.
pub record TlsObfs (S : Type 0) : Type 0 where
  pub inner : S
  pub server : Text
  pub first_response : Bool
  pub read_phase : TlsReadPhase
  pub len_buf : Bytes
  pub len_progress : ℕ
  pub first_request : Bool
  pub write_buf : Bytes
  pub write_buf_off : ℕ
  pub pending_input : ℕ

-- `TlsObfs::new`.
unfoldable pub new : {S : Type 0} → S → Text → TlsObfs S
new inner server = record {
  inner = inner;
  server = server;
  first_response = true;
  read_phase = discard tls_first_response_discard;
  len_buf = 0 ∷ 0 ∷ [];
  len_progress = 0;
  first_request = true;
  write_buf = [];
  write_buf_off = 0;
  pending_input = 0;
}

-- `u16::from_be_bytes` of the two bytes.
unfoldable pub frame_length : Bytes → ℕ
frame_length (hi ∷ lo ∷ _) = from_be16 hi lo
frame_length _ = 0

-- `len_buf[at..at + bytes.len()].copy_from_slice(bytes)`.
unfoldable pub copied : Bytes → ℕ → Bytes → Bytes
copied buf at bytes = take at buf ++ (bytes ++ drop (at + length bytes) buf)

-- The end of `poll_drain_write_buf`: a drained buffer is cleared.
unfoldable pub drained :
    {S : Type 0} → TlsObfs S → Poll (Unit {0}) × ℕ × S → Poll (Unit {0}) × TlsObfs S
drained h (pending, off, s) = (pending, record h { inner = s; write_buf_off = off })
drained h (err e, off, s) = (err e, record h { inner = s; write_buf_off = off })
drained h (ok _, off, s) = (ok tt, record h { inner = s; write_buf = []; write_buf_off = 0 })

-- After a drain in `poll_write`: the input length that the drained record stands for.
unfoldable pub report : {S : Type 0} → Poll (Unit {0}) × TlsObfs S → Poll ℕ × TlsObfs S
report (pending, h) = (pending, h)
report (err e, h) = (err e, h)
report (ok _, h) = (ok h.pending_input, record h { pending_input = 0 })

-- `Pin::new(&mut this.inner).poll_flush(cx)`, or `poll_shutdown`.
unfoldable pub on_inner :
    {S : Type 0} → (S → Poll (Unit {0}) × S) → TlsObfs S → Poll (Unit {0}) × TlsObfs S
on_inner act h = let (r, inner) = act h.inner in (r, record h { inner = inner })

-- `ready!(this.poll_drain_write_buf(cx))?`, and then the inner call.
unfoldable pub if_drained :
    {S : Type 0}
    → (S → Poll (Unit {0}) × S)
    → Poll (Unit {0}) × TlsObfs S
    → Poll (Unit {0}) × TlsObfs S
unfolding on_inner
if_drained act (pending, h) = (pending, h)
if_drained act (err e, h) = (err e, h)
if_drained act (ok _, h) = on_inner act h

-- The arms of the `match` in `poll_read`, from the answer of the inner stream. `again` is the next
-- round of the loop.
module _ {S : Type 0} (again : TlsObfs S → Option (Poll Bytes × TlsObfs S)) where
  -- `Discard(remaining)`.
  unfoldable pub discarded : ℕ → TlsObfs S → Poll Bytes → Option (Poll Bytes × TlsObfs S)
  discarded remaining h pending = some (pending, h)
  discarded remaining h (err e) = some (err e, h)
  discarded remaining h (ok bytes) =
      if is_empty bytes
      then some (ok [], h)
      else again (record h { read_phase = discard (remaining - length bytes) })

  -- `Length`.
  unfoldable pub length_read : TlsObfs S → Poll Bytes → Option (Poll Bytes × TlsObfs S)
  unfolding copied
  length_read h pending = some (pending, h)
  length_read h (err e) = some (err e, h)
  length_read h (ok bytes) =
      if is_empty bytes
      then some (ok [], h)
      else again (record h {
        len_buf = copied h.len_buf h.len_progress bytes;
        len_progress = h.len_progress + length bytes;
      })

-- `Payload(remaining)`.
unfoldable pub payload_read : {S : Type 0} → ℕ → TlsObfs S → Poll Bytes → Poll Bytes × TlsObfs S
payload_read remaining h pending = (pending, h)
payload_read remaining h (err e) = (err e, h)
payload_read remaining h (ok bytes) =
    if is_empty bytes
    then (ok [], h)
    else (ok bytes, record h { read_phase = payload (remaining - length bytes) })

module _ {S : Type 0} (t : Transport S) where
  -- One round of the loop in `poll_read`.
  unfoldable pub read_round :
      (TlsObfs S → Option (Poll Bytes × TlsObfs S))
      → ℕ
      → TlsObfs S
      → TlsReadPhase
      → Option (Poll Bytes × TlsObfs S)
  unfolding discarded length_read payload_read frame_length
  read_round again n h (discard zero) =
      again (record h { read_phase = length_field; len_progress = 0 })
  read_round again n h (discard (suc k)) =
      let (r, inner) = t.poll_read (min (suc k) 256) h.inner in
      discarded again (suc k) (record h { inner = inner }) r
  read_round again n h length_field =
      let (r, inner) = t.poll_read (2 - h.len_progress) h.inner in
      if leb 2 h.len_progress
      then again (record h { read_phase = payload (frame_length h.len_buf) })
      else length_read again (record h { inner = inner }) r
  read_round again n h (payload zero) =
      again (record h { read_phase = discard tls_record_header_discard; first_response = false })
  read_round again n h (payload (suc k)) =
      let space = min n (suc k) in
      let (r, inner) = t.poll_read space h.inner in
      if space == 0
      then some (ok [], h)
      else some (payload_read (suc k) (record h { inner = inner }) r)

  -- `poll_read`, with room for `n` bytes in the caller's buffer; `none` is that the fuel has run out.
  unfoldable pub poll_read : ℕ → ℕ → TlsObfs S → Option (Poll Bytes × TlsObfs S)
  unfolding read_round
  poll_read zero n h = none
  poll_read (suc f) n h = read_round (poll_read f n) n h h.read_phase

  -- `poll_drain_write_buf`.
  unfoldable pub poll_drain_write_buf : TlsObfs S → Poll (Unit {0}) × TlsObfs S
  unfolding drained
  poll_drain_write_buf h = drained h (drain t h.write_buf h.write_buf_off h.inner)

  unfoldable pub drain_pending : TlsObfs S → Poll ℕ × TlsObfs S
  unfolding poll_drain_write_buf report
  drain_pending h = report (poll_drain_write_buf h)

  -- `poll_write`.
  unfoldable pub poll_write : Entropy → Bytes → TlsObfs S → Poll ℕ × TlsObfs S
  unfolding drain_pending
  poll_write rng buf h =
      let taken = min (length buf) tls_chunk_size in
      let chunk = take taken buf in
      if is_empty h.write_buf
      then (if is_empty buf
          then (ok 0, h)
          else drain_pending (record h {
            first_request = false;
            write_buf =
                if h.first_request then build_client_hello rng chunk h.server else framed chunk;
            write_buf_off = 0;
            pending_input = taken;
          }))
      else drain_pending h

  -- `poll_flush` and `poll_shutdown` drain what is buffered first.
  unfoldable pub after_drain : (S → Poll (Unit {0}) × S) → TlsObfs S → Poll (Unit {0}) × TlsObfs S
  unfolding poll_drain_write_buf on_inner if_drained
  after_drain act h =
      if is_empty h.write_buf then on_inner act h else if_drained act (poll_drain_write_buf h)

  unfoldable pub poll_flush : TlsObfs S → Poll (Unit {0}) × TlsObfs S
  unfolding after_drain
  poll_flush h = after_drain t.poll_flush h

  unfoldable pub poll_shutdown : TlsObfs S → Poll (Unit {0}) × TlsObfs S
  unfolding after_drain
  poll_shutdown h = after_drain t.poll_shutdown h
