-- ===== src/Io.antt =====
-- The interface of an asynchronous byte stream, as native/sslocal-ffi/src/obfs.rs uses it: tokio's
-- `AsyncRead` and `AsyncWrite`, which the crate does not implement, as a record of operations, and
-- their documented contract as a record of laws.
use shadowsocks_ohos.Prelude.{ℕ, ◌≤◌, ◌<◌, ◌≡◌, [], ◌++◌, Option, Bytes, Text, length, take}

-- The `std::io::ErrorKind`s that the crate names; `other` stands for each of the rest.
pub data ErrorKind : Type 0 where
  connection_aborted connection_reset interrupted would_block timed_out : ErrorKind
  write_zero invalid_data : ErrorKind
  other : ℕ → ErrorKind

-- `std::io::Error`: its kind, the operating system's number if it carries one, and its message.
pub record IoError : Type 0 where
  pub kind : ErrorKind
  pub raw_os_error : Option ℕ
  pub message : Text

-- What a call outside the crate answers; `X` is its error.
pub data Answer (X A : Type 0) : Type 0 where
  done : A → Answer X A
  failed : X → Answer X A

-- `Poll<io::Result<A>>`.
pub data Poll (A : Type 0) : Type 0 where
  pending : Poll A
  ok : A → Poll A
  err : IoError → Poll A

-- What a stream does when it is polled. A read is given the room in the caller's `ReadBuf` and
-- answers with the bytes that it put there.
pub record Transport (S : Type 0) : Type 0 where
  pub poll_read : ℕ → S → Poll Bytes × S
  pub poll_write : Bytes → S → Poll ℕ × S
  pub poll_flush : S → Poll (Unit {0}) × S
  pub poll_shutdown : S → Poll (Unit {0}) × S

-- A read takes bytes off the front of what the peer sends, at most as many as there is room for.
-- An answer of no bytes although there is room says that the peer sends no more.
abbrev pub ReadsFrom : ℕ → Bytes → Poll Bytes → Bytes → Type 0
ReadsFrom n before pending after = after ≡ before
ReadsFrom n before (ok bytes) after =
    (before ≡ bytes ++ after) × (length bytes ≤ n) × (0 < n → bytes ≡ [] → before ≡ [])
ReadsFrom n before (err e) after = after ≡ before

-- A write sends a prefix of the buffer, as long as it says.
abbrev pub WritesTo : Bytes → Bytes → Poll ℕ → Bytes → Type 0
WritesTo buf before pending after = after ≡ before
WritesTo buf before (ok n) after = (after ≡ before ++ take n buf) × (n ≤ length buf)
WritesTo buf before (err e) after = after ≡ before

-- The contract. `incoming` is all that the peer will have sent and that is not yet read;
-- `outgoing` is all that the stream has taken for the peer.
pub record IsStream {S : Type 0} (t : Transport S) : Type 0 where
  pub incoming : S → Bytes
  pub outgoing : S → Bytes
  pub read_reads :
      (n : ℕ) (s : S) → ReadsFrom n (incoming s) (t.poll_read n s).0 (incoming (t.poll_read n s).1)
  pub read_sends_nothing : (n : ℕ) (s : S) → outgoing (t.poll_read n s).1 ≡ outgoing s
  pub write_writes :
      (buf : Bytes) (s : S)
      → WritesTo buf (outgoing s) (t.poll_write buf s).0 (outgoing (t.poll_write buf s).1)
  pub write_reads_nothing : (buf : Bytes) (s : S) → incoming (t.poll_write buf s).1 ≡ incoming s
  pub flush_keeps : (s : S) → outgoing (t.poll_flush s).1 ≡ outgoing s
  pub shutdown_keeps : (s : S) → outgoing (t.poll_shutdown s).1 ≡ outgoing s
  pub flush_reads_nothing : (s : S) → incoming (t.poll_flush s).1 ≡ incoming s
  pub shutdown_reads_nothing : (s : S) → incoming (t.poll_shutdown s).1 ≡ incoming s

pub ReadsFrom-at :
    (n : ℕ) (r : Poll Bytes) {before before' after after' : Bytes}
    → before ≡ before'
    → after ≡ after'
    → ReadsFrom n before r after
    → ReadsFrom n before' r after'
ReadsFrom-at n r e e' h = rw (e, e') at h
