-- ===== src/Obfs/Drain.antt =====
-- `poll_drain_write_buf` of native/sslocal-ffi/src/obfs.rs, the same loop in both wrappers: it
-- writes what is left of `write_buf` until all of it is out or the stream stops it.
pub mod Sends
pub mod Input
pub mod Willing
use native.Mathlib.Nat.{add_assoc}
use shadowsocks_ohos.Prelude.{
  ℕ, zero, suc, ◌+◌, ◌-◌, ◌≤◌, ◌<◌, ◌≡◌, refl, sym, ap, ◌∙◌, List, [], ◌∷◌, ◌++◌, none, Bytes, Text,
  codes, length, take, drop, drop-drop, drop_all, length-drop, take-append-drop, append-nil,
  append_assoc, arith, ltb, ltb→lt, not_ltb→le, lt→ltb, le→not_ltb, if◌then◌else◌, Bool-cases, inl,
  inr,
}
use shadowsocks_ohos.Io.{Poll, pending, ok, err, IoError, write_zero, Transport, IsStream, WritesTo}

abbrev pub write_zero_error : IoError
write_zero_error = record {
  kind = write_zero;
  raw_os_error = none;
  message = codes "obfs: write zero";
}

-- What one round does with the answer of the stream: it stops, or goes on behind what was written.
unfoldable pub drain_round :
    {S : Type 0} → (ℕ → S → Poll (Unit {0}) × ℕ × S) → ℕ → Poll ℕ → S → Poll (Unit {0}) × ℕ × S
drain_round again off pending s = (pending, off, s)
drain_round again off (err e) s = (err e, off, s)
drain_round again off (ok zero) s = (err write_zero_error, off, s)
drain_round again off (ok (suc k)) s = again (off + suc k) s

module _ {S : Type 0} (t : Transport S) where
  -- The rounds of `while self.write_buf_off < self.write_buf.len()`, with the offset and the inner
  -- stream that they change.
  unfoldable pub drain_loop : ℕ → Bytes → ℕ → S → Poll (Unit {0}) × ℕ × S
  drain_loop zero buf off s = (ok tt, off, s)
  drain_loop (suc f) buf off s =
      let (r, s') = t.poll_write (drop off buf) s in
      let round = drain_round (drain_loop f buf) off r s' in
      if ltb off (length buf) then round else (ok tt, off, s)

  -- Each round that goes on moves the offset, so what is left of the buffer is fuel enough.
  unfoldable pub drain : Bytes → ℕ → S → Poll (Unit {0}) × ℕ × S
  unfolding drain_loop drain_round
  drain buf off s = drain_loop (length buf - off) buf off s
