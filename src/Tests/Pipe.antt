-- ===== src/Tests/Pipe.antt =====
-- A transport that runs: the peer's bytes wait to be read, and a write takes what the credit allows.
use shadowsocks_ohos.Prelude.{
  ℕ, ◌-◌, ◌<◌, ◌≡◌, refl, sym, ap, min, [], ◌∷◌, ◌++◌, Bytes, length, take, drop, take-append-drop,
  length-take, ◌==◌, if◌then◌else◌, arith, Bool-cases, inl, inr,
}
use shadowsocks_ohos.Io.{Poll, pending, ok, Transport, IsStream, WritesTo}

pub record Pipe : Type 0 where
  pub waiting : Bytes
  pub sent : Bytes
  pub credit : ℕ

-- With no credit left a write waits, and the next one finds some.
unfoldable pub accept : Bytes → Pipe → Poll ℕ × Pipe
accept buf p =
    let n = min (length buf) p.credit in
    if p.credit == 0
    then (pending, record p { credit = 1000 })
    else (ok n, record p { sent = p.sent ++ take n buf; credit = p.credit - n })

abbrev pub pipe : Transport Pipe
pipe = record {
  poll_read = λ n p. (ok (take n p.waiting), record p { waiting = drop n p.waiting });
  poll_write = accept;
  poll_flush = λ p. (ok tt, p);
  poll_shutdown = λ p. (ok tt, p);
}

pub no_room : (n : ℕ) (s : Bytes) → 0 < n → take n s ≡ [] → s ≡ []
no_room n [] room e = refl
no_room n (b ∷ s) room e = absurd (omega (arith, length-take n (b ∷ s), ap length e))

pub accept-WritesTo :
    (buf : Bytes) (p : Pipe) → WritesTo buf p.sent (accept buf p).0 (accept buf p).1.sent
unfolding accept
accept-WritesTo buf p = elim (Bool-cases (p.credit == 0)) [
  | inl used ↦ rw used refl
  | inr some_left ↦ rw some_left (refl, omega arith)
]

pub accept-waiting : (buf : Bytes) (p : Pipe) → (accept buf p).1.waiting ≡ p.waiting
unfolding accept
accept-waiting buf p = elim (Bool-cases (p.credit == 0)) [
  | inl used ↦ rw used refl
  | inr some_left ↦ rw some_left refl
]

abbrev pub pipe-IsStream : IsStream pipe
pipe-IsStream = record {
  incoming = λ p. p.waiting;
  outgoing = λ p. p.sent;
  read_reads = λ n p. (
    sym (take-append-drop n p.waiting),
    omega (arith, length-take n p.waiting),
    no_room n p.waiting,
  );
  read_sends_nothing = λ n p. refl;
  write_writes = accept-WritesTo;
  write_reads_nothing = accept-waiting;
  flush_keeps = λ p. refl;
  shutdown_keeps = λ p. refl;
  flush_reads_nothing = λ p. refl;
  shutdown_reads_nothing = λ p. refl;
}

-- A pipe with some bytes to read and credit for a part of a write.
abbrev pub fresh : Bytes → Pipe
fresh bytes = record { waiting = bytes; sent = []; credit = 100 }
