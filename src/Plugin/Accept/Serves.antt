-- ===== src/Plugin/Accept/Serves.antt =====
-- Whom the accept loop of native/sslocal-ffi/src/plugin.rs serves, and how long it waits.
use mathlib.Core.Path.{subst}
use shadowsocks_ohos.Prelude.{
  ℕ, suc, ◌+◌, ◌*◌, ◌≤◌, ◌≡◌, refl, ap, List, [], ◌∷◌, ◌++◌, map, All, true, false, Option, none,
  some, Text, length, arith, Bool-cases, ◌⊎◌, inl, inr,
}
use shadowsocks_ohos.Io.{
  ErrorKind, connection_aborted, connection_reset, interrupted, would_block, timed_out, write_zero,
  invalid_data, other, IoError,
}
use shadowsocks_ohos.Plugin.{PluginKind}
use shadowsocks_ohos.Plugin.Accept.{
  Errno, Accepted, connection, failed, Action, relay, sleep, give_up, on_error, accept_loop,
  is_transient_kind, is_shortage, is_transient_accept_error,
}

abbrev pub IsOneOf : {A : Type 0} → List A → A → Type 0
IsOneOf [] a = ⊥
IsOneOf (x ∷ xs) a = (a ≡ x) ⊎ IsOneOf xs a

abbrev pub kinds : List ErrorKind
kinds = connection_aborted ∷ connection_reset ∷ interrupted ∷ would_block ∷ timed_out ∷ []

abbrev pub shortages : Errno → List ℕ
shortages os = os.emfile ∷ os.enfile ∷ os.enobufs ∷ os.enomem ∷ []

-- The errors after which a listener can still accept.
abbrev pub IsTransient : Errno → IoError → Type 0
IsTransient os e =
    IsOneOf kinds e.kind ⊎ ((n : ℕ) × (e.raw_os_error ≡ some n) × IsOneOf (shortages os) n)

is_transient_kind_lem :
    (k : ErrorKind)
    → ((is_transient_kind k ≡ true) × IsOneOf kinds k)
      ⊎ ((is_transient_kind k ≡ false) × (¬ IsOneOf kinds k))
unfolding is_transient_kind
is_transient_kind_lem connection_aborted = inl (refl, inl refl)
is_transient_kind_lem connection_reset = inl (refl, inr (inl refl))
is_transient_kind_lem interrupted = inl (refl, inr (inr (inl refl)))
is_transient_kind_lem would_block = inl (refl, inr (inr (inr (inl refl))))
is_transient_kind_lem timed_out = inl (refl, inr (inr (inr (inr (inl refl)))))
is_transient_kind_lem write_zero = inr (refl, λ m. ground arith)
is_transient_kind_lem invalid_data = inr (refl, λ m. ground arith)
is_transient_kind_lem (other n) = inr (refl, λ m. ground arith)

is_number :
    (os : Errno) (n : ℕ)
    → ((is_shortage os (some n) ≡ true) × IsOneOf (shortages os) n)
      ⊎ ((is_shortage os (some n) ≡ false) × (¬ IsOneOf (shortages os) n))
unfolding is_shortage
is_number os n = ground arith

injective : {m n : ℕ} → some n ≡ some m → m ≡ n
injective e = cc

is_shortage_lem :
    (os : Errno) (o : Option ℕ)
    → ((is_shortage os o ≡ true) × ((n : ℕ) × (o ≡ some n) × IsOneOf (shortages os) n))
      ⊎ ((is_shortage os o ≡ false) × (¬ ((n : ℕ) × (o ≡ some n) × IsOneOf (shortages os) n)))
unfolding is_shortage
is_shortage_lem os none = inr (refl, λ m. absurd cc)
is_shortage_lem os (some n) = elim (is_number os n) [
  | inl m ↦ inl (m.0, (n, refl, m.1))
  | inr m ↦ inr (m.0, λ k. m.1 (subst (IsOneOf (shortages os)) (injective k.1) k.2))
]

is_transient_accept_error_lem :
    (os : Errno) (e : IoError)
    → ((is_transient_accept_error os e ≡ true) × IsTransient os e)
      ⊎ ((is_transient_accept_error os e ≡ false) × (¬ IsTransient os e))
unfolding is_transient_accept_error
is_transient_accept_error_lem os e = elim (is_transient_kind_lem e.kind) [
  | inl k ↦ inl (rw k.0 refl, inl k.1)
  | inr k ↦ elim (is_shortage_lem os e.raw_os_error) [
    | inl s ↦ inl (rw (k.0, s.0) refl, inr s.1)
    | inr s ↦ inr (rw (k.0, s.0) refl, λ m. elim m [ inl a ↦ k.1 a | inr b ↦ s.1 b ])
  ]
]

-- An answer at which the loop goes on.
abbrev pub GoesOn : Errno → Accepted → Type 0
GoesOn os (connection peer) = Unit {0}
GoesOn os (failed e) = IsTransient os e

-- What is done at it: the peer is relayed, or the loop waits for 100 ms.
abbrev pub one_action : PluginKind → Text → ℕ → Accepted → Action
one_action kind host port (connection peer) = relay peer kind host port
one_action kind host port (failed e) = sleep 100

-- The loop goes on at every answer; or up to an error that is not transient, where it gives up.
abbrev pub Serves : Errno → PluginKind → Text → ℕ → List Accepted → List Action → Type 0
Serves os kind host port answers actions =
    (All (GoesOn os) answers × (actions ≡ map (one_action kind host port) answers))
    ⊎ ((before : List Accepted) × (e : IoError) × (after : List Accepted) × (answers
          ≡ before ++ failed e ∷ after)
        × All (GoesOn os) before
        × (¬ IsTransient os e)
        × (actions ≡ map (one_action kind host port) before ++ give_up e ∷ []))

Serves-cons :
    {os : Errno} (kind : PluginKind) (host : Text) (port : ℕ) (a : Accepted) (rest : List Accepted)
    (actions : List Action)
    → GoesOn os a
    → Serves os kind host port rest actions
    → Serves os kind host port (a ∷ rest) (one_action kind host port a ∷ actions)
Serves-cons kind host port a rest actions h (inl s) =
    inl ((h, s.0), ap (λ l. one_action kind host port a ∷ l) s.1)
Serves-cons kind host port a rest actions h (inr (before, e, after, split, on, fatal, done)) = inr (
  a ∷ before,
  e,
  after,
  ap (λ l. a ∷ l) split,
  (h, on),
  fatal,
  ap (λ l. one_action kind host port a ∷ l) done,
)

-- The loop relays every peer that it accepts, once and in the order in which they came, through the
-- forwarder's own plugin to the forwarder's own server, and waits 100 ms after each transient error,
-- until the first error that is not transient, at which it gives up; with no such error it never does.
-- Transient are the kinds ConnectionAborted, ConnectionReset, Interrupted, WouldBlock and TimedOut, and
-- the numbers EMFILE, ENFILE, ENOBUFS and ENOMEM.
pub accept_loop-Serves :
    (os : Errno) (kind : PluginKind) (host : Text) (port : ℕ) (answers : List Accepted)
    → Serves os kind host port answers (accept_loop os kind host port answers)
unfolding accept_loop
accept_loop-Serves os kind host port [] = inl (tt, refl)
accept_loop-Serves os kind host port (connection peer ∷ rest) =
    Serves-cons kind host port (connection peer) rest _ tt
      (accept_loop-Serves os kind host port rest)
accept_loop-Serves os kind host port (failed e ∷ rest) = elim (is_transient_accept_error_lem os e) [
  | inl transient ↦
      rw (on_error, transient.0)
        (Serves-cons kind host port (failed e) rest _ transient.1
          (accept_loop-Serves os kind host port rest))
  | inr fatal ↦ rw (on_error, fatal.0) (inr ([], e, rest, refl, tt, fatal.1, refl))
]

-- The time that the loop has waited, and the peers that it has relayed.
abbrev pub waited : List Action → ℕ
waited [] = 0
waited (sleep ms ∷ l) = ms + waited l
waited (relay peer kind host port ∷ l) = waited l
waited (give_up e ∷ l) = waited l

abbrev pub relays : List Action → ℕ
relays [] = 0
relays (relay peer kind host port ∷ l) = suc (relays l)
relays (sleep ms ∷ l) = relays l
relays (give_up e ∷ l) = relays l

-- The loop cannot spin: but for the peers that it relays, and one last round, each of its rounds has
-- cost 100 ms of waiting.
pub length-accept_loop :
    (os : Errno) (kind : PluginKind) (host : Text) (port : ℕ) (answers : List Accepted)
    → let done = accept_loop os kind host port answers in
      100 * length done ≤ 100 * (relays done + 1) + waited done
unfolding accept_loop
length-accept_loop os kind host port [] = omega arith
length-accept_loop os kind host port (connection peer ∷ rest) =
    omega (arith, length-accept_loop os kind host port rest)
length-accept_loop os kind host port (failed e ∷ rest) =
    elim (Bool-cases (is_transient_accept_error os e)) [
      | inl transient ↦
          rw (on_error, transient) (omega (arith, length-accept_loop os kind host port rest))
      | inr fatal ↦ rw (on_error, fatal) (omega arith)
    ]
