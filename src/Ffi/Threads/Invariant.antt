-- ===== src/Ffi/Threads/Invariant.antt =====
-- What the threads of native/sslocal-ffi/src/lib.rs have in common with calls one after the other.
use mathlib.Core.Path.{subst}
use shadowsocks_ohos.Prelude.{
  ℕ, ◌≡◌, refl, ap, ◌∙◌, Option, none, some, List, ◌∷◌, Text, Bool-cases, ◌==◌, inl, inr,
}
use shadowsocks_ohos.Ffi.State.{ℤ, Globals, ok, err, Instance, set_last_error, Config, Forwarder}
use shadowsocks_ohos.Ffi.Threads.{
  Start, Call, Returned, code, call, call_of, Log, Pc, waits, Held, locked, checked, loaded,
  attached, prepared, stopping, leaving, Lock, free, held, System,
}
use shadowsocks_ohos.Ffi.Threads.Run.{update}
use shadowsocks_ohos.Ffi.Threads.Order.{IsOutside, refused, Inserts, before, Reorders, keeps}
use shadowsocks_ohos.Ffi.Threads.Local.{Fate, goes, fails, panics, prepare-IsLocal}
use shadowsocks_ohos.Ffi.Threads.Serial.{Serial, then_call, perform, call-perform, coded}
use shadowsocks_ohos.Ffi.Threads.Stages.{Parsed, Launched}

-- A start that is bound to succeed, although it has not stored its instance yet.
abbrev pub Debt : Type 0
Debt = Option (Start × Instance)

abbrev pub owes : Start → List Forwarder → Fate Config → Debt
owes st forwarders (goes c) = some (st, record { config = c; forwarders = forwarders })
owes st forwarders (fails message c) = none
owes st forwarders panics = none

-- `attach_stat_address`, given the address.
abbrev pub with_stat : Config → Option Text → Config
with_stat config none = config
with_stat config (some addr) = record config { local_stat_addr = some addr }

-- The globals of the threads and those of the calls one after the other, and their logs, are the same but
-- for the start that is bound to succeed.
abbrev pub Tied : Debt → Option Instance → Log → Option Instance → Log → Type 0
Tied none slot log slot' log' = (slot' ≡ slot) × Reorders log log'
Tied (some (st, instance)) slot log slot' log' =
    (slot' ≡ some instance)
    × ((log'' : Log) × Reorders log log'' × Inserts (call_of st, code (ok tt)) log'' log')

pub Tied-cons :
    (d : Debt) (slot slot' : Option Instance) (log log' : Log) {x : Call × Returned}
    → IsOutside x
    → Tied d slot log slot' log'
    → Tied d slot (x ∷ log) slot' (x ∷ log')
Tied-cons none slot slot' log log' {x} h (e, p) = (e, keeps x p)
Tied-cons (some (st, instance)) slot slot' log log' {x} h (e, (log'', p, q)) =
    (e, (x ∷ log'', keeps x p, before h q))

abbrev pub debt_of : Held → Debt
debt_of (attached st (a, forwarders)) = owes st forwarders (prepare-IsLocal st.env st a).fate
debt_of (prepared st (c, forwarders)) = some (st, record { config = c; forwarders = forwarders })
debt_of _ = none

abbrev pub debt : Lock → Debt
debt free = none
debt (held i h) = debt_of h

-- What a thread inside the lock knows.
abbrev pub Knows : Held → Option Instance → Type 0
Knows (locked st x) slot = Parsed st.env st x
Knows (checked st x) slot = (slot ≡ none) × Parsed st.env st x
Knows (loaded st y) slot = (slot ≡ none) × Launched st.env st y
Knows (attached st (a, forwarders)) slot =
    (slot ≡ none)
    × ((config : Config) × Launched st.env st (config, forwarders)
        × ((stat : Option Text) × (a ≡ with_stat config stat)))
Knows (prepared st y) slot = slot ≡ none
Knows stopping slot = Unit
Knows leaving slot = Unit

abbrev pub Within : Lock → Option Instance → Type 0
Within free slot = Unit
Within (held i h) slot = Knows h slot

-- What a thread outside of it knows.
abbrev pub Waits : Pc → Type 0
Waits (waits st x) = Parsed st.env st x
Waits _ = Unit

pub record Core (d : Debt) (g : Globals) (log : Log) : Type 0 where
  pub calls : Log
  pub serial : Globals
  pub history : Serial calls serial
  pub same_error : serial.last_error ≡ g.last_error
  pub same_stat : serial.stat_addr ≡ g.stat_addr
  pub tied : Tied d g.instance_slot log serial.instance_slot calls

pub record Inv (s : System) : Type 0 where
  pub core : Core (debt s.lock) s.globals s.log
  pub within : Within s.lock s.globals.instance_slot
  pub waiting : (i : ℕ) → Waits (s.pc i)

pub Waits-update :
    (pc : ℕ → Pc) (i : ℕ) (p : Pc)
    → ((j : ℕ) → Waits (pc j))
    → Waits p
    → (j : ℕ) → Waits (update pc i p j)
Waits-update pc i p h k j = elim (Bool-cases (i == j)) [
  | inl same ↦ rw same k
  | inr other ↦ rw other (h j)
]

pub returns :
    {l : Log} {g g' : Globals} {r : Returned} (c : Call)
    → Serial l g
    → call c g ≡ (r, g')
    → Serial ((c, r) ∷ l) g'
returns {l} c h e = subst (λ p. Serial ((c, p.0) ∷ l) p.1) e (then_call c h)

-- A call that changes neither the instance nor the address, and records what it records on its own.
pub Core-refused :
    {d : Debt} {g : Globals} {log : Log} {c : ℤ} (m : Text) (st : Start) (k : Core d g log)
    → perform st.env st k.serial ≡ (err c, set_last_error m k.serial)
    → Core d (set_last_error m g) ((call_of st, code (err c)) ∷ log)
unfolding set_last_error
Core-refused {d} m st k e = record {
  calls = _;
  serial = _;
  history = returns (call_of st) k.history (call-perform st k.serial ∙ ap coded e);
  same_error = refl;
  same_stat = k.same_stat;
  tied = Tied-cons d _ _ _ _ (refused st _) k.tied;
}
