-- ===== src/Ffi/Buffers.antt =====
-- `LAST_ERROR` and `LAST_ERROR_HANDED_OUT` of native/sslocal-ffi/src/lib.rs, down to the buffers of their
-- C strings: which are allocated, and which pointer is handed out.
pub mod Owned
pub mod Pointer
use shadowsocks_ohos.Prelude.{
  ℕ, ◌≡◌, ◌==◌, Bool, true, false, Option, none, some, Text, if◌then◌else◌,
}
use shadowsocks_ohos.Ffi.State.{to_c_string}

-- A place that may own a `CString`: the two statics, and the clone of a thread in `sslocal_last_error`.
pub data Owner : Type 0 where
  last_error : Owner
  handed_out : Owner
  clone_of : ℕ → Owner

abbrev pub same : Owner → Owner → Bool
same last_error last_error = true
same handed_out handed_out = true
same (clone_of i) (clone_of j) = i == j
same _ _ = false

-- By address, the text in each buffer that is allocated.
abbrev pub Heap : Type 0
Heap = ℕ → Option Text

-- The buffers, the owners of them, and which threads have made their clone.
pub record Memory : Type 0 where
  pub heap : Heap
  pub owned : Owner → Option ℕ
  pub has_cloned : ℕ → Bool

abbrev pub write : Heap → ℕ → Option Text → Heap
write heap a t b = if a == b then t else heap b

-- A `CString` is dropped.
abbrev pub freed : Heap → Option ℕ → Heap
freed heap none = heap
freed heap (some a) = write heap a none

abbrev pub give : (Owner → Option ℕ) → Owner → Option ℕ → Owner → Option ℕ
give owned o p o' = if same o o' then p else owned o'

abbrev pub mark : (ℕ → Bool) → ℕ → Bool → ℕ → Bool
mark has_cloned i b j = if i == j then b else has_cloned j

-- An owner gets a buffer of its own at `a`, and drops what it had.
abbrev pub fill : Memory → Owner → ℕ → Text → Memory
fill m o a t = record m {
  heap = freed (write m.heap a (some t)) (m.owned o);
  owned = give m.owned o (some a);
}

-- An owner gets what another had, and drops what it had.
abbrev pub pass : Memory → Owner → Owner → Memory
pass m o o' = record m {
  heap = freed m.heap (m.owned o');
  owned = give (give m.owned o none) o' (m.owned o);
}

-- The message is cloned, into a buffer at `a`.
abbrev pub cloned : ℕ → ℕ → Text → Memory → Memory
cloned i a t m = record (fill m (clone_of i) a t) { has_cloned = mark m.has_cloned i true }

-- The clone is moved to `LAST_ERROR_HANDED_OUT`.
abbrev pub handed : ℕ → Memory → Memory
handed i m = record (pass m (clone_of i) handed_out) { has_cloned = mark m.has_cloned i false }

-- The accesses to the two statics, by any threads in any order. The allocator answers with an address that
-- is not in use; it may have been before.
pub data Access (m : Memory) : Memory → Type 0 where
  -- `set_last_error`.
  sets_last_error :
      (a : ℕ) (message : Text)
      → m.heap a ≡ none
      → Access m (fill m last_error a (to_c_string message))
  -- `LAST_ERROR.lock().unwrap().clone()`.
  clones_none :
      (i : ℕ)
      → m.has_cloned i ≡ false
      → m.owned last_error ≡ none
      → Access m (record m { has_cloned = mark m.has_cloned i true })
  clones :
      (i a : ℕ) {b : ℕ} {t : Text}
      → m.has_cloned i ≡ false
      → m.owned last_error ≡ some b
      → m.heap b ≡ some t
      → m.heap a ≡ none
      → Access m (cloned i a t m)
  -- `*handed_out = message`, and the pointer is returned.
  hands_out : (i : ℕ) → m.has_cloned i ≡ true → Access m (handed i m)

abbrev pub at_load : Memory
at_load = record { heap = λ a. none; owned = λ o. none; has_cloned = λ i. false }

pub data IsAccessed : Memory → Type 0 where
  at_first : IsAccessed at_load
  then_access : {m m' : Memory} → IsAccessed m → Access m m' → IsAccessed m'
