-- ===== src/Ffi/Session/Quiet.antt =====
-- Actions that only read the state until they fail, and then record why: all of a start of
-- native/sslocal-ffi/src/lib.rs but its last line.
use shadowsocks_ohos.Prelude.{ℕ, ◌≡◌, ◌≢◌, refl, some, Text}
use shadowsocks_ohos.Ffi.State.{
  ℤ, negsuc, sslocal_ok, Globals, Outcome, ok, err, panic, Action, pure, bound, ◌>>=◌, raise,
  to_c_string,
}

-- A code of failure is returned, its message is recorded, and nothing else has changed.
pub record Refused (g : Globals) (code : ℤ) (g' : Globals) : Type 0 where
  pub failure : code ≢ sslocal_ok
  pub recorded : (message : Text) × (g'.last_error ≡ some (to_c_string message))
  pub same_instance : g'.instance_slot ≡ g.instance_slot
  pub same_handed_out : g'.last_error_handed_out ≡ g.last_error_handed_out
  pub same_stat_addr : g'.stat_addr ≡ g.stat_addr

module _ {A : Type 0} where
  -- A value of `P` is returned and nothing has changed, or the call is refused; it never panics.
  abbrev pub QuietAt : (A → Type 0) → Globals → Outcome A × Globals → Type 0
  QuietAt P g (ok a, g') = (g' ≡ g) × P a
  QuietAt P g (err code, g') = Refused g code g'
  QuietAt P g (panic, g') = ⊥

  pub record IsQuiet (P : A → Type 0) (m : Action A) : Type 0 where
    pub quiet : (g : Globals) → QuietAt P g (m g)

abbrev pub Any : {A : Type 0} → A → Type 0
Any a = Unit {0}

module _ {A : Type 0} (P : A → Type 0) where
  pub pure-IsQuiet : (a : A) → P a → IsQuiet P (pure a)
  unfolding pure
  pure-IsQuiet a p = record { quiet = λ g. (refl, p) }

  pub raise-IsQuiet : (message : Text) (n : ℕ) → IsQuiet P (raise {A = A} message (negsuc n))
  unfolding raise
  raise-IsQuiet message n = record {
    quiet = λ g. record {
      failure = λ e. cc;
      recorded = (message, refl);
      same_instance = refl;
      same_handed_out = refl;
      same_stat_addr = refl;
    };
  }

module _ {A B : Type 0} (P : A → Type 0) (Q : B → Type 0) where
  bound-QuietAt :
      (f : A → Action B) (g : Globals) (r : Outcome A × Globals)
      → QuietAt P g r
      → ((a : A) → P a → IsQuiet Q (f a))
      → QuietAt Q g (bound f r)
  unfolding bound
  bound-QuietAt f g (ok a, g') (e, p) k = rw (← e) ((k a p).quiet g')
  bound-QuietAt f g (err c, g') r k = r
  bound-QuietAt f g (panic, g') r k = r

  pub bind-IsQuiet :
      (m : Action A) (f : A → Action B)
      → IsQuiet P m
      → ((a : A) → P a → IsQuiet Q (f a))
      → IsQuiet Q (m >>= f)
  unfolding ◌>>=◌
  bind-IsQuiet m f q k = record { quiet = λ g. bound-QuietAt f g (m g) (q.quiet g) k }
