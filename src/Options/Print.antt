-- ===== src/Options/Print.antt =====
-- Option strings written out, and read back by native/sslocal-ffi/src/plugin.rs and v2ray_plugin.rs.
use mathlib.Core.List.{reverse, reverse-append, reverse-cons, reverse-reverse}
use mathlib.Core.Path.{subst}
use shadowsocks_ohos.Prelude.{
  ℕ, false, ◌≡◌, ◌≢◌, refl, sym, ap, ◌∙◌, List, [], ◌∷◌, ◌++◌, some, Text, All, All-append,
  if_false, map, is_empty, ◌==◌, ==_iff, arith,
}
use shadowsocks_ohos.Options.{
  is_whitespace, trim_start, trim, split, split_once, not_empty, tokens, key_value, pairs,
}

-- `k=v;` for each pair.
abbrev pub print : List (Text × Text) → Text
print [] = []
print ((k, v) ∷ ps) = (k ++ (b'=' ∷ v)) ++ (b';' ∷ print ps)

-- No white space in front.
abbrev pub StartsBlack : Text → Type 0
StartsBlack [] = Unit {0}
StartsBlack (c ∷ s) = is_whitespace c ≡ false

-- No white space at either end.
abbrev pub IsTrimmed : Text → Type 0
IsTrimmed s = StartsBlack s × StartsBlack (reverse s)

-- Free of a character.
abbrev pub Lacks : ℕ → Text → Type 0
Lacks c s = All (λ d. d ≢ c) s

-- A pair that can be written: the key is there and has no separator, and the value no semicolon.
pub record IsClean (p : Text × Text) : Type 0 where
  pub key_there : is_empty p.0 ≡ false
  pub key_trimmed : IsTrimmed p.0
  pub key_alone : Lacks b'=' p.0
  pub key_whole : Lacks b';' p.0
  pub value_trimmed : IsTrimmed p.1
  pub value_whole : Lacks b';' p.1

trim_start-StartsBlack : (s : Text) → StartsBlack s → trim_start s ≡ s
unfolding trim_start
trim_start-StartsBlack [] h = refl
trim_start-StartsBlack (c ∷ s) h = rw h refl

pub trim-IsTrimmed : (s : Text) → IsTrimmed s → trim s ≡ s
unfolding trim
trim-IsTrimmed s h =
    ap (λ x. reverse (trim_start (reverse x))) (trim_start-StartsBlack s h.0)
    ∙ ap reverse (trim_start-StartsBlack (reverse s) h.1)
    ∙ reverse-reverse s

not_the : {c d : ℕ} → d ≢ c → (d == c) ≡ false
not_the {c} {d} h = ground (arith, ==_iff d c)

split-Lacks :
    (sep : ℕ) (s rest : Text) → Lacks sep s → split sep (s ++ (sep ∷ rest)) ≡ s ∷ split sep rest
unfolding split
split-Lacks sep [] rest h = rw ((==_iff sep sep).1 refl) refl
split-Lacks sep (c ∷ s) rest h = rw (not_the h.0, split-Lacks sep s rest h.1) refl

pub split_once-Lacks :
    (sep : ℕ) (k v : Text) → Lacks sep k → split_once sep (k ++ (sep ∷ v)) ≡ some (k, v)
unfolding split_once
split_once-Lacks sep [] v h = rw ((==_iff sep sep).1 refl) refl
split_once-Lacks sep (c ∷ k) v h = rw (not_the h.0, split_once-Lacks sep k v h.1) refl

StartsBlack-append : (s t : Text) → StartsBlack s → StartsBlack t → StartsBlack (s ++ t)
StartsBlack-append [] t h k = k
StartsBlack-append (c ∷ s) t h k = h

-- Two trimmed texts with a separator between them are trimmed.
pub append-IsTrimmed :
    (sep : ℕ) (k v : Text)
    → is_whitespace sep ≡ false
    → IsTrimmed k
    → IsTrimmed v
    → IsTrimmed (k ++ (sep ∷ v))
append-IsTrimmed sep k v black hk hv = (
  StartsBlack-append k (sep ∷ v) hk.0 black,
  subst StartsBlack
      (sym (reverse-append k (sep ∷ v) ∙ ap (λ x. x ++ reverse k) (reverse-cons sep v)))
      (StartsBlack-append (reverse v ++ (sep ∷ [])) (reverse k)
        (StartsBlack-append (reverse v) (sep ∷ []) hv.1 black) hk.1),
)

token_there : (k v : Text) → is_empty (k ++ (b'=' ∷ v)) ≡ false
token_there [] v = refl
token_there (c ∷ k) v = refl

token-Lacks : (k v : Text) → Lacks b';' k → Lacks b';' v → Lacks b';' (k ++ (b'=' ∷ v))
token-Lacks k v hk hv = All-append (λ d. d ≢ b';') k (b'=' ∷ v) hk (omega arith, hv)

key_value-token :
    (bare k v : Text)
    → IsTrimmed k
    → IsTrimmed v
    → Lacks b'=' k
    → key_value bare (k ++ (b'=' ∷ v)) ≡ (k, v)
unfolding key_value
key_value-token bare k v hk hv alone =
    rw (key_value, split_once-Lacks b'=' k v alone)
      (λ i. (trim-IsTrimmed k hk i, trim-IsTrimmed v hv i))

tokens-token :
    (k v rest : Text)
    → IsTrimmed k
    → IsTrimmed v
    → Lacks b';' k
    → Lacks b';' v
    → tokens ((k ++ (b'=' ∷ v)) ++ (b';' ∷ rest)) ≡ (k ++ (b'=' ∷ v)) ∷ tokens rest
unfolding tokens not_empty is_whitespace
tokens-token k v rest hk hv lk lv =
    ap (λ ts. not_empty (map trim ts))
      (split-Lacks b';' (k ++ (b'=' ∷ v)) rest (token-Lacks k v lk lv))
    ∙ ap (λ x. not_empty (x ∷ map trim (split b';' rest)))
        (trim-IsTrimmed (k ++ (b'=' ∷ v)) (append-IsTrimmed b'=' k v refl hk hv))
    ∙ if_false _ _ (token_there k v)

-- Pairs that are written out as an option string read back as they were, in order, if each key has no
-- separator in it and each value no semicolon, and none has white space at an end.
pub pairs-print :
    (bare : Text) (ps : List (Text × Text)) → All IsClean ps → pairs bare (print ps) ≡ ps
unfolding pairs tokens not_empty split trim trim_start
pairs-print bare [] h = refl
pairs-print bare ((k, v) ∷ ps) (c, h) =
    ap (map (key_value bare))
      (tokens-token k v (print ps) c.key_trimmed c.value_trimmed c.key_whole c.value_whole)
    ∙ (λ i.
        key_value-token bare k v c.key_trimmed c.value_trimmed c.key_alone i
        ∷ pairs-print bare ps h i)
