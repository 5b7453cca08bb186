-- ===== src/Options/Last.antt =====
-- The value that an option string gives to a key: that of its last occurrence.
use shadowsocks_ohos.Prelude.{
  ◌≡◌, refl, Bool, true, false, List, [], ◌∷◌, Option, none, some, Text, equal, if◌then◌else◌,
}

abbrev pub or_else {ℓ} : {A : Type ℓ} → Option A → Option A → Option A
or_else none o = o
or_else (some a) o = some a

-- The last value of `key`.
abbrev pub last_value : Text → List (Text × Text) → Option Text
last_value key [] = none
last_value key ((k, v) ∷ ps) = or_else (last_value key ps) (if equal k key then some v else none)

-- What it is read as, or the default.
abbrev pub read_as {ℓ} : {A : Type ℓ} → (Text → A) → A → Option Text → A
read_as f d none = d
read_as f d (some v) = f v

pub read_as-last_value {ℓ} :
    {A : Type ℓ} (f : Text → A) (d : A) (key k v : Text) (ps : List (Text × Text))
    → read_as f d (last_value key ((k, v) ∷ ps))
      ≡ read_as f (if equal k key then f v else d) (last_value key ps)
read_as-last_value f d key k v ps = in_cases (last_value key ps) (equal k key)
  where
    in_cases :
        (o : Option Text) (b : Bool)
        → read_as f d (or_else o (if b then some v else none)) ≡ read_as f (if b then f v else d) o
    in_cases none true = refl
    in_cases none false = refl
    in_cases (some w) b = refl

pub read_as-some : (o : Option Text) → read_as some none o ≡ o
read_as-some none = refl
read_as-some (some v) = refl
