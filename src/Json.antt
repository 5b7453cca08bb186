-- ===== src/Json.antt =====
-- The part of `serde_json::Value` that native/sslocal-ffi/src/lib.rs uses. A map is kept as an
-- association list; the order of its keys is seen by nothing here.
pub mod Laws
use shadowsocks_ohos.Prelude.{
  ℕ, zero, suc, Bool, Option, none, some, Text, equal, if◌then◌else◌, List, [], ◌∷◌,
}

mutual
  -- `num` is a number that fits `u64`, `number` any other, by its text.
  pub data Value : Type 0 where
    null : Value
    bool : Bool → Value
    num : ℕ → Value
    number : Text → Value
    str : Text → Value
    arr : Items → Value
    obj : Fields → Value

  pub data Items : Type 0 where
    nil : Items
    cons : Value → Items → Items

  pub data Fields : Type 0 where
    end : Fields
    field : Text → Value → Fields → Fields

unfoldable pub find : Text → Fields → Option Value
find k end = none
find k (field j v fs) = if equal j k then some v else find k fs

unfoldable pub put : Text → Value → Fields → Fields
put k v end = field k v end
put k v (field j w fs) = if equal j k then field k v fs else field j w (put k v fs)

unfoldable pub without : Text → Fields → Fields
without k end = end
without k (field j w fs) = let rest = without k fs in if equal j k then rest else field j w rest

-- `Value::get` at a key.
unfoldable pub get : Text → Value → Option Value
unfolding find
get k (obj fs) = find k fs
get k _ = none

unfoldable pub as_str : Value → Option Text
as_str (str s) = some s
as_str _ = none

unfoldable pub as_u64 : Value → Option ℕ
as_u64 (num n) = some n
as_u64 _ = none

unfoldable pub as_array : Value → Option Items
as_array (arr xs) = some xs
as_array _ = none

-- `value[key] = v` for a text key; `none` is the panic on what is neither an object nor null.
unfoldable pub assign : Text → Value → Value → Option Value
unfolding put
assign k v (obj fs) = some (obj (put k v fs))
assign k v null = some (obj (field k v end))
assign k v _ = none

-- `value.as_object_mut()`, and `remove` on it if there is one.
unfoldable pub remove : Text → Value → Value
unfolding without
remove k (obj fs) = obj (without k fs)
remove k v = v

-- Element `i`, replaced by what `f` makes of it; `none` is a panic, out of bounds or in `f`.
unfoldable pub update_at : ℕ → (Value → Option Value) → Items → Option Items
update_at i f nil = none
update_at zero f (cons v vs) = elim (f v) [ none ↦ none | some w ↦ some (cons w vs) ]
update_at (suc i) f (cons v vs) = elim (update_at i f vs) [
  | none ↦ none
  | some ws ↦ some (cons v ws)
]

-- `&mut json[key][i]`, replaced by what `f` makes of it.
unfoldable pub update_in : Text → ℕ → (Value → Option Value) → Value → Option Value
unfolding find put update_at
update_in k i f (obj fs) = elim (find k fs) [
  | some (arr xs) ↦ elim (update_at i f xs) [
    | none ↦ none
    | some ys ↦ some (obj (put k (arr ys) fs))
  ]
  | _ ↦ none
]
update_in k i f _ = none
