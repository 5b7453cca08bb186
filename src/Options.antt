-- ===== src/Options.antt =====
-- SIP003 option strings, as native/sslocal-ffi/src/plugin.rs and v2ray_plugin.rs cut them into keys
-- and values, with the functions of the standard library's `str` that they use.
pub mod Last
pub mod Print
use mathlib.Core.List.{reverse}
use mathlib.Core.Option
use shadowsocks_ohos.Prelude.{
  ℕ, ◌+◌, Bool, true, false, not, ◌&&◌, ◌||◌, List, [], ◌∷◌, map, Option, none, some, Text, codes,
  is_empty, equal, leb, ◌==◌, if◌then◌else◌,
}

-- `char::is_whitespace`: the code points with the Unicode property White_Space.
unfoldable pub is_whitespace : ℕ → Bool
is_whitespace c =
    (leb 0x9 c && leb c 0xd)
    || c == 0x20
    || c == 0x85
    || c == 0xa0
    || c == 0x1680
    || (leb 0x2000 c && leb c 0x200a)
    || c == 0x2028
    || c == 0x2029
    || c == 0x202f
    || c == 0x205f
    || c == 0x3000

unfoldable pub trim_start : Text → Text
unfolding is_whitespace
trim_start [] = []
trim_start (c ∷ s) = let rest = trim_start s in if is_whitespace c then rest else c ∷ s

-- `str::trim`.
unfoldable pub trim : Text → Text
unfolding trim_start
trim s = reverse (trim_start (reverse (trim_start s)))

abbrev pub onto_first : ℕ → List Text → List Text
onto_first c [] = (c ∷ []) ∷ []
onto_first c (s ∷ ss) = (c ∷ s) ∷ ss

-- `str::split` at a character.
unfoldable pub split : ℕ → Text → List Text
split sep [] = [] ∷ []
split sep (c ∷ s) = let rest = split sep s in if c == sep then [] ∷ rest else onto_first c rest

-- `str::split_once` at a character.
unfoldable pub split_once : ℕ → Text → Option (Text × Text)
split_once sep [] = none
split_once sep (c ∷ s) =
    let rest = split_once sep s in
    if c == sep then some ([], s) else Option.map (λ (k, v). (c ∷ k, v)) rest

unfoldable pub not_empty : List Text → List Text
not_empty [] = []
not_empty (s ∷ ss) = if is_empty s then not_empty ss else s ∷ not_empty ss

-- `opts.split(';').map(str::trim).filter(|t| !t.is_empty())`.
unfoldable pub tokens : Text → List Text
unfolding split trim not_empty
tokens opts = not_empty (map trim (split b';' opts))

-- A token's key and value; a bare key takes the default.
unfoldable pub key_value : Text → Text → Text × Text
unfolding split_once trim
key_value bare token = elim (split_once b'=' token) [
  | some (k, v) ↦ (trim k, trim v)
  | none ↦ (token, bare)
]

-- `to_ascii_lowercase` and `eq_ignore_ascii_case`.
abbrev pub lower : ℕ → ℕ
lower c = if leb b'A' c && leb c b'Z' then c + 32 else c

unfoldable pub to_ascii_lowercase : Text → Text
to_ascii_lowercase s = map lower s

unfoldable pub eq_ignore_ascii_case : Text → Text → Bool
unfolding to_ascii_lowercase equal
eq_ignore_ascii_case a b = equal (to_ascii_lowercase a) (to_ascii_lowercase b)

-- All pairs of an option string, in order.
unfoldable pub pairs : Text → Text → List (Text × Text)
unfolding tokens key_value
pairs bare opts = map (key_value bare) (tokens opts)
