-- ===== src/Obfs/Tls/Hello.antt =====
-- A reader of TLS ClientHello records, written from the layout that RFC 5246 gives them: what a
-- server finds in the messages that native/sslocal-ffi/src/obfs.rs fakes.
pub mod Extensions
pub mod RoundTrip
pub mod Record
use shadowsocks_ohos.Prelude.{
  ℕ, zero, suc, ◌+◌, Bool, ◌&&◌, List, [], ◌∷◌, Option, none, some, Bytes, length, take, drop, leb,
  ◌==◌, if◌then◌else◌, is_empty,
}
use shadowsocks_ohos.Encode.{from_be16}

infixl 5 ◌>>=◌
abbrev pub ◌>>=◌ : {A B : Type 0} → Option A → (A → Option B) → Option B
none >>= f = none
some a >>= f = f a

-- The next `n` bytes, and what follows them.
pub cut : ℕ → Bytes → Option (Bytes × Bytes)
cut n s = if leb n (length s) then some (take n s, drop n s) else none

-- A vector behind its length, in one byte or in two.
pub vector8 : Bytes → Option (Bytes × Bytes)
vector8 [] = none
vector8 (n ∷ s) = cut n s

pub vector16 : Bytes → Option (Bytes × Bytes)
vector16 (hi ∷ lo ∷ s) = cut (from_be16 hi lo) s
vector16 _ = none

-- A vector that is all there is.
pub all_of : Bytes × Bytes → Option Bytes
all_of (v, rest) = if is_empty rest then some v else none

-- The bytes behind a constant prefix.
pub behind : Bytes → Bytes → Option Bytes
behind [] s = some s
behind (p ∷ ps) [] = none
behind (p ∷ ps) (b ∷ s) = if p == b then behind ps s else none

-- The extensions, by their numbers; `n` is how many there may be.
pub extensions : ℕ → Bytes → Option (List (ℕ × Bytes))
extensions n [] = some []
extensions (suc n) (hi ∷ lo ∷ s) = do
  (body, rest) ← vector16 s
  others ← extensions n rest
  some ((from_be16 hi lo, body) ∷ others)
extensions _ _ = none

pub extension : ℕ → List (ℕ × Bytes) → Option Bytes
extension k [] = none
extension k ((j, body) ∷ es) = if j == k then some body else extension k es

-- The one host name of a server-name extension.
pub host_name : Bytes → Option Bytes
host_name s = do
  names ← (vector16 s >>= all_of)
  name ← behind (0 ∷ []) names
  vector16 name >>= all_of

-- The session ticket and the host name of a ClientHello, behind its random.
pub hello_tail : Bytes → Option (Bytes × Bytes)
hello_tail s = do
  (_, s) ← vector8 s
  (_, s) ← vector16 s
  (_, s) ← vector8 s
  s ← (vector16 s >>= all_of)
  es ← extensions 16 s
  ticket ← extension 0x0023 es
  sni ← extension 0x0000 es
  name ← host_name sni
  some (ticket, name)

-- The session ticket and the host name of a record that holds a ClientHello and nothing else.
pub read_client_hello : Bytes → Option (Bytes × Bytes)
read_client_hello s = do
  s ← behind (0x16 ∷ 0x03 ∷ 0x01 ∷ []) s
  s ← (vector16 s >>= all_of)
  s ← behind (0x01 ∷ 0x00 ∷ []) s
  s ← (vector16 s >>= all_of)
  s ← behind (0x03 ∷ 0x03 ∷ []) s
  (_, s) ← cut 32 s
  hello_tail s
