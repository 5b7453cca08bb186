-- ===== src/Encode.antt =====
-- The standard library's encodings that the crate uses: UTF-8 for `str::as_bytes` and `write!`,
-- `Display` of an unsigned integer, and `to_be_bytes` / `from_be_bytes` at sixteen and 32 bits.
mod Laws
pub use Laws.*
unfoldable pub use Defs.*
mod Defs
