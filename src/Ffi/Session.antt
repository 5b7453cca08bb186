-- ===== src/Ffi/Session.antt =====
-- What the calls of native/sslocal-ffi/src/lib.rs do to the state, each alone and in a row.
pub mod Quiet
pub mod Sites
pub mod Parts
pub mod Starts
pub mod Steps
pub mod Rewrite
pub mod Tun
pub mod Fields
pub mod Named
pub mod Forwards
pub mod SetUp
pub mod Lifecycle
