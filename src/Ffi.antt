-- ===== src/Ffi.antt =====
-- native/sslocal-ffi/src/lib.rs: the C ABI, as actions on the process-wide state.
pub mod State
pub mod Specs
pub mod Start
pub mod Control
pub mod Session
pub mod Threads
pub mod Buffers
