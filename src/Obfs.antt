-- ===== src/Obfs.antt =====
-- native/sslocal-ffi/src/obfs.rs: the simple-obfs client wrappers, in HTTP and in TLS mode.
pub mod Drain
pub mod Http
pub mod Tls
