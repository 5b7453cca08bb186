-- ===== src/Tests/Duplex.antt =====
-- Reads and writes of a wrapper between each other.
pub mod Http
mod Tls
