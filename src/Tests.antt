-- ===== src/Tests.antt =====
-- Runs of the definitions on concrete input, and the theorems on the same input.
mod Pipe
mod Http
mod Tls
mod Options
mod Ffi
mod Duplex
mod Plugin
mod Dial
mod Relay
mod NetHelper
mod Willing
mod Threads
mod Buffers
