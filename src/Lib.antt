-- ===== src/Lib.antt =====
-- shadowsocks-ohos: the native core of the application, the Rust crate native/sslocal-ffi.
--
-- The crate wraps shadowsocks-service in a C ABI (native/sslocal-ffi/src/lib.rs). A config that names a
-- SIP003 plugin is rewritten before the service sees it: for each server with a plugin a forwarder
-- listens on the loopback, and relays what it accepts through an obfuscating wrapper
-- (native/sslocal-ffi/src/plugin.rs, obfs.rs and v2ray_plugin.rs).
--
-- Prelude, Prelude.Tests, Lists, Lengths: the names and lemmas that all modules share.
-- Io: a polled byte stream. The wrappers are generic in the stream that they wrap, so a record of its
--   operations is a parameter, and tokio's contract for AsyncRead and AsyncWrite is a record of laws.
-- Encode: UTF-8, decimal numbers and big-endian words.
-- Obfs.Drain: poll_drain_write_buf of obfs.rs, which both wrappers have. Its fuel is the length of what
--   is left of the buffer, since each round that goes on moves the offset.
-- Obfs.Http, Obfs.Http.Message: HttpObfs of obfs.rs and the request that it fakes, each poll function as
--   a function from a state to an answer and a state. The loop that reads the response's head adds a
--   byte or more a round and ends behind 16 KiB, which is its fuel. What build_http_request draws at
--   random, and the base64 encoder, are parameters.
-- Obfs.Tls, Obfs.Tls.Message: TlsObfs of obfs.rs and the ClientHello that it fakes, likewise. Its read
--   loop may take four rounds for each byte that the peer sends and some before the first, so its fuel
--   is an argument. Lengths wrap at sixteen bits, as in a build without overflow checks. Random bytes
--   and the clock are parameters.
-- Options: the option strings of plugins, cut into keys and values, with the parts of Rust's str that
--   this takes; white space is the Unicode property, case is ASCII only. Options.Print, V2rayPlugin.Print
--   and Plugin.Print write out what is read.
-- PluginError, Plugin: PluginError, PluginKind, parse_plugin and parse_simple_obfs_opts of plugin.rs.
-- Plugin.Accept: the accept loop of start_forwarder in plugin.rs, on all that the listener answers, as
--   the list of what it does.
-- Plugin.Wrap, Plugin.Forwarder: wrap_stream of plugin.rs, the task of a connection and start_forwarder.
-- Plugin.Relay: a simple-obfs connection from end to end, with the server that it is meant for.
-- V2rayPlugin: V2rayPluginConfig and parse_opts of v2ray_plugin.rs; its header map is an association
--   list, in which an insert replaces.
-- V2rayPlugin.Dial: dial of v2ray_plugin.rs. The TLS and WebSocket layers of the meow-transport crate,
--   and TcpStream::connect, are a record of what they answer.
-- Json: the values of serde_json, as far as lib.rs looks into them. An object is an association list;
--   the order of its keys is seen by nothing here.
-- Ffi.State: the statics of lib.rs as a record, and actions on it that return, fail with a code or panic.
-- Ffi.Specs: extract_plugin_specs and apply_plugin_forwarders of lib.rs.
-- Ffi.Start: start_with_json, sslocal_start, sslocal_start_tun_fd and what they call.
-- Ffi.Control: sslocal_set_stat_address, sslocal_stop, sslocal_is_running, sslocal_last_error,
--   sslocal_version, and the error of the task that runs the core.
-- Ffi.Session: what the calls do to the state, each alone and in any order.
-- Ffi.Threads: the entry points of lib.rs called from any number of threads, as a step relation. A step
--   is what a call does around one access to a static that other threads can change meanwhile; the mutex
--   of INSTANCE is held from the test of start_with_json to its return, and across the body of
--   sslocal_stop; the other mutexes are held for one access each. The order in which threads get a
--   mutex is left open.
-- Ffi.Buffers: LAST_ERROR and LAST_ERROR_HANDED_OUT of lib.rs with the addresses of their C strings,
--   which buffers are allocated, and who owns them.
-- NetHelper: examples/net_helper.rs of the crate, the helper of the end-to-end test: its command line,
--   its tun role on the library, and its client, which tries 30 times.
-- NetHelper.Roles: its echo role, on all the connections that come in and all the rounds of each, and
--   its server role.
-- Tests: runs of the definitions on a concrete stream and a concrete system.
--
-- Beside each component stand the modules that prove things of it. A text is the list of its code
-- points, a byte string the list of its bytes. Logging is left out. Outside of Ffi.Threads and
-- Ffi.Buffers an entry point is one action. The service's Config is a record of the fields that
-- lib.rs reads and writes; loading it, parsing JSON, the runtime, dup, the ioctl and the address
-- parser are fields of a record of what the system answers, which may be another one for each call.
-- A tokio runtime and its tasks are seen by what was started on them.
--
-- Not modelled: the copying of a relay, which is tokio's, the layers of meow-transport, the poisoning of a
-- mutex, the tests of the crate, the C++ bridge and the ArkTS application, which are glue, input and
-- output, or another language.
pub mod Prelude
pub mod Io
pub mod Encode
pub mod Obfs
pub mod Options
pub mod PluginError
pub mod V2rayPlugin
pub mod Plugin
pub mod Json
pub mod Ffi
pub mod NetHelper
mod Tests
