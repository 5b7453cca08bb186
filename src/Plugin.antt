-- ===== src/Plugin.antt =====
-- native/sslocal-ffi/src/plugin.rs: the built-in SIP003 plugins by name, and the simple-obfs options.
pub mod Parse
pub mod Print
pub mod Accept
pub mod Wrap
pub mod Relay
pub mod Forwarder
use shadowsocks_ohos.Prelude.{
  ◌||◌, List, [], ◌∷◌, ◌++◌, Option, none, some, Text, codes, equal, if◌then◌else◌,
}
use shadowsocks_ohos.Options.{pairs}
use shadowsocks_ohos.PluginError.{PluginError, unsupported, invalid_options, Result, ok, err}
use shadowsocks_ohos.V2rayPlugin.{V2rayPluginConfig, parse_opts}

-- `enum PluginKind`.
pub data PluginKind : Type 0 where
  simple_obfs_http : Text → PluginKind
  simple_obfs_tls : Text → PluginKind
  v2ray : V2rayPluginConfig → PluginKind

-- One option of simple-obfs, on the mode and the host read so far; an unknown key is only logged.
unfoldable pub obfs_opt : Text → Text → Option Text × Text → Option Text × Text
obfs_opt key value (mode, host) =
    if equal key (codes "obfs")
    then (some value, host)
    else if equal key (codes "obfs-host")
    then (mode, value)
    else (mode, host)

-- The `for` loop of `parse_simple_obfs_opts`.
unfoldable pub obfs_opts : List (Text × Text) → Option Text × Text → Option Text × Text
unfolding obfs_opt
obfs_opts [] st = st
obfs_opts ((k, v) ∷ rest) st = obfs_opts rest (obfs_opt k v st)

-- `match mode.as_deref()`.
unfoldable pub obfs_kind : Option Text → Text → Result PluginKind
obfs_kind none host = err (invalid_options (codes "simple-obfs: missing 'obfs=http|tls' option"))
obfs_kind (some mode) host =
    if equal mode (codes "http")
    then ok (simple_obfs_http host)
    else if equal mode (codes "tls")
    then ok (simple_obfs_tls host)
    else err (
        invalid_options (
          codes "simple-obfs: unknown obfs mode '"
          ++ (mode ++ codes "' (expected 'http' or 'tls')")))

-- `parse_simple_obfs_opts`.
unfoldable pub parse_simple_obfs_opts : Text → Result PluginKind
unfolding obfs_opts obfs_kind pairs
parse_simple_obfs_opts opts =
    let (mode, host) = obfs_opts (pairs [] opts) (none, []) in obfs_kind mode host

abbrev pub to_v2ray : Result V2rayPluginConfig → Result PluginKind
to_v2ray (ok cfg) = ok (v2ray cfg)
to_v2ray (err e) = err e

-- `parse_plugin`.
unfoldable pub parse_plugin : Text → Text → Result PluginKind
unfolding parse_simple_obfs_opts parse_opts
parse_plugin name opts =
    if equal name (codes "obfs-local")
      || equal name (codes "simple-obfs")
      || equal name (codes "obfs")
    then parse_simple_obfs_opts opts
    else if equal name (codes "v2ray-plugin")
    then to_v2ray (parse_opts opts)
    else err (unsupported name)
