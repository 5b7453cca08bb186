-- ===== src/V2rayPlugin.antt =====
-- native/sslocal-ffi/src/v2ray_plugin.rs: the options of the built-in v2ray-plugin.
pub mod Meaning
pub mod Print
pub mod Dial
use shadowsocks_ohos.Prelude.{
  Bool, true, false, ◌||◌, List, [], ◌∷◌, ◌++◌, Option, none, some, Text, codes, equal,
  if◌then◌else◌,
}
use shadowsocks_ohos.Options.{trim, split_once, to_ascii_lowercase, eq_ignore_ascii_case, pairs}
use shadowsocks_ohos.PluginError.{PluginError, invalid_options, Result, ok, err}

-- `enum Mode`.
pub data Mode : Type 0 where
  websocket : Mode

-- A `HashMap<String, String>`.
abbrev pub Headers : Type 0
Headers = List (Text × Text)

unfoldable pub insert : Text → Text → Headers → Headers
insert k v [] = (k, v) ∷ []
insert k v ((j, w) ∷ m) = if equal j k then (k, v) ∷ m else (j, w) ∷ insert k v m

unfoldable pub get : Text → Headers → Option Text
get k [] = none
get k ((j, v) ∷ m) = if equal j k then some v else get k m

-- `struct V2rayPluginConfig`.
pub record V2rayPluginConfig : Type 0 where
  pub mode : Mode
  pub tls : Bool
  pub host : Text
  pub path : Text
  pub headers : Headers
  pub skip_cert_verify : Bool
  pub mux : Bool

-- `V2rayPluginConfig::default`.
abbrev pub default : V2rayPluginConfig
default = record {
  mode = websocket;
  tls = false;
  host = [];
  path = codes "/";
  headers = [];
  skip_cert_verify = false;
  mux = false;
}

unfoldable pub parse_bool : Text → Bool
unfolding to_ascii_lowercase
parse_bool s =
    let l = to_ascii_lowercase s in
    equal l (codes "1") || equal l (codes "true") || equal l (codes "yes") || equal l (codes "on")

abbrev pub is_websocket : Text → Bool
is_websocket v = eq_ignore_ascii_case v (codes "websocket") || eq_ignore_ascii_case v (codes "ws")

abbrev pub unsupported_mode : Text → PluginError
unsupported_mode v =
    invalid_options
      (codes "v2ray-plugin: unsupported mode '" ++ (v ++ codes "' (only 'websocket' is supported)"))

-- `header=Key:Value`; a malformed entry is only logged.
unfoldable pub add_header : Text → Headers → Headers
unfolding split_once trim insert
add_header value m = elim (split_once b':' value) [
  | some (k, v) ↦ insert (trim k) (trim v) m
  | none ↦ m
]

-- One option, the arms of the `match` in `parse_opts`; an unknown key is only logged.
unfoldable pub apply_opt : Text → Text → V2rayPluginConfig → Result V2rayPluginConfig
unfolding parse_bool add_header
apply_opt key value cfg =
    if equal key (codes "mode")
    then (if is_websocket value
        then ok (record cfg { mode = websocket })
        else err (unsupported_mode value))
    else if equal key (codes "tls")
    then ok (record cfg { tls = parse_bool value })
    else if equal key (codes "host")
    then ok (record cfg { host = value })
    else if equal key (codes "path")
    then ok (record cfg { path = value })
    else if equal key (codes "mux")
    then ok (record cfg { mux = parse_bool value })
    else if equal key (codes "skip-cert-verify")
    then ok (record cfg { skip_cert_verify = parse_bool value })
    else if equal key (codes "header")
    then ok (record cfg { headers = add_header value cfg.headers })
    else ok cfg

abbrev pub and_then :
    (V2rayPluginConfig → Result V2rayPluginConfig)
    → Result V2rayPluginConfig
    → Result V2rayPluginConfig
and_then f (ok cfg) = f cfg
and_then f (err e) = err e

-- The `for` loop of `parse_opts`.
unfoldable pub apply_opts : List (Text × Text) → V2rayPluginConfig → Result V2rayPluginConfig
unfolding apply_opt
apply_opts [] cfg = ok cfg
apply_opts ((k, v) ∷ rest) cfg = and_then (apply_opts rest) (apply_opt k v cfg)

-- `parse_opts`.
unfoldable pub parse_opts : Text → Result V2rayPluginConfig
unfolding apply_opts pairs
parse_opts s = apply_opts (pairs (codes "true") s) default
