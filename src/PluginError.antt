-- ===== src/PluginError.antt =====
-- `PluginError` of native/sslocal-ffi/src/plugin.rs, and results that may fail with it.
use shadowsocks_ohos.Prelude.{◌++◌, Text, codes}
use shadowsocks_ohos.Io.{IoError}

-- `enum PluginError`. A `meow_transport::TransportError` is only displayed, so its text stands for it.
pub data PluginError : Type 0 where
  unsupported : Text → PluginError
  invalid_options : Text → PluginError
  io : IoError → PluginError
  transport : Text → PluginError

-- `impl fmt::Display for PluginError`.
unfoldable pub to_string : PluginError → Text
to_string (unsupported name) =
    codes "plugin \""
    ++ (name
        ++ codes
            "\" is not supported: spawning external plugin processes is impossible on HarmonyOS; built-in plugins are obfs-local (simple-obfs) and v2ray-plugin")
to_string (invalid_options message) = message
to_string (io e) = codes "io: " ++ e.message
to_string (transport e) = codes "transport: " ++ e

pub data Result (A : Type 0) : Type 0 where
  ok : A → Result A
  err : PluginError → Result A
