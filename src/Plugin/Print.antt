-- ===== src/Plugin/Print.antt =====
-- Plugins written out as a name and an option string, and read back by `parse_plugin` of
-- native/sslocal-ffi/src/plugin.rs.
use shadowsocks_ohos.Prelude.{
  ◌≡◌, refl, ap, List, [], ◌∷◌, Text, codes, some, none, equal, All, arith,
}
use shadowsocks_ohos.Options.{is_whitespace}
use shadowsocks_ohos.Options.Print.{print, IsTrimmed, Lacks, IsClean, pairs-print}
use shadowsocks_ohos.PluginError.{ok}
use shadowsocks_ohos.V2rayPlugin.Print.{config_pairs, IsPrintable, parse_opts-print, setting}
use shadowsocks_ohos.Plugin.{
  PluginKind, simple_obfs_http, simple_obfs_tls, v2ray, obfs_opt, obfs_opts, obfs_kind,
  parse_simple_obfs_opts, to_v2ray, parse_plugin,
}

abbrev pub plugin_name : PluginKind → Text
plugin_name (simple_obfs_http host) = codes "obfs-local"
plugin_name (simple_obfs_tls host) = codes "simple-obfs"
plugin_name (v2ray cfg) = codes "v2ray-plugin"

abbrev obfs_pairs : Text → Text → List (Text × Text)
obfs_pairs mode host = (codes "obfs", mode) ∷ (codes "obfs-host", host) ∷ []

abbrev pub plugin_pairs : PluginKind → List (Text × Text)
plugin_pairs (simple_obfs_http host) = obfs_pairs (codes "http") host
plugin_pairs (simple_obfs_tls host) = obfs_pairs (codes "tls") host
plugin_pairs (v2ray cfg) = config_pairs cfg

-- A plugin that an option string can give.
abbrev pub IsWritable : PluginKind → Type 0
IsWritable (simple_obfs_http host) = IsTrimmed host × Lacks b';' host
IsWritable (simple_obfs_tls host) = IsTrimmed host × Lacks b';' host
IsWritable (v2ray cfg) = IsPrintable cfg

obfs_pairs-IsClean :
    (mode host : Text)
    → IsTrimmed mode × Lacks b';' mode
    → IsTrimmed host × Lacks b';' host
    → All IsClean (obfs_pairs mode host)
unfolding is_whitespace
obfs_pairs-IsClean mode host m h = (
  setting refl (refl, refl) (omega arith) (omega arith) m,
  (setting refl (refl, refl) (omega arith) (omega arith) h, tt),
)

parse_simple_obfs_opts-print :
    (mode host : Text)
    → IsTrimmed mode × Lacks b';' mode
    → IsTrimmed host × Lacks b';' host
    → parse_simple_obfs_opts (print (obfs_pairs mode host)) ≡ obfs_kind (some mode) host
unfolding parse_simple_obfs_opts obfs_opts obfs_opt equal
parse_simple_obfs_opts-print mode host m h =
    ap (λ ps. obfs_kind (obfs_opts ps (none, [])).0 (obfs_opts ps (none, [])).1)
      (pairs-print [] (obfs_pairs mode host) (obfs_pairs-IsClean mode host m h))

-- Every plugin is what `parse_plugin` reads from a name of it and the string of all its options,
-- if its host, its path, and the name and the value of each of its headers have no semicolon and
-- no white space at an end, no header's name has a colon, and no header's name stands twice.
pub parse_plugin-print :
    (kind : PluginKind)
    → IsWritable kind
    → parse_plugin (plugin_name kind) (print (plugin_pairs kind)) ≡ ok kind
unfolding parse_plugin equal obfs_kind is_whitespace
parse_plugin-print (simple_obfs_http host) h =
    parse_simple_obfs_opts-print (codes "http") host ((refl, refl), omega arith) h
parse_plugin-print (simple_obfs_tls host) h =
    parse_simple_obfs_opts-print (codes "tls") host ((refl, refl), omega arith) h
parse_plugin-print (v2ray cfg) h = ap to_v2ray (parse_opts-print cfg h)
