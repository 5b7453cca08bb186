-- ===== src/Tests/Options.antt =====
-- Option strings, parsed.
use shadowsocks_ohos.Prelude.{◌≡◌, refl, [], ◌∷◌, true, none, codes, equal, arith}
use shadowsocks_ohos.Options.{pairs, is_whitespace}
use shadowsocks_ohos.Options.Print.{print}
use shadowsocks_ohos.Options.Last.{last_value, read_as}
use shadowsocks_ohos.PluginError.{ok}
use shadowsocks_ohos.Plugin.{
  simple_obfs_tls, v2ray, parse_plugin, parse_simple_obfs_opts, obfs_kind,
}
use shadowsocks_ohos.Plugin.Parse.{parse_simple_obfs_opts-last_value}
use shadowsocks_ohos.V2rayPlugin.{V2rayPluginConfig, get, default, parse_opts}
use shadowsocks_ohos.V2rayPlugin.Print.{IsPrintable}
use shadowsocks_ohos.Plugin.Print.{plugin_pairs, parse_plugin-print}
use shadowsocks_ohos.V2rayPlugin.Meaning.{bad_mode, described, unless_bad, parse_opts-described}

obfs_local_tls :
    parse_plugin (codes "obfs-local") (codes "obfs=http; obfs = tls ;obfs-host=a.org")
    ≡ ok (simple_obfs_tls (codes "a.org"))
unfolding parse_plugin equal
obfs_local_tls = refl

bare_tls :
    parse_opts (codes "tls;host=a.org") ≡ ok (record default { tls = true; host = codes "a.org" })
unfolding parse_opts equal
bare_tls = refl

parse_simple_obfs_opts-last_value_example :
    parse_simple_obfs_opts (codes "obfs=tls;obfs-host=a.org")
    ≡ obfs_kind (last_value (codes "obfs") (pairs [] (codes "obfs=tls;obfs-host=a.org"))) (
        read_as
          (λ v. v)
          []
          (last_value (codes "obfs-host") (pairs [] (codes "obfs=tls;obfs-host=a.org"))))
parse_simple_obfs_opts-last_value_example =
    parse_simple_obfs_opts-last_value (codes "obfs=tls;obfs-host=a.org")

parse_opts-described_example :
    parse_opts (codes "mode=ws;tls;header=A:b")
    ≡ unless_bad
        (bad_mode (pairs (codes "true") (codes "mode=ws;tls;header=A:b")))
        (described (pairs (codes "true") (codes "mode=ws;tls;header=A:b")) default)
parse_opts-described_example = parse_opts-described (codes "mode=ws;tls;header=A:b")

-- A configuration with a header.
abbrev config : V2rayPluginConfig
config = record default { tls = true; headers = (codes "X-A", codes "b c") ∷ [] }

config-IsPrintable : IsPrintable config
unfolding is_whitespace get
config-IsPrintable = record {
  host_trimmed = (tt, tt);
  host_whole = tt;
  path_trimmed = (refl, refl);
  path_whole = omega arith;
  headers_fit = (
    record {
      name_trimmed = (refl, refl);
      name_alone = omega arith;
      name_whole = omega arith;
      value_trimmed = (refl, refl);
      value_whole = omega arith;
    },
    tt,
  );
  headers_new = (get_nil, tt);
}
  where
    get_nil : get (codes "X-A") [] ≡ none
    get_nil = refl

parse_plugin-print_example :
    parse_plugin (codes "v2ray-plugin") (print (plugin_pairs (v2ray config))) ≡ ok (v2ray config)
parse_plugin-print_example = parse_plugin-print (v2ray config) config-IsPrintable
