-- ===== src/Ffi/Specs.antt =====
-- `extract_plugin_specs` and `apply_plugin_forwarders` of native/sslocal-ffi/src/lib.rs.
use shadowsocks_ohos.Prelude.{
  ℕ, suc, ◌^◌, ◌++◌, Option, none, some, List, [], ◌∷◌, length, Text, codes, ltb, if◌then◌else◌,
}
use shadowsocks_ohos.Encode.{decimal}
use shadowsocks_ohos.Json.{
  Value, num, str, Items, nil, cons, get, as_str, as_u64, as_array, assign, remove, update_in,
}
use shadowsocks_ohos.Plugin.{PluginKind, parse_plugin}
use shadowsocks_ohos.PluginError.{PluginError, to_string}
use shadowsocks_ohos.PluginError
use shadowsocks_ohos.Ffi.State.{
  Action, ok, panic, pure, raise, ◌>>=◌, sslocal_err_bad_config, sslocal_err_runtime, Forwarder,
  Fallible, attempt,
}

-- `enum PluginSite`.
pub data PluginSite : Type 0 where
  top_level : PluginSite
  server : ℕ → PluginSite

-- `struct PluginSpec`.
pub record PluginSpec : Type 0 where
  pub site : PluginSite
  pub kind : PluginKind
  pub host : Text
  pub port : ℕ

abbrev pub quoted : Text → Text
quoted name = codes "plugin \"" ++ (name ++ codes "\"")

-- A value that must be there, or the message that says what is missing.
unfoldable pub required : {A : Type 0} → Text → Option A → Action A
required message (some a) = pure a
required message none = raise message sslocal_err_bad_config

abbrev pub and_then : {A B : Type 0} → (A → Option B) → Option A → Option B
and_then f none = none
and_then f (some a) = f a

-- `u16::try_from(p).ok()`.
abbrev pub to_u16 : ℕ → Option ℕ
to_u16 p = if ltb p (2 ^ 16) then some p else none

-- `plugin::parse_plugin(...).map_err(...)`.
unfoldable pub parsed : PluginError.Result PluginKind → Action PluginKind
unfolding to_string
parsed (PluginError.ok kind) = pure kind
parsed (PluginError.err e) = raise (to_string e) sslocal_err_bad_config

abbrev pub str_or_empty : Option Text → Text
str_or_empty none = []
str_or_empty (some s) = s

-- `extract_one_spec`.
unfoldable pub extract_one_spec : Value → PluginSite → Action PluginSpec
unfolding get as_str as_u64 parse_plugin
extract_one_spec entry site =
    required (codes "\"plugin\" must be a string") (and_then as_str (get (codes "plugin") entry))
    >>= λ name.
        parsed
          (parse_plugin name (str_or_empty (and_then as_str (get (codes "plugin_opts") entry))))
        >>= λ kind.
            required (quoted name ++ codes " requires a \"server\" address")
              (and_then as_str (get (codes "server") entry))
            >>= λ host.
                required (quoted name ++ codes " requires a valid \"server_port\"")
                  (and_then to_u16 (and_then as_u64 (get (codes "server_port") entry)))
                >>= λ port. pure (record { site = site; kind = kind; host = host; port = port })

-- `if entry.get("plugin").is_some() { specs.push(...) }`.
unfoldable pub specs_of : Value → PluginSite → Action (List PluginSpec)
unfolding extract_one_spec get
specs_of entry site = elim (get (codes "plugin") entry) [
  | none ↦ pure []
  | some _ ↦ extract_one_spec entry site >>= λ spec. pure (spec ∷ [])
]

-- The `for` loop over the servers, from number `i` on.
unfoldable pub server_specs : ℕ → Items → Action (List PluginSpec)
unfolding specs_of
server_specs i nil = pure []
server_specs i (cons entry entries) = specs_of entry (server i) >>= λ specs.
    server_specs (suc i) entries >>= λ more. pure (specs ++ more)

abbrev pub items_or_nil : Option Items → Items
items_or_nil none = nil
items_or_nil (some xs) = xs

-- `extract_plugin_specs`.
unfoldable pub extract_plugin_specs : Value → Action (List PluginSpec)
unfolding specs_of server_specs get as_array
extract_plugin_specs json = specs_of json top_level >>= λ specs.
    server_specs 0 (items_or_nil (and_then as_array (get (codes "servers") json))) >>= λ more.
    pure (specs ++ more)

-- The rewriting of one entry; `none` is a panic.
unfoldable pub rewritten : ℕ → Value → Option Value
unfolding assign remove
rewritten local_port entry =
    and_then
      (λ v.
        and_then (λ w. some (remove (codes "plugin_opts") (remove (codes "plugin") w)))
          (assign (codes "server_port") (num local_port) v))
      (assign (codes "server") (str (codes "127.0.0.1")) entry)

-- The entry that `site` names, replaced by what `f` makes of it.
unfoldable pub at_site : PluginSite → (Value → Option Value) → Value → Option Value
unfolding update_in
at_site top_level f json = f json
at_site (server i) f json = update_in (codes "servers") i f json

unfoldable pub or_panic : {A : Type 0} → Option A → Action A
or_panic (some a) g = (ok a, g)
or_panic none g = (panic, g)

abbrev pub not_started : PluginSpec → Text → Text
not_started spec e =
    codes "failed to start plugin forwarder for "
    ++ (spec.host ++ (codes ":" ++ (decimal spec.port ++ (codes ": " ++ e))))

-- `apply_plugin_forwarders`. `listen k` is what binding the runtime's listener number `k` on a free
-- loopback port answers; the forwarders started so far are kept in the order of their start.
unfoldable pub apply_plugin_forwarders :
    (ℕ → Fallible ℕ) → List Forwarder → Value → List PluginSpec → Action (Value × List Forwarder)
unfolding at_site rewritten
apply_plugin_forwarders listen started json [] = pure (json, started)
apply_plugin_forwarders listen started json (spec ∷ specs) =
    attempt (not_started spec) sslocal_err_runtime (listen (length started)) >>= λ local_port.
    or_panic (at_site spec.site (rewritten local_port) json) >>= λ json'.
    apply_plugin_forwarders listen
      (started
        ++ record { local_port = local_port; kind = spec.kind; host = spec.host; port = spec.port }
          ∷ [])
      json' specs
