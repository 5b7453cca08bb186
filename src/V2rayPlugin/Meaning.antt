-- ===== src/V2rayPlugin/Meaning.antt =====
-- What the options of native/sslocal-ffi/src/v2ray_plugin.rs mean.
use shadowsocks_ohos.Prelude.{
  ◌≡◌, refl, sym, ap, ◌∙◌, Bool, true, false, List, [], ◌∷◌, Option, none, some, Text, codes, equal,
  equal_iff, String, if◌then◌else◌, Bool-cases, inl, inr, arith,
}
use shadowsocks_ohos.Options.{pairs}
use shadowsocks_ohos.Options.Last.{last_value, or_else, read_as, read_as-last_value}
use shadowsocks_ohos.PluginError.{Result, ok, err}
use shadowsocks_ohos.V2rayPlugin.{
  Mode, websocket, V2rayPluginConfig, Headers, default, parse_bool, is_websocket, unsupported_mode,
  add_header, insert, get, and_then, apply_opt, apply_opts, parse_opts,
}

-- The first mode that is not a name of the WebSocket one.
abbrev pub bad_mode : List (Text × Text) → Option Text
bad_mode [] = none
bad_mode ((k, v) ∷ ps) =
    if equal k (codes "mode") then (if is_websocket v then bad_mode ps else some v) else bad_mode ps

-- All headers, a later one of the same name in place of an earlier.
abbrev pub all_headers : List (Text × Text) → Headers → Headers
all_headers [] m = m
all_headers ((k, v) ∷ ps) m =
    all_headers ps (if equal k (codes "header") then add_header v m else m)

-- The configuration that the pairs describe, on top of `cfg`.
abbrev pub described : List (Text × Text) → V2rayPluginConfig → V2rayPluginConfig
described ps cfg = record {
  mode = websocket;
  tls = read_as parse_bool cfg.tls (last_value (codes "tls") ps);
  host = read_as (λ v. v) cfg.host (last_value (codes "host") ps);
  path = read_as (λ v. v) cfg.path (last_value (codes "path") ps);
  headers = all_headers ps cfg.headers;
  skip_cert_verify =
      read_as parse_bool cfg.skip_cert_verify (last_value (codes "skip-cert-verify") ps);
  mux = read_as parse_bool cfg.mux (last_value (codes "mux") ps);
}

abbrev pub unless_bad : Option Text → V2rayPluginConfig → Result V2rayPluginConfig
unless_bad (some v) cfg = err (unsupported_mode v)
unless_bad none cfg = ok cfg

-- One option, field by field.
abbrev stepped : Text → Text → V2rayPluginConfig → V2rayPluginConfig
stepped k v cfg = record {
  mode = websocket;
  tls = if equal k (codes "tls") then parse_bool v else cfg.tls;
  host = if equal k (codes "host") then v else cfg.host;
  path = if equal k (codes "path") then v else cfg.path;
  headers = if equal k (codes "header") then add_header v cfg.headers else cfg.headers;
  skip_cert_verify =
      if equal k (codes "skip-cert-verify") then parse_bool v else cfg.skip_cert_verify;
  mux = if equal k (codes "mux") then parse_bool v else cfg.mux;
}

mode_is : (m : Mode) → m ≡ websocket
mode_is websocket = refl

forced : (cfg : V2rayPluginConfig) → cfg ≡ record cfg { mode = websocket }
forced cfg = λ i. record cfg { mode = mode_is cfg.mode i }

apply_opt-stepped :
    (k v : Text) (cfg : V2rayPluginConfig)
    → apply_opt k v cfg ≡ unless_bad (bad_mode ((k, v) ∷ [])) (stepped k v cfg)
unfolding apply_opt
apply_opt-stepped k v cfg = elim (Bool-cases (equal k (codes "mode"))) [
  | inl e ↦ rw (key "mode" e) (unfold equal in set_mode (is_websocket v))
  | inr a ↦ elim (Bool-cases (equal k (codes "tls"))) [
    | inl e ↦ rw (key "tls" e) (unfold equal in ap ok (forced _))
    | inr b ↦ elim (Bool-cases (equal k (codes "host"))) [
      | inl e ↦ rw (key "host" e) (unfold equal in ap ok (forced _))
      | inr c ↦ elim (Bool-cases (equal k (codes "path"))) [
        | inl e ↦ rw (key "path" e) (unfold equal in ap ok (forced _))
        | inr d ↦ elim (Bool-cases (equal k (codes "mux"))) [
          | inl e ↦ rw (key "mux" e) (unfold equal in ap ok (forced _))
          | inr f ↦ elim (Bool-cases (equal k (codes "skip-cert-verify"))) [
            | inl e ↦ rw (key "skip-cert-verify" e) (unfold equal in ap ok (forced _))
            | inr g ↦ elim (Bool-cases (equal k (codes "header"))) [
              | inl e ↦ rw (key "header" e) (unfold equal in ap ok (forced _))
              | inr h ↦ rw (a, b, c, d, f, g, h) (ap ok (forced cfg))
            ]
          ]
        ]
      ]
    ]
  ]
]
  where
    key : (name : String) → equal k (codes name) ≡ true → k ≡ codes name
    key name e = (equal_iff k (codes name)).0 e

    set_mode :
        (b : Bool)
        → (if b then ok (record cfg { mode = websocket }) else err (unsupported_mode v))
          ≡ unless_bad (if b then none else some v) (record cfg { mode = websocket })
    set_mode true = refl
    set_mode false = refl

or_bad :
    (k v : Text) (ps : List (Text × Text))
    → bad_mode ((k, v) ∷ ps) ≡ or_else (bad_mode ((k, v) ∷ [])) (bad_mode ps)
or_bad k v ps = in_cases (equal k (codes "mode")) (is_websocket v)
  where
    in_cases :
        (a b : Bool)
        → (if a then (if b then bad_mode ps else some v) else bad_mode ps)
          ≡ or_else (if a then (if b then none else some v) else none) (bad_mode ps)
    in_cases true true = refl
    in_cases true false = refl
    in_cases false b = refl

described-stepped :
    (k v : Text) (ps : List (Text × Text)) (cfg : V2rayPluginConfig)
    → described ((k, v) ∷ ps) cfg ≡ described ps (stepped k v cfg)
described-stepped k v ps cfg = λ i. record {
  mode = websocket;
  tls = read_as-last_value parse_bool cfg.tls (codes "tls") k v ps i;
  host = read_as-last_value (λ w. w) cfg.host (codes "host") k v ps i;
  path = read_as-last_value (λ w. w) cfg.path (codes "path") k v ps i;
  headers = all_headers ((k, v) ∷ ps) cfg.headers;
  skip_cert_verify =
      read_as-last_value parse_bool cfg.skip_cert_verify (codes "skip-cert-verify") k v ps i;
  mux = read_as-last_value parse_bool cfg.mux (codes "mux") k v ps i;
}

and_then-unless_bad :
    (f : V2rayPluginConfig → Result V2rayPluginConfig) (a b : Option Text) (c d : V2rayPluginConfig)
    → f c ≡ unless_bad b d
    → and_then f (unless_bad a c) ≡ unless_bad (or_else a b) d
and_then-unless_bad f none b c d e = e
and_then-unless_bad f (some v) b c d e = refl

apply_opts-described :
    (ps : List (Text × Text)) (cfg : V2rayPluginConfig)
    → apply_opts ps cfg ≡ unless_bad (bad_mode ps) (described ps cfg)
unfolding apply_opts
apply_opts-described [] cfg = ap ok (forced cfg)
apply_opts-described ((k, v) ∷ ps) cfg =
    ap (and_then (apply_opts ps)) (apply_opt-stepped k v cfg)
    ∙ and_then-unless_bad (apply_opts ps) (bad_mode ((k, v) ∷ [])) (bad_mode ps) (stepped k v cfg)
        (described ps (stepped k v cfg)) (apply_opts-described ps (stepped k v cfg))
    ∙ ap (λ b. unless_bad b (described ps (stepped k v cfg))) (sym (or_bad k v ps))
    ∙ ap (unless_bad (bad_mode ((k, v) ∷ ps))) (sym (described-stepped k v ps cfg))

-- The options fail exactly where a `mode` names no WebSocket mode, with the first such; else each
-- setting is what its key was last given, or the default, and no other key has any effect.
pub parse_opts-described :
    (s : Text)
    → let ps = pairs (codes "true") s in
      parse_opts s ≡ unless_bad (bad_mode ps) (described ps default)
unfolding parse_opts
parse_opts-described s = apply_opts-described (pairs (codes "true") s) default

-- A map gives back what was last inserted under a name, and keeps the rest.
pub get-insert :
    (k j v : Text) (m : Headers) → get j (insert k v m) ≡ (if equal k j then some v else get j m)
unfolding get insert
get-insert k j v [] = refl
get-insert k j v ((i, w) ∷ m) =
    ground (arith, equal_iff k j, equal_iff i k, equal_iff i j, get-insert k j v m)
