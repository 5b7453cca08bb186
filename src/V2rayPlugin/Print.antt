-- ===== src/V2rayPlugin/Print.antt =====
-- Configurations of the v2ray-plugin written out as option strings, and read back by `parse_opts` of
-- native/sslocal-ffi/src/v2ray_plugin.rs.
use shadowsocks_ohos.Prelude.{
  Bool, true, false, ◌≡◌, refl, sym, ap, ◌∙◌, List, [], ◌∷◌, ◌++◌, append-nil, append_assoc, none,
  Text, codes, is_empty, equal, ◌≢◌, All, All-append, arith, Bool-cases, inl, inr,
}
use shadowsocks_ohos.Options.{is_whitespace, eq_ignore_ascii_case, to_ascii_lowercase}
use shadowsocks_ohos.Options.Print.{
  print, IsTrimmed, Lacks, IsClean, append-IsTrimmed, trim-IsTrimmed, split_once-Lacks, pairs-print,
}
use shadowsocks_ohos.PluginError.{ok}
use shadowsocks_ohos.V2rayPlugin.{
  Mode, websocket, Headers, insert, get, V2rayPluginConfig, default, parse_bool, add_header,
  apply_opt, apply_opts, parse_opts,
}

abbrev pub bool_text : Bool → Text
bool_text true = codes "true"
bool_text false = codes "false"

abbrev pub header_text : Text × Text → Text
header_text (k, v) = k ++ (b':' ∷ v)

abbrev pub header_pairs : Headers → List (Text × Text)
header_pairs [] = []
header_pairs (h ∷ hs) = (codes "header", header_text h) ∷ header_pairs hs

-- Every setting of a configuration as an option, and every header as one.
abbrev pub config_pairs : V2rayPluginConfig → List (Text × Text)
config_pairs cfg =
    (codes "mode", codes "websocket")
    ∷ (codes "tls", bool_text cfg.tls)
    ∷ (codes "host", cfg.host)
    ∷ (codes "path", cfg.path)
    ∷ (codes "mux", bool_text cfg.mux)
    ∷ (codes "skip-cert-verify", bool_text cfg.skip_cert_verify)
    ∷ header_pairs cfg.headers

-- A header that can be written.
pub record IsHeader (h : Text × Text) : Type 0 where
  pub name_trimmed : IsTrimmed h.0
  pub name_alone : Lacks b':' h.0
  pub name_whole : Lacks b';' h.0
  pub value_trimmed : IsTrimmed h.1
  pub value_whole : Lacks b';' h.1

-- No name stands twice, nor among those of `m`.
abbrev pub AllNew : Headers → Headers → Type 0
AllNew m [] = Unit {0}
AllNew m ((k, v) ∷ hs) = (get k m ≡ none) × AllNew (m ++ (k, v) ∷ []) hs

-- A configuration that an option string can give.
pub record IsPrintable (cfg : V2rayPluginConfig) : Type 0 where
  pub host_trimmed : IsTrimmed cfg.host
  pub host_whole : Lacks b';' cfg.host
  pub path_trimmed : IsTrimmed cfg.path
  pub path_whole : Lacks b';' cfg.path
  pub headers_fit : All IsHeader cfg.headers
  pub headers_new : AllNew [] cfg.headers

insert-new : (k v : Text) (m : Headers) → get k m ≡ none → insert k v m ≡ m ++ (k, v) ∷ []
unfolding insert get
insert-new k v [] e = refl
insert-new k v ((j, w) ∷ m) e = elim (Bool-cases (equal j k)) [
  | inl same ↦ ground arith
  | inr other ↦ rw other (ap (λ l. (j, w) ∷ l) (insert-new k v m (rw other at e)))
]

add_header-header_text :
    (k v : Text) (m : Headers) → IsHeader (k, v) → add_header (header_text (k, v)) m ≡ insert k v m
unfolding add_header
add_header-header_text k v m h =
    rw (add_header, split_once-Lacks b':' k v h.name_alone)
      (λ i. insert (trim-IsTrimmed k h.name_trimmed i) (trim-IsTrimmed v h.value_trimmed i) m)

apply_opts-header_pairs :
    (cfg : V2rayPluginConfig) (m hs : Headers)
    → All IsHeader hs
    → AllNew m hs
    → apply_opts (header_pairs hs) (record cfg { headers = m })
      ≡ ok (record cfg { headers = m ++ hs })
unfolding apply_opts apply_opt equal
apply_opts-header_pairs cfg m [] h new =
    ap (λ x. ok (record cfg { headers = x })) (sym (append-nil m))
apply_opts-header_pairs cfg m ((k, v) ∷ hs) (h, rest) (new, others) =
    ap (λ x. apply_opts (header_pairs hs) (record cfg { headers = x }))
      (add_header-header_text k v m h ∙ insert-new k v m new)
    ∙ apply_opts-header_pairs cfg (m ++ (k, v) ∷ []) hs rest others
    ∙ ap (λ x. ok (record cfg { headers = x })) (append_assoc m ((k, v) ∷ []) hs)

parse_bool-bool_text : (b : Bool) → parse_bool (bool_text b) ≡ b
unfolding parse_bool to_ascii_lowercase equal
parse_bool-bool_text true = refl
parse_bool-bool_text false = refl

only_mode : (m : Mode) → websocket ≡ m
only_mode websocket = refl

apply_opts-config_pairs :
    (cfg : V2rayPluginConfig)
    → apply_opts (config_pairs cfg) default
      ≡ apply_opts (header_pairs cfg.headers) (record cfg { headers = [] })
unfolding apply_opts apply_opt equal eq_ignore_ascii_case to_ascii_lowercase
apply_opts-config_pairs cfg = λ i. apply_opts (header_pairs cfg.headers) (record cfg {
  mode = only_mode cfg.mode i;
  tls = parse_bool-bool_text cfg.tls i;
  mux = parse_bool-bool_text cfg.mux i;
  skip_cert_verify = parse_bool-bool_text cfg.skip_cert_verify i;
  headers = [];
})

-- A value that an option can have.
abbrev pub IsValue : Text → Type 0
IsValue v = IsTrimmed v × Lacks b';' v

pub setting :
    {k v : Text}
    → is_empty k ≡ false
    → IsTrimmed k
    → Lacks b'=' k
    → Lacks b';' k
    → IsValue v
    → IsClean (k, v)
setting there trimmed alone whole value = record {
  key_there = there;
  key_trimmed = trimmed;
  key_alone = alone;
  key_whole = whole;
  value_trimmed = value.0;
  value_whole = value.1;
}

bool_text-IsValue : (b : Bool) → IsValue (bool_text b)
unfolding is_whitespace
bool_text-IsValue true = ((refl, refl), omega arith)
bool_text-IsValue false = ((refl, refl), omega arith)

header_text-IsValue : (h : Text × Text) → IsHeader h → IsValue (header_text h)
unfolding is_whitespace
header_text-IsValue (k, v) h = (
  append-IsTrimmed b':' k v refl h.name_trimmed h.value_trimmed,
  All-append (λ d. d ≢ b';') k (b':' ∷ v) h.name_whole (omega arith, h.value_whole),
)

header_pairs-IsClean : (hs : Headers) → All IsHeader hs → All IsClean (header_pairs hs)
unfolding is_whitespace
header_pairs-IsClean [] h = tt
header_pairs-IsClean (x ∷ hs) (h, rest) = (
  setting refl (refl, refl) (omega arith) (omega arith) (header_text-IsValue x h),
  header_pairs-IsClean hs rest,
)

config_pairs-IsClean : (cfg : V2rayPluginConfig) → IsPrintable cfg → All IsClean (config_pairs cfg)
unfolding is_whitespace
config_pairs-IsClean cfg p = (
  setting refl (refl, refl) (omega arith) (omega arith) ((refl, refl), omega arith),
  (
    setting refl (refl, refl) (omega arith) (omega arith) (bool_text-IsValue cfg.tls),
    (
      setting refl (refl, refl) (omega arith) (omega arith) (p.host_trimmed, p.host_whole),
      (
        setting refl (refl, refl) (omega arith) (omega arith) (p.path_trimmed, p.path_whole),
        (
          setting refl (refl, refl) (omega arith) (omega arith) (bool_text-IsValue cfg.mux),
          (
            setting refl (refl, refl) (omega arith) (omega arith)
                (bool_text-IsValue cfg.skip_cert_verify),
            header_pairs-IsClean cfg.headers p.headers_fit,
          ),
        ),
      ),
    ),
  ),
)

-- Every configuration whose host, path and headers have no semicolon and no white space at an end, and
-- whose header names have no colon and stand there once, is read back from an option string: that which
-- gives each setting and each header in turn.
pub parse_opts-print :
    (cfg : V2rayPluginConfig) → IsPrintable cfg → parse_opts (print (config_pairs cfg)) ≡ ok cfg
unfolding parse_opts
parse_opts-print cfg p =
    ap (λ ps. apply_opts ps default)
      (pairs-print (codes "true") (config_pairs cfg) (config_pairs-IsClean cfg p))
    ∙ apply_opts-config_pairs cfg
    ∙ apply_opts-header_pairs cfg [] cfg.headers p.headers_fit p.headers_new
