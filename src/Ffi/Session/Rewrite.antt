-- ===== src/Ffi/Session/Rewrite.antt =====
-- What `apply_plugin_forwarders` of native/sslocal-ffi/src/lib.rs leaves of an entry that carries a plugin.
use shadowsocks_ohos.Prelude.{
  ℕ, ◌≡◌, refl, ap, ◌∙◌, Option, none, some, Text, codes, equal, if◌then◌else◌,
}
use shadowsocks_ohos.Json.{Value, num, str, obj, Fields, find}
use shadowsocks_ohos.Json.Laws.{find-put, find-without}
use shadowsocks_ohos.Ffi.Specs.{rewritten}

-- The field `k` of the rewritten entry.
abbrev pub field_after : ℕ → Fields → Text → Option Value
field_after local_port fs k =
    if equal (codes "plugin_opts") k
    then none
    else if equal (codes "plugin") k
    then none
    else if equal (codes "server_port") k
    then some (num local_port)
    else if equal (codes "server") k
    then some (str (codes "127.0.0.1"))
    else find k fs

-- An entry that is an object is rewritten to one whose server is 127.0.0.1 at the forwarder's port,
-- which has no plugin and no plugin options, and in which every other key has the value that it had.
pub rewritten-field_after :
    (local_port : ℕ) (fs : Fields)
    → (gs : Fields) × (rewritten local_port (obj fs) ≡ some (obj gs))
      × ((k : Text) → find k gs ≡ field_after local_port fs k)
unfolding rewritten
rewritten-field_after local_port fs = (
  _,
  refl,
  λ k.
      find-without (codes "plugin_opts") k _
      ∙ ap (λ o. if equal (codes "plugin_opts") k then none else o)
          (find-without (codes "plugin") k _
            ∙ ap (λ o. if equal (codes "plugin") k then none else o)
                (find-put (codes "server_port") k (num local_port) _
                  ∙ ap (λ o. if equal (codes "server_port") k then some (num local_port) else o)
                      (find-put (codes "server") k (str (codes "127.0.0.1")) fs))),
)
