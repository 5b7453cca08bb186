-- ===== src/Plugin/Parse.antt =====
-- What the simple-obfs options of native/sslocal-ffi/src/plugin.rs mean.
use shadowsocks_ohos.Prelude.{
  ◌≡◌, refl, sym, ap, ◌∙◌, List, [], ◌∷◌, Option, none, some, Text, codes, equal, equal_iff,
  if◌then◌else◌, Bool-cases, inl, inr,
}
use shadowsocks_ohos.Options.{pairs}
use shadowsocks_ohos.Options.Last.{last_value, read_as, read_as-last_value, read_as-some}
use shadowsocks_ohos.Plugin.{obfs_opt, obfs_opts, obfs_kind, parse_simple_obfs_opts}

-- One option changes the mode, the host, or nothing.
obfs_opt-fields :
    (k v : Text) (m : Option Text) (h : Text)
    → obfs_opt k v (m, h)
      ≡ (if equal k (codes "obfs") then some v else m, if equal k (codes "obfs-host") then v else h)
unfolding obfs_opt
obfs_opt-fields k v m h = elim (Bool-cases (equal k (codes "obfs"))) [
  | inl is_mode ↦ rw ((equal_iff k (codes "obfs")).0 is_mode) (unfold equal in refl)
  | inr other ↦ elim (Bool-cases (equal k (codes "obfs-host"))) [
    | inl is_host ↦ rw (other, is_host)
    | inr neither ↦ rw (other, neither)
  ]
]

obfs_opts-last_value :
    (ps : List (Text × Text)) (m : Option Text) (h : Text)
    → obfs_opts ps (m, h) ≡ (
      read_as some m (last_value (codes "obfs") ps),
      read_as (λ v. v) h (last_value (codes "obfs-host") ps),
    )
unfolding obfs_opts
obfs_opts-last_value [] m h = refl
obfs_opts-last_value ((k, v) ∷ ps) m h =
    ap (obfs_opts ps) (obfs_opt-fields k v m h)
    ∙ obfs_opts-last_value ps (if equal k (codes "obfs") then some v else m)
        (if equal k (codes "obfs-host") then v else h)
    ∙ (λ i. (
      sym (read_as-last_value some m (codes "obfs") k v ps) i,
      sym (read_as-last_value (λ v'. v') h (codes "obfs-host") k v ps) i,
    ))

-- The mode is the last value of `obfs` and the host the last value of `obfs-host`, empty if there is
-- none; no other key has any effect, and the mode alone decides between the two kinds and the error.
pub parse_simple_obfs_opts-last_value :
    (opts : Text)
    → parse_simple_obfs_opts opts
      ≡ obfs_kind
          (last_value (codes "obfs") (pairs [] opts))
          (read_as (λ v. v) [] (last_value (codes "obfs-host") (pairs [] opts)))
unfolding parse_simple_obfs_opts
parse_simple_obfs_opts-last_value opts =
    ap (λ (st : Option Text × Text). obfs_kind st.0 st.1)
      (obfs_opts-last_value (pairs [] opts) none [])
    ∙ ap (λ m. obfs_kind m (read_as (λ v. v) [] (last_value (codes "obfs-host") (pairs [] opts))))
        (read_as-some (last_value (codes "obfs") (pairs [] opts)))
