-- ===== src/Ffi/Session/Fields.antt =====
-- What the rewriting of one entry in native/sslocal-ffi/src/lib.rs does to the fields of every entry.
use shadowsocks_ohos.Prelude.{
  ℕ, zero, suc, Bool, true, false, ◌≡◌, refl, sym, ap, ◌∙◌, Option, none, some, Text, codes, equal,
  if◌then◌else◌,
}
use shadowsocks_ohos.Json.{
  Value, null, bool, num, number, str, arr, obj, Items, nil, cons, Fields, find, put, get,
  update_at,
}
use shadowsocks_ohos.Json.Laws.{find-put}
use shadowsocks_ohos.Ffi.Specs.{PluginSite, top_level, server, rewritten, at_site, and_then}
use shadowsocks_ohos.Ffi.Session.Rewrite.{field_after, rewritten-field_after}
use shadowsocks_ohos.Ffi.Session.Sites.{
  ObjectAt, servers_of, servers_of-same, servers_of-found, servers_of-put, servers_found,
  update_in-found, IsSite,
}

abbrev pub item_at : ℕ → Items → Option Value
item_at i nil = none
item_at zero (cons v vs) = some v
item_at (suc i) (cons v vs) = item_at i vs

-- The entry that a site names, and a field of it.
abbrev pub entry_at : PluginSite → Value → Option Value
entry_at top_level json = some json
entry_at (server i) json = item_at i (servers_of json)

abbrev pub value_at : PluginSite → Text → Value → Option Value
value_at site k json = and_then (get k) (entry_at site json)

abbrev pub same_number : ℕ → ℕ → Bool
same_number zero zero = true
same_number zero (suc j) = false
same_number (suc i) zero = false
same_number (suc i) (suc j) = same_number i j

abbrev pub same_site : PluginSite → PluginSite → Bool
same_site top_level top_level = true
same_site (server i) (server j) = same_number i j
same_site _ _ = false

-- A field of an entry that is pointed at a forwarder.
abbrev pub field_now : ℕ → Text → Option Value → Option Value
field_now local_port k v =
    if equal (codes "plugin_opts") k
    then none
    else if equal (codes "plugin") k
    then none
    else if equal (codes "server_port") k
    then some (num local_port)
    else if equal (codes "server") k
    then some (str (codes "127.0.0.1"))
    else v

-- A field before and after: at one entry it is a forwarder's now, at every other as it was.
abbrev pub Moved : ℕ → Text → Bool → Option Value → Option Value → Type 0
Moved p k b before after = after ≡ (if b then field_now p k before else before)

first-Moved :
    (p : ℕ) (k : Text) (j : ℕ) (fs gs : Fields) (vs : Items)
    → find k gs ≡ field_after p fs k
    → Moved p k
        (same_number 0 j)
        (and_then (get k) (item_at j (cons (obj fs) vs)))
        (and_then (get k) (item_at j (cons (obj gs) vs)))
unfolding get
first-Moved p k zero fs gs vs e = e
first-Moved p k (suc j) fs gs vs e = refl

behind-Moved :
    (p : ℕ) (k : Text) (i j : ℕ) (v : Value) (vs : Items) {ys : Items} (r : Option Items)
    → (elim r [ none ↦ none | some ws ↦ some (cons v ws) ]) ≡ some ys
    → ((j : ℕ) (ws : Items)
        → r ≡ some ws
        → Moved p k
            (same_number i j)
            (and_then (get k) (item_at j vs))
            (and_then (get k) (item_at j ws)))
    → Moved p k
        (same_number (suc i) j)
        (and_then (get k) (item_at j (cons v vs)))
        (and_then (get k) (item_at j ys))
behind-Moved p k i j v vs none e m = cc
behind-Moved p k i zero v vs {ys} (some ws) e m = let whole : ys ≡ cons v ws = cc in rw whole refl
behind-Moved p k i (suc j) v vs {ys} (some ws) e m =
    let whole : ys ≡ cons v ws = cc in rw whole (m j ws refl)

update_at-Moved :
    (p : ℕ) (k : Text) (i j : ℕ) (xs : Items) {ys : Items}
    → ObjectAt i xs
    → update_at i (rewritten p) xs ≡ some ys
    → Moved p k
        (same_number i j)
        (and_then (get k) (item_at j xs))
        (and_then (get k) (item_at j ys))
unfolding update_at
update_at-Moved p k i j nil o e = elim o [ ]
update_at-Moved p k zero j (cons (obj fs) vs) {ys} o e =
    let (gs, f, fields) = rewritten-field_after p fs in
    let e' : some (cons (obj gs) vs) ≡ some ys =
      ap (λ o. elim o [ none ↦ none | some w ↦ some (cons w vs) ]) (sym f) ∙ e in
    let whole : ys ≡ cons (obj gs) vs = cc in rw whole (first-Moved p k j fs gs vs (fields k))
update_at-Moved p k zero j (cons null vs) o e = elim o [ ]
update_at-Moved p k zero j (cons (bool b) vs) o e = elim o [ ]
update_at-Moved p k zero j (cons (num n) vs) o e = elim o [ ]
update_at-Moved p k zero j (cons (number t) vs) o e = elim o [ ]
update_at-Moved p k zero j (cons (str t) vs) o e = elim o [ ]
update_at-Moved p k zero j (cons (arr t) vs) o e = elim o [ ]
update_at-Moved p k (suc i) j (cons v vs) {ys} o e =
    behind-Moved p k i j v vs (update_at i (rewritten p) vs) e
      (λ j ws f. update_at-Moved p k i j vs {ys = ws} o f)

-- The rewriting at a site moves the fields of its entry, and no field of another entry; the servers
-- themselves are a field of the whole.
pub at_site-Moved :
    (p : ℕ) (json : Value) {json' : Value} (s site : PluginSite) (k : Text)
    → equal (codes "servers") k ≡ false
    → IsSite json s
    → at_site s (rewritten p) json ≡ some json'
    → Moved p k (same_site s site) (value_at site k json) (value_at site k json')
unfolding at_site get equal servers_of
at_site-Moved p (obj fs) {json'} top_level site k other h e =
    let (gs, f, fields) = rewritten-field_after p fs in
    let whole : json' ≡ obj gs = cc in rw whole (at site gs fields)
  where
    at :
        (site : PluginSite) (gs : Fields)
        → ((k : Text) → find k gs ≡ field_after p fs k)
        → Moved p k (same_site top_level site) (value_at site k (obj fs)) (value_at site k (obj gs))
    at top_level gs fields = fields k
    at (server j) gs fields =
        ap (λ xs. and_then (get k) (item_at j xs))
          (servers_of-same fs gs (fields (codes "servers")))
at_site-Moved p (obj fs) {json'} (server i) site k other h e =
    let (xs, found, o) = servers_found fs i h in
    in_update xs found o (update_at i (rewritten p) xs) refl
      (sym (update_in-found fs xs i (rewritten p) found) ∙ e)
  where
    at :
        (site : PluginSite) (xs ys : Items)
        → find (codes "servers") fs ≡ some (arr xs)
        → ((j : ℕ)
            → Moved p k
                (same_number i j)
                (and_then (get k) (item_at j xs))
                (and_then (get k) (item_at j ys)))
        → Moved p k
            (same_site (server i) site)
            (value_at site k (obj fs))
            (value_at site k (obj (put (codes "servers") (arr ys) fs)))
    at top_level xs ys found m = find-put (codes "servers") k (arr ys) fs ∙ rw other refl
    at (server j) xs ys found m = rw (servers_of-put fs ys, servers_of-found fs xs found) (m j)

    in_update :
        (xs : Items)
        → find (codes "servers") fs ≡ some (arr xs)
        → ObjectAt i xs
        → (r : Option Items) → update_at i (rewritten p) xs ≡ r
        → (elim r [ none ↦ none | some ys ↦ some (obj (put (codes "servers") (arr ys) fs)) ])
          ≡ some json'
        → Moved p k (same_site (server i) site) (value_at site k (obj fs)) (value_at site k json')
    in_update xs found o none f e = cc
    in_update xs found o (some ys) f e =
        let whole : json' ≡ obj (put (codes "servers") (arr ys) fs) = cc in
        rw whole (at site xs ys found (λ j. update_at-Moved p k i j xs o f))
at_site-Moved p null top_level site k other h e = elim h [ ]
at_site-Moved p null (server i) site k other h e = elim h [ ]
at_site-Moved p (bool b) top_level site k other h e = elim h [ ]
at_site-Moved p (bool b) (server i) site k other h e = elim h [ ]
at_site-Moved p (num n) top_level site k other h e = elim h [ ]
at_site-Moved p (num n) (server i) site k other h e = elim h [ ]
at_site-Moved p (number t) top_level site k other h e = elim h [ ]
at_site-Moved p (number t) (server i) site k other h e = elim h [ ]
at_site-Moved p (str t) top_level site k other h e = elim h [ ]
at_site-Moved p (str t) (server i) site k other h e = elim h [ ]
at_site-Moved p (arr t) top_level site k other h e = elim h [ ]
at_site-Moved p (arr t) (server i) site k other h e = elim h [ ]
