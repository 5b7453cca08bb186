-- ===== src/Ffi/Session/Sites.antt =====
-- The entries that carry a plugin in native/sslocal-ffi/src/lib.rs: they are objects, and stay so while
-- one after another is rewritten, so no rewriting panics.
use shadowsocks_ohos.Prelude.{
  ℕ, zero, suc, ◌≡◌, refl, sym, ap, ◌∙◌, Option, none, some, codes, equal,
}
use shadowsocks_ohos.Json.{
  Value, null, bool, num, number, str, arr, obj, Items, nil, cons, Fields, find, put, without, get,
  as_array, update_at, update_in,
}
use shadowsocks_ohos.Json.Laws.{find-put, find-without}
use shadowsocks_ohos.Ffi.Specs.{
  PluginSite, top_level, server, rewritten, at_site, items_or_nil, and_then,
}

-- The entry is an object.
abbrev pub IsObject : Value → Type 0
IsObject (obj fs) = Unit {0}
IsObject _ = ⊥

abbrev pub ObjectAt : ℕ → Items → Type 0
ObjectAt i nil = ⊥
ObjectAt zero (cons v vs) = IsObject v
ObjectAt (suc i) (cons v vs) = ObjectAt i vs

-- The servers of a value, none if it has no such array.
unfoldable pub servers_of : Value → Items
unfolding get as_array
servers_of json = items_or_nil (and_then as_array (get (codes "servers") json))

-- The entry that a site names is there, and is an object; a server's stands in an object too.
abbrev pub IsSite : Value → PluginSite → Type 0
IsSite json top_level = IsObject json
IsSite json (server i) = ObjectAt i (servers_of json)

-- Each site of `json` is one of what it has become; a panic is none.
abbrev pub KeepsSites : Value → Option Value → Type 0
KeepsSites json none = ⊥
KeepsSites json (some json') = (site : PluginSite) → IsSite json site → IsSite json' site

abbrev KeepsObjects : Items → Option Items → Type 0
KeepsObjects xs none = ⊥
KeepsObjects xs (some ys) = (j : ℕ) → ObjectAt j xs → ObjectAt j ys

-- What the rewriting of an object does to its fields.
abbrev rewritten_fields : ℕ → Fields → Fields
rewritten_fields p fs = without (codes "plugin_opts") (
    without (codes "plugin")
      (put (codes "server_port") (num p) (put (codes "server") (str (codes "127.0.0.1")) fs)))

find-rewritten_fields :
    (p : ℕ) (fs : Fields)
    → find (codes "servers") (rewritten_fields p fs) ≡ find (codes "servers") fs
unfolding equal
find-rewritten_fields p fs =
    find-without (codes "plugin_opts") (codes "servers") _
    ∙ find-without (codes "plugin") (codes "servers") _
    ∙ find-put (codes "server_port") (codes "servers") (num p) _
    ∙ find-put (codes "server") (codes "servers") (str (codes "127.0.0.1")) fs

pub servers_of-obj :
    (fs : Fields)
    → servers_of (obj fs) ≡ items_or_nil (and_then as_array (find (codes "servers") fs))
unfolding servers_of get
servers_of-obj fs = refl

pub servers_of-found :
    (fs : Fields) (xs : Items)
    → find (codes "servers") fs ≡ some (arr xs)
    → servers_of (obj fs) ≡ xs
unfolding as_array
servers_of-found fs xs e = servers_of-obj fs ∙ ap (λ o. items_or_nil (and_then as_array o)) e

pub servers_of-put :
    (fs : Fields) (ys : Items) → servers_of (obj (put (codes "servers") (arr ys) fs)) ≡ ys
unfolding equal
servers_of-put fs ys =
    servers_of-found _ ys (find-put (codes "servers") (codes "servers") (arr ys) fs)

pub servers_of-same :
    (fs gs : Fields)
    → find (codes "servers") gs ≡ find (codes "servers") fs
    → servers_of (obj gs) ≡ servers_of (obj fs)
servers_of-same fs gs e =
    servers_of-obj gs ∙ ap (λ o. items_or_nil (and_then as_array o)) e ∙ sym (servers_of-obj fs)

update_at-KeepsObjects :
    (p i : ℕ) (xs : Items) → ObjectAt i xs → KeepsObjects xs (update_at i (rewritten p) xs)
unfolding update_at rewritten
update_at-KeepsObjects p i nil h = h
update_at-KeepsObjects p zero (cons (obj fs) vs) h = λ j. below j
  where
    below :
        (j : ℕ) → ObjectAt j (cons (obj fs) vs) → ObjectAt j (cons (obj (rewritten_fields p fs)) vs)
    below zero k = tt
    below (suc j) k = k
update_at-KeepsObjects p zero (cons null vs) h = elim h [ ]
update_at-KeepsObjects p zero (cons (bool b) vs) h = elim h [ ]
update_at-KeepsObjects p zero (cons (num n) vs) h = elim h [ ]
update_at-KeepsObjects p zero (cons (number t) vs) h = elim h [ ]
update_at-KeepsObjects p zero (cons (str t) vs) h = elim h [ ]
update_at-KeepsObjects p zero (cons (arr t) vs) h = elim h [ ]
update_at-KeepsObjects p (suc i) (cons v vs) h =
    onto (update_at i (rewritten p) vs) (update_at-KeepsObjects p i vs h)
  where
    onto :
        (o : Option Items)
        → KeepsObjects vs o
        → KeepsObjects (cons v vs) (elim o [ none ↦ none | some ws ↦ some (cons v ws) ])
    onto none k = k
    onto (some ws) k = λ j. behind j
      where
        behind : (j : ℕ) → ObjectAt j (cons v vs) → ObjectAt j (cons v ws)
        behind zero o = o
        behind (suc j) o = k j o

put_servers-KeepsSites :
    (fs : Fields) (xs : Items) (o : Option Items)
    → find (codes "servers") fs ≡ some (arr xs)
    → KeepsObjects xs o
    → KeepsSites
        (obj fs)
        (elim o [ none ↦ none | some ys ↦ some (obj (put (codes "servers") (arr ys) fs)) ])
put_servers-KeepsSites fs xs none e k = k
put_servers-KeepsSites fs xs (some ys) e k = λ site. at site
  where
    at :
        (site : PluginSite)
        → IsSite (obj fs) site
        → IsSite (obj (put (codes "servers") (arr ys) fs)) site
    at top_level h = tt
    at (server j) h = rw (servers_of-put fs ys) (k j (rw (servers_of-found fs xs e) at h))

-- The servers of an object, where there is one at number `i`.
pub servers_found :
    (fs : Fields) (i : ℕ)
    → ObjectAt i (servers_of (obj fs))
    → (xs : Items) × (find (codes "servers") fs ≡ some (arr xs)) × ObjectAt i xs
unfolding servers_of get as_array
servers_found fs i h = in_cases (find (codes "servers") fs) h
  where
    in_cases :
        (o : Option Value)
        → ObjectAt i (items_or_nil (and_then as_array o))
        → (xs : Items) × (o ≡ some (arr xs)) × ObjectAt i xs
    in_cases none k = elim k [ ]
    in_cases (some (arr xs)) k = (xs, refl, k)
    in_cases (some null) k = elim k [ ]
    in_cases (some (bool b)) k = elim k [ ]
    in_cases (some (num n)) k = elim k [ ]
    in_cases (some (number t)) k = elim k [ ]
    in_cases (some (str t)) k = elim k [ ]
    in_cases (some (obj t)) k = elim k [ ]

pub update_in-found :
    (fs : Fields) (xs : Items) (i : ℕ) (f : Value → Option Value)
    → find (codes "servers") fs ≡ some (arr xs)
    → update_in (codes "servers") i f (obj fs) ≡ elim (update_at i f xs) [
      | none ↦ none
      | some ys ↦ some (obj (put (codes "servers") (arr ys) fs))
    ]
unfolding update_in
update_in-found fs xs i f e = rw (e, update_in) refl

-- Rewriting the entry of a site does not panic, and every site is still one.
pub at_site-KeepsSites :
    (p : ℕ) (json : Value) (site : PluginSite)
    → IsSite json site
    → KeepsSites json (at_site site (rewritten p) json)
unfolding at_site rewritten servers_of get
at_site-KeepsSites p (obj fs) top_level h = λ site. same site
  where
    same : (site : PluginSite) → IsSite (obj fs) site → IsSite (obj (rewritten_fields p fs)) site
    same top_level k = tt
    same (server j) k =
        rw (servers_of-same fs (rewritten_fields p fs) (find-rewritten_fields p fs)) k
at_site-KeepsSites p (obj fs) (server i) h =
    let (xs, e, o) = servers_found fs i h in
    rw (update_in-found fs xs i (rewritten p) e) (
      put_servers-KeepsSites fs xs (update_at i (rewritten p) xs) e
        (update_at-KeepsObjects p i xs o))
at_site-KeepsSites p null top_level h = elim h [ ]
at_site-KeepsSites p (bool b) top_level h = elim h [ ]
at_site-KeepsSites p (num n) top_level h = elim h [ ]
at_site-KeepsSites p (number t) top_level h = elim h [ ]
at_site-KeepsSites p (str t) top_level h = elim h [ ]
at_site-KeepsSites p (arr t) top_level h = elim h [ ]
at_site-KeepsSites p null (server i) h = elim h [ ]
at_site-KeepsSites p (bool b) (server i) h = elim h [ ]
at_site-KeepsSites p (num n) (server i) h = elim h [ ]
at_site-KeepsSites p (number t) (server i) h = elim h [ ]
at_site-KeepsSites p (str t) (server i) h = elim h [ ]
at_site-KeepsSites p (arr t) (server i) h = elim h [ ]
