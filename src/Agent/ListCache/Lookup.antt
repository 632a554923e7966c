-- ===== src/Agent/ListCache/Lookup.antt =====
-- What a lookup returns after a store, and how old it can be.
use zz_drop.Prelude.{
  ℕ, ◌-◌, ◌≤◌, ◌≡◌, ◌≢◌, ◌↔◌, refl, ◌∙◌, Text, Bool, true, not, Option, none, some, List, [], ◌∷◌,
  option_text_eq_iff, ltb, if◌then◌else◌, arith,
}
use zz_drop.Proto.{EntryKindFilter, RemoteListEntry}
use zz_drop.Agent.ListCache.{
  KindKey, kind_eq, CacheKey, CacheEntry, CacheMap, ListCache, Hit, key_eq, map_get, map_retain,
  map_remove, map_insert, make_key, get, put,
}

kind_eq_iff : (a b : KindKey) → (kind_eq a b ≡ true) ↔ (a ≡ b)
kind_eq_iff KindKey.file b = ground arith
kind_eq_iff KindKey.directory b = ground arith
kind_eq_iff KindKey.both b = ground arith

pub key_eq_iff : (a b : CacheKey) → (key_eq a b ≡ true) ↔ (a ≡ b)
key_eq_iff a b =
    ground (arith, option_text_eq_iff a.prefix b.prefix, kind_eq_iff a.kind_filter b.kind_filter)

-- A predicate on keys decides which lookups survive.
pub map_get-map_retain :
    (p : CacheKey → Bool) (k : CacheKey) (m : CacheMap)
    → map_get k (map_retain p m) ≡ (if p k then map_get k m else none)
unfolding map_get map_retain
map_get-map_retain p k [] = ground arith
map_get-map_retain p k ((j, e) ∷ m) = ground (arith, key_eq_iff j k, map_get-map_retain p k m)

pub map_get-map_remove :
    (j k : CacheKey) (m : CacheMap)
    → map_get k (map_remove j m) ≡ (if key_eq k j then none else map_get k m)
unfolding map_remove
map_get-map_remove j k m = ground (arith, map_get-map_retain (λ i. not (key_eq i j)) k m)

pub map_get-map_insert :
    (j k : CacheKey) (e : CacheEntry) (m : CacheMap)
    → map_get k (map_insert j e m) ≡ (if key_eq j k then some e else map_get k m)
unfolding map_insert map_get
map_get-map_insert j k e m =
    ground (arith, map_get-map_remove j k m, key_eq_iff j k, key_eq_iff k j)

-- what a lookup makes of the entry it finds
abbrev pub fresh_hit : ℕ → ℕ → Option CacheEntry → Option Hit
fresh_hit ttl now none = none
fresh_hit ttl now (some e) =
    if ltb ttl (now - e.fetched_at)
    then none
    else some (record { fetched_at = e.fetched_at; entries = e.entries; truncated = e.truncated })

pub get-fresh_hit :
    (now : ℕ) (prefix : Option Text) (kind : EntryKindFilter) (c : ListCache)
    → (get now prefix kind c).0 ≡ fresh_hit c.ttl now (map_get (make_key prefix kind) c.map)
unfolding get
get-fresh_hit now prefix kind c = ground arith

get-put_any :
    (c : ListCache) (now later : ℕ) (prefix other : Option Text) (kind other_kind : EntryKindFilter)
    (entries : List RemoteListEntry) (truncated : Bool)
    → later - now ≤ c.ttl
    → (get later other other_kind (put now prefix kind entries truncated c)).0 ≡ (
        if key_eq (make_key prefix kind) (make_key other other_kind)
        then some (record { fetched_at = now; entries = entries; truncated = truncated })
        else (get later other other_kind c).0)
unfolding put
get-put_any c now later prefix other kind other_kind entries truncated fresh =
    let key = make_key prefix kind in
    let asked = make_key other other_kind in
    let entry : CacheEntry = record {
      fetched_at = now;
      entries = entries;
      truncated = truncated;
    } in
    rw (get-fresh_hit, map_get-map_insert key asked entry c.map, get-fresh_hit) (ground arith)

-- A hit is never older than the time to live, is what the map holds, and leaves the cache as it was.
pub get_sound :
    (c c' : ListCache) (now : ℕ) (prefix : Option Text) (kind : EntryKindFilter) (hit : Hit)
    → get now prefix kind c ≡ (some hit, c')
    → (now - hit.fetched_at ≤ c.ttl)
      × (map_get (make_key prefix kind) c.map
          ≡ some (record {
            fetched_at = hit.fetched_at;
            entries = hit.entries;
            truncated = hit.truncated;
          }))
      × (c' ≡ c)
unfolding get
get_sound c c' now prefix kind hit h = ground arith

-- A miss leaves no entry of that key behind.
pub get-none :
    (c c' : ListCache) (now : ℕ) (prefix : Option Text) (kind : EntryKindFilter)
    → get now prefix kind c ≡ (none, c')
    → (map_get (make_key prefix kind) c'.map ≡ none) × (c'.ttl ≡ c.ttl)
unfolding get
get-none c c' now prefix kind h =
    let key = make_key prefix kind in
    ground (arith, map_get-map_remove key key c.map, key_eq_iff key key)

pub ttl-get :
    (now : ℕ) (prefix : Option Text) (kind : EntryKindFilter) (c : ListCache)
    → (get now prefix kind c).1.ttl ≡ c.ttl
unfolding get
ttl-get now prefix kind c = ground arith

pub get-put_self :
    (c : ListCache) (now later : ℕ) (prefix : Option Text) (kind : EntryKindFilter)
    (entries : List RemoteListEntry) (truncated : Bool)
    → later - now ≤ c.ttl
    → (get later prefix kind (put now prefix kind entries truncated c)).0
      ≡ some (record { fetched_at = now; entries = entries; truncated = truncated })
get-put_self c now later prefix kind entries truncated fresh =
    let key = make_key prefix kind in
    get-put_any c now later prefix prefix kind kind entries truncated fresh
    ∙ rw ((key_eq_iff key key).1 refl)

-- Within the time to live, a lookup of the key that was just stored returns what was stored, and
-- leaves the cache as it was; a lookup of any other key finds what it would have found without the
-- store.
pub get-put :
    (c : ListCache) (now later : ℕ) (prefix other : Option Text) (kind other_kind : EntryKindFilter)
    (entries : List RemoteListEntry) (truncated : Bool)
    → later - now ≤ c.ttl
    → make_key other other_kind ≢ make_key prefix kind
    → (get later prefix kind (put now prefix kind entries truncated c) ≡ (
      some (record { fetched_at = now; entries = entries; truncated = truncated }),
      put now prefix kind entries truncated c,
    ))
      × ((get later other other_kind (put now prefix kind entries truncated c)).0
          ≡ (get later other other_kind c).0)
get-put c now later prefix other kind other_kind entries truncated fresh apart =
    let stored = put now prefix kind entries truncated c in
    let found = get-put_self c now later prefix kind entries truncated fresh in
    let (_, _, same) =
      get_sound stored (get later prefix kind stored).1 later prefix kind _
        (λ i. (found i, (get later prefix kind stored).1)) in
    (
      λ i. (found i, same i),
      get-put_any c now later prefix other kind other_kind entries truncated fresh
          ∙ ground (arith, key_eq_iff (make_key prefix kind) (make_key other other_kind)),
    )

pub get-get :
    (c : ListCache) (now later : ℕ) (prefix : Option Text) (kind : EntryKindFilter) (hit : Hit)
    → (get now prefix kind c).0 ≡ some hit
    → later - hit.fetched_at ≤ c.ttl
    → (get later prefix kind (get now prefix kind c).1).0 ≡ some hit
get-get c now later prefix kind hit h fresh =
    let (_, there, same) =
      get_sound c (get now prefix kind c).1 now prefix kind hit
        (λ i. (h i, (get now prefix kind c).1)) in
    rw (same, get-fresh_hit, there) (ground arith)
