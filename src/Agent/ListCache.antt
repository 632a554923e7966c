-- ===== src/Agent/ListCache.antt =====
-- src/agent/list_cache.rs: the cache of remote listings. A `SystemTime` is the number of
-- nanoseconds since `UNIX_EPOCH` (no clock is set before 1970), a `Duration` a number of
-- nanoseconds; the injected clock is the argument `now`, read once by an operation as in the source.
-- The `BTreeMap` is an association list: the order of its keys is never observed.
pub mod Lookup
pub mod Chain
pub mod Invalidate
use zz_drop.Prelude.{
  ℕ, zero, suc, ◌-◌, ◌*◌, ◌^◌, ◌/◌, Text, Bool, true, false, not, ◌&&◌, Option, none, some, List,
  [], ◌∷◌, ◌++◌, length, take, option_text_eq, ltb, if◌then◌else◌, retain, segments, join,
}
use zz_drop.Proto
use zz_drop.Proto.{EntryKindFilter, RemoteListEntry}

abbrev pub secs : ℕ → ℕ
secs n = n * 10 ^ 9

abbrev pub default_ttl : ℕ
default_ttl = secs 60

pub data KindKey : Type 0 where
  file directory both : KindKey

abbrev pub kind_key : EntryKindFilter → KindKey
kind_key EntryKindFilter.file = KindKey.file
kind_key EntryKindFilter.directory = KindKey.directory
kind_key EntryKindFilter.both = KindKey.both

abbrev pub kind_eq : KindKey → KindKey → Bool
kind_eq KindKey.file KindKey.file = true
kind_eq KindKey.directory KindKey.directory = true
kind_eq KindKey.both KindKey.both = true
kind_eq _ _ = false

pub record CacheKey : Type 0 where
  pub prefix : Option Text
  pub kind_filter : KindKey

abbrev pub key_eq : CacheKey → CacheKey → Bool
key_eq a b = option_text_eq a.prefix b.prefix && kind_eq a.kind_filter b.kind_filter

pub record CacheEntry : Type 0 where
  pub fetched_at : ℕ
  pub entries : List RemoteListEntry
  pub truncated : Bool

pub record Hit : Type 0 where
  pub fetched_at : ℕ
  pub entries : List RemoteListEntry
  pub truncated : Bool

-- the `BTreeMap` and its operations
abbrev pub CacheMap : Type 0
CacheMap = List (CacheKey × CacheEntry)

unfoldable pub map_get : CacheKey → CacheMap → Option CacheEntry
map_get k [] = none
map_get k ((j, e) ∷ m) = if key_eq j k then some e else map_get k m

unfoldable pub map_retain : (CacheKey → Bool) → CacheMap → CacheMap
map_retain p m = retain (λ (entry : CacheKey × CacheEntry). p entry.0) m

unfoldable pub map_remove : CacheKey → CacheMap → CacheMap
unfolding map_retain
map_remove k m = map_retain (λ j. not (key_eq j k)) m

unfoldable pub map_insert : CacheKey → CacheEntry → CacheMap → CacheMap
unfolding map_remove
map_insert k e m = (k, e) ∷ map_remove k m

pub record ListCache : Type 0 where
  pub map : CacheMap
  pub ttl : ℕ

abbrev pub with_clock : ListCache
with_clock = record { map = []; ttl = default_ttl }

abbrev pub make_key : Option Text → EntryKindFilter → CacheKey
make_key prefix kind_filter = record { prefix = prefix; kind_filter = kind_key kind_filter }

abbrev hit_of : CacheEntry → Hit
hit_of e = record { fetched_at = e.fetched_at; entries = e.entries; truncated = e.truncated }

-- `duration_since(..).unwrap_or(ZERO)` is the subtraction that stops at 0
unfoldable pub get : ℕ → Option Text → EntryKindFilter → ListCache → Option Hit × ListCache
get now prefix kind_filter c =
    let key = make_key prefix kind_filter in
    elim (map_get key c.map) [
      | none ↦ (none, c)
      | some entry ↦
          let age = now - entry.fetched_at in
          if ltb c.ttl age
          then (none, record c { map = map_remove key c.map })
          else (some (hit_of entry), c)
    ]

unfoldable pub put :
    ℕ → Option Text → EntryKindFilter → List RemoteListEntry → Bool → ListCache → ListCache
put now prefix kind_filter entries truncated c =
    let key = make_key prefix kind_filter in
    record c {
      map =
          map_insert key (record { fetched_at = now; entries = entries; truncated = truncated })
            c.map;
    }

-- `for i in (1..=n).rev()`: the joined first `i` segments
unfoldable pub descending : ℕ → List Text → List (Option Text)
descending zero segs = []
descending (suc i) segs = some (join b'/' (take (suc i) segs)) ∷ descending i segs

unfoldable pub walk_to_root : Option Text → List (Option Text)
unfolding descending segments join
walk_to_root none = none ∷ []
walk_to_root (some p) = let segs = segments p in descending (length segs) segs ++ none ∷ []

unfoldable pub drop_prefixes : List (Option Text) → CacheMap → CacheMap
unfolding map_retain
drop_prefixes [] m = m
drop_prefixes (prefix ∷ chain) m =
    drop_prefixes chain (map_retain (λ key. not (option_text_eq key.prefix prefix)) m)

unfoldable pub invalidate_prefix_to_root : Option Text → ListCache → ListCache
unfolding drop_prefixes walk_to_root
invalidate_prefix_to_root target c = record c { map = drop_prefixes (walk_to_root target) c.map }

abbrev pub clear : ListCache → ListCache
clear c = record c { map = [] }

abbrev pub list_cache_len : ListCache → ℕ
list_cache_len c = length c.map

-- `as_secs()` of the time since the epoch
abbrev pub epoch_secs : ℕ → ℕ
epoch_secs t = t / 10 ^ 9
