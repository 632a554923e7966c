-- ===== src/Agent/ListCache/Invalidate.antt =====
-- What `invalidate_prefix_to_root` drops, and what it leaves.
use zz_drop.Prelude.{
  ℕ, ◌≡◌, refl, Text, true, not, Option, none, some, List, [], ◌∷◌, option_text_eq, ends_with,
  segments, length, take, ◌≤◌, ap, ◌∙◌, if◌then◌else◌, arith, Bool-cases, inl, inr,
}
use zz_drop.Proto.{EntryKindFilter}
use zz_drop.Agent.ListCache.{
  CacheKey, CacheMap, ListCache, map_get, map_retain, drop_prefixes, walk_to_root,
  invalidate_prefix_to_root, get,
}
use zz_drop.Agent.ListCache.Chain.{
  on_chain, IsAncestor, on_chain-some, segments-ancestor, IsAncestor-ends_with,
}
use zz_drop.Agent.ListCache.Lookup.{map_get-map_retain, get-fresh_hit}

map_get-drop_prefixes :
    (k : CacheKey) (chain : List (Option Text)) (m : CacheMap)
    → map_get k (drop_prefixes chain m) ≡ (if on_chain k.prefix chain then none else map_get k m)
unfolding drop_prefixes
map_get-drop_prefixes k [] m = refl
map_get-drop_prefixes k (q ∷ chain) m =
    rw
      (
        map_get-drop_prefixes k chain (map_retain (λ key. not (option_text_eq key.prefix q)) m),
        map_get-map_retain (λ key. not (option_text_eq key.prefix q)) k m,
      )
      (ground arith)

-- After an invalidation a lookup misses if its prefix stands on the chain, and otherwise finds what
-- it would have found, whatever the kind filter.
pub get-invalidate_prefix_to_root :
    (c : ListCache) (now : ℕ) (target prefix : Option Text) (kind : EntryKindFilter)
    → (get now prefix kind (invalidate_prefix_to_root target c)).0
      ≡ (if on_chain prefix (walk_to_root target) then none else (get now prefix kind c).0)
get-invalidate_prefix_to_root c now target prefix kind =
    rw (get-fresh_hit now prefix kind c, get-fresh_hit)
      (unfold invalidate_prefix_to_root in rw map_get-drop_prefixes (ground arith))

get-invalidate_unlisted :
    (c : ListCache) (now : ℕ) (target prefix : Text) (kind : EntryKindFilter)
    → ¬ IsAncestor target prefix
    → (get now (some prefix) kind (invalidate_prefix_to_root (some target) c)).0
      ≡ (get now (some prefix) kind c).0
get-invalidate_unlisted c now target prefix kind other =
    elim (Bool-cases (on_chain (some prefix) (walk_to_root (some target)))) [
      | inl e ↦ absurd (other ((on_chain-some target prefix).0 e))
      | inr e ↦ rw (get-invalidate_prefix_to_root, e)
    ]

-- the directory that `prefix` names is that of `target`, or above it
abbrev pub IsAbove : Text → Text → Type 0
IsAbove prefix target =
    (i : ℕ) × (i ≤ length (segments target)) × (segments prefix ≡ take i (segments target))

-- A listing of a directory that is neither that of the target nor above it stays cached, however its
-- prefix is spelled.
pub get-invalidate_other :
    (c : ListCache) (now : ℕ) (target prefix : Text) (kind : EntryKindFilter)
    → ¬ IsAbove prefix target
    → (get now (some prefix) kind (invalidate_prefix_to_root (some target) c)).0
      ≡ (get now (some prefix) kind c).0
get-invalidate_other c now target prefix kind other =
    get-invalidate_unlisted c now target prefix kind
      (λ (i, pos, le, e). other (i, le, ap segments e ∙ segments-ancestor target i pos le))

-- A lookup under a prefix that ends in a slash finds after an invalidation what it found before,
-- also after the invalidation of the very same text.
pub get-invalidate_slash :
    (c : ListCache) (now : ℕ) (target prefix : Text) (kind : EntryKindFilter)
    → ends_with b'/' prefix ≡ true
    → (get now (some prefix) kind (invalidate_prefix_to_root (some target) c)).0
      ≡ (get now (some prefix) kind c).0
get-invalidate_slash c now target prefix kind slash =
    get-invalidate_unlisted c now target prefix kind
      (λ a. cc (slash, IsAncestor-ends_with target prefix a))
