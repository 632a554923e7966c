-- ===== src/Tests/Caches.antt =====
-- The cache of listings, profiles and key parameters: the theorems at concrete inputs.
use zz_drop.Prelude.{
  ◌≢◌, map, length, zero, suc, ◌≡◌, ◌≢◌, ◌↔◌, refl, Text, codes, true, false, Option, none, some,
  List, [], ◌∷◌, arith, text_eq, text_eq_iff, segments, join, split, ends_with,
}
use zz_drop.Proto.{EntryKindFilter, RemoteKind, RemoteListEntry}
use zz_drop.Profile.Container.{find_by_alias, find_by_alias_mut, replace_first}
use zz_drop.Agent.ListCache.{
  ListCache, make_key, get, put, walk_to_root, descending, invalidate_prefix_to_root, secs,
  with_clock,
}
use zz_drop.Agent.ListCache.Lookup.{get-put}
use zz_drop.Agent.ListCache.Chain.{on_chain, IsAncestor, walk_to_root_lem, depth, countdown}
use zz_drop.Agent.ListCache.Invalidate.{get-invalidate_other, IsAbove}
use zz_drop.Tests.Data.{profile_of, alpha, beta, two_profiles}

abbrev notes : List RemoteListEntry
notes =
    record { name = codes "a.md"; size = some 3; kind = RemoteKind.file; mtime_secs = none } ∷ []

abbrev docs : Option Text
docs = some (codes "docs")

abbrev with_docs : ListCache
with_docs = record {
  map =
      (
        make_key docs EntryKindFilter.both,
        record { fetched_at = secs 5; entries = notes; truncated = false },
      )
      ∷ [];
  ttl = secs 60;
}

chain_example :
    walk_to_root (some (codes "/a/b//c/"))
    ≡ some (codes "a/b/c") ∷ some (codes "a/b") ∷ some (codes "a") ∷ none ∷ []
unfolding walk_to_root descending segments split join text_eq
chain_example = refl

another_key : make_key none EntryKindFilter.file ≢ make_key docs EntryKindFilter.both
another_key e = absurd (ground arith)

get-put_example :
    (get
        (secs 9)
        docs
        EntryKindFilter.both
        (put (secs 5) docs EntryKindFilter.both notes false with_clock)
      ≡ (
        some (record { fetched_at = secs 5; entries = notes; truncated = false }),
        put (secs 5) docs EntryKindFilter.both notes false with_clock,
      ))
    × ((get
          (secs 9)
          none
          EntryKindFilter.file
          (put (secs 5) docs EntryKindFilter.both notes false with_clock)).0
        ≡ (get (secs 9) none EntryKindFilter.file with_clock).0)
get-put_example =
    get-put with_clock (secs 5) (secs 9) docs none EntryKindFilter.both EntryKindFilter.file notes
      false (omega arith) another_key

walk_to_root_lem_example :
    ((on_chain docs (walk_to_root (some (codes "docs/new"))) ≡ true)
      ↔ IsAncestor (codes "docs/new") (codes "docs"))
    × (map depth (walk_to_root (some (codes "docs/new")))
        ≡ countdown (length (segments (codes "docs/new"))))
walk_to_root_lem_example = walk_to_root_lem (codes "docs/new") docs

docs_elsewhere : ¬ IsAbove (codes "docs") (codes "music")
unfolding segments split join text_eq
docs_elsewhere (zero, le, e) = absurd (ground arith)
docs_elsewhere (suc zero, le, e) = absurd (ground arith)
docs_elsewhere (suc (suc i), le, e) = absurd (omega arith)

get-invalidate_other_example :
    (get
      (secs 9)
      docs
      EntryKindFilter.both
      (invalidate_prefix_to_root (some (codes "music")) with_docs)).0
    ≡ (get (secs 9) docs EntryKindFilter.both with_docs).0
get-invalidate_other_example =
    get-invalidate_other with_docs (secs 9) (codes "music") (codes "docs") EntryKindFilter.both
      docs_elsewhere

slash_example : ends_with b'/' (codes "docs/") ≡ true
unfolding ends_with
slash_example = refl

beta_replaced : find_by_alias_mut two_profiles beta (profile_of beta) ≡ some two_profiles
unfolding find_by_alias_mut find_by_alias replace_first text_eq
beta_replaced = refl

alpha_other : alpha ≢ beta
unfolding text_eq
alpha_other h = let e : text_eq alpha beta ≡ false = refl in cc (e, (text_eq_iff alpha beta).1 h)
