-- ===== src/Agent/State/Listing/Bounds.antt =====
-- The cap of src/agent/state.rs on the listings that the agent returns and keeps.
use zz_drop.Prelude.{
  option_text_eq, ℕ, ◌≤◌, ◌≡◌, Text, Bool, Option, some, List, [], ◌∷◌, length, map, retain, All,
  arith, length-take, Result, ok, err, not, Bool-cases, Option-cases, Result-cases, inl, inr,
}
use zz_drop.Profile.{PlainProfile}
use zz_drop.Proto.{EntryKindFilter, RemoteListEntry}
use zz_drop.Agent.ListCache
use zz_drop.Agent.ListCache.{
  CacheKey, CacheEntry, CacheMap, ListCache, Hit, map_get, map_retain, map_remove, map_insert,
  make_key, key_eq,
}
use zz_drop.Agent.RemoteClient.{with_client}
use zz_drop.Agent.State.{
  AgentState, ListError, RemoteEntry, Env, max_list_results, effective_cap,
  get_active_profile_renewing_ttl,
}
use zz_drop.Agent.State.Listing.{
  shape, to_entry, matches_filter, store_listing, ask_provider, list_uncached, list_remote, path_of,
}

abbrev pub Capped : CacheKey × CacheEntry → Type 0
Capped (key, entry) = length entry.entries ≤ max_list_results

abbrev pub IsCapped : ListCache → Type 0
IsCapped c = All Capped c.map

pub length-shape :
    (kind : EntryKindFilter) (cap : ℕ) (raw : List RemoteEntry) → length (shape kind cap raw) ≤ cap
unfolding shape
length-shape kind cap raw =
    ground (arith, length-take cap (map to_entry (retain (matches_filter kind) raw)))

pub effective_cap-le : (n : ℕ) → (effective_cap n ≤ n) × (effective_cap n ≤ max_list_results)
unfolding effective_cap
effective_cap-le n = omega arith

map_retain-Capped :
    (p : CacheKey → Bool) (m : CacheMap) → All Capped m → All Capped (map_retain p m)
unfolding map_retain
map_retain-Capped p [] h = tt
map_retain-Capped p ((k, e) ∷ m) (h, hs) = elim (Bool-cases (p k)) [
  | inl t ↦ rw t (h, map_retain-Capped p m hs)
  | inr f ↦ rw f (map_retain-Capped p m hs)
]

map_get-Capped :
    (k : CacheKey) (m : CacheMap) (e : CacheEntry)
    → All Capped m
    → map_get k m ≡ some e
    → length e.entries ≤ max_list_results
unfolding map_get
map_get-Capped k [] e h found = cc
map_get-Capped k ((j, x) ∷ m) e (h, hs) found = ground (arith, map_get-Capped k m e hs)

get-IsCapped :
    (now : ℕ) (prefix : Option Text) (kind : EntryKindFilter) (c : ListCache)
    → IsCapped c
    → IsCapped (ListCache.get now prefix kind c).1
unfolding ListCache.get map_remove
get-IsCapped now prefix kind c h =
    let key = make_key prefix kind in
    ground (arith, map_retain-Capped (λ j. not (key_eq j key)) c.map)

hit-le :
    (now : ℕ) (prefix : Option Text) (kind : EntryKindFilter) (c : ListCache) (hit : Hit)
    → IsCapped c
    → (ListCache.get now prefix kind c).0 ≡ some hit
    → length hit.entries ≤ max_list_results
unfolding ListCache.get
hit-le now prefix kind c hit h found =
    let key = make_key prefix kind in
    elim (Option-cases (map_get key c.map)) [
      | inl missing ↦ ground arith
      | inr (e, there) ↦ ground (arith, map_get-Capped key c.map e h there)
    ]

put-IsCapped :
    (now : ℕ) (prefix : Option Text) (kind : EntryKindFilter) (entries : List RemoteListEntry)
    (truncated : Bool) (c : ListCache)
    → length entries ≤ max_list_results
    → IsCapped c
    → IsCapped (ListCache.put now prefix kind entries truncated c)
unfolding ListCache.put map_insert map_remove
put-IsCapped now prefix kind entries truncated c le h =
    (le, map_retain-Capped (λ j. not (key_eq j (make_key prefix kind))) c.map h)

pub drop_prefixes-Capped :
    (chain : List (Option Text)) (m : CacheMap)
    → All Capped m
    → All Capped (ListCache.drop_prefixes chain m)
unfolding ListCache.drop_prefixes
drop_prefixes-Capped [] m h = h
drop_prefixes-Capped (q ∷ chain) m h =
    drop_prefixes-Capped chain _
      (map_retain-Capped (λ (key : CacheKey). not (option_text_eq key.prefix q)) m h)

-- What every step of `list_remote` gives: a list within the cap, and a cache of such lists.
module _ {Client : Type 0} where
  abbrev pub Within : Result ListError Hit × AgentState Client → Type 0
  Within (ok hit, s) = (length hit.entries ≤ max_list_results) × IsCapped s.list_cache
  Within (err _, s) = IsCapped s.list_cache

  module _ (env : Env Client) (prefix : Option Text) (kind : EntryKindFilter) (n : ℕ) where
    store_listing-Within :
        (raw : List RemoteEntry) (s : AgentState Client)
        → IsCapped s.list_cache
        → Within (store_listing env prefix kind n raw s)
    unfolding store_listing
    store_listing-Within raw s h =
        let le : length (shape kind (effective_cap n) raw) ≤ max_list_results =
          omega (arith, length-shape kind (effective_cap n) raw, effective_cap-le n) in
        (le, put-IsCapped env.wall_after prefix kind _ _ s.list_cache le h)

    ask_provider-Within :
        (profile : PlainProfile) (s : AgentState Client)
        → IsCapped s.list_cache
        → Within (ask_provider env prefix kind n profile s)
    unfolding ask_provider
    ask_provider-Within profile s h =
        let (outcome, slot) = with_client env.build profile s.remote_clients in
        let s' : AgentState Client = record s { remote_clients = slot } in
        elim (Result-cases outcome) [
          | inr (e, failed) ↦ rw (failed, ask_provider, Within) h
          | inl (client, built) ↦ elim (Result-cases (env.answer client (path_of prefix))) [
            | inr (e, failed) ↦ rw (built, failed, ask_provider, Within) h
            | inl (raw, listed) ↦
                rw (built, listed, ask_provider, Within) (store_listing-Within raw s' h)
          ]
        ]

    list_uncached-Within :
        (s : AgentState Client) → IsCapped s.list_cache → Within (list_uncached env prefix kind n s)
    unfolding list_uncached get_active_profile_renewing_ttl
    list_uncached-Within s h =
        let s' = (get_active_profile_renewing_ttl env s).1 in
        elim (Option-cases (get_active_profile_renewing_ttl env s).0) [
          | inl locked ↦ rw (locked, list_uncached) h
          | inr (p, there) ↦ rw (there, list_uncached) (ask_provider-Within p s' h)
        ]

    -- If no cached listing is longer than the cap of 200 entries, then `list_remote` returns no
    -- longer one and caches no longer one, whatever number the client asked for and the provider
    -- sent.
    pub list_remote-Within :
        (s : AgentState Client) → IsCapped s.list_cache → Within (list_remote env prefix kind n s)
    unfolding list_remote
    list_remote-Within s h =
        let c = s.list_cache in
        elim (Option-cases (ListCache.get env.wall prefix kind c).0) [
          | inr (hit, cached) ↦
              rw (cached, list_remote, Within)
                (hit-le env.wall prefix kind c hit h cached, get-IsCapped env.wall prefix kind c h)
          | inl missing ↦
              rw (missing, list_remote, Within)
                (list_uncached-Within
                  (record s { list_cache = (ListCache.get env.wall prefix kind c).1 })
                  (get-IsCapped env.wall prefix kind c h))
        ]
