-- ===== src/Agent/State/Listing/Repeat.antt =====
-- Listing twice: what the first listing leaves in the cache.
use zz_drop.Prelude.{
  ℕ, ◌-◌, ◌≤◌, ◌≡◌, refl, Text, Option, some, List, arith, Result, ok, err, Option-cases,
  Result-cases, inl, inr,
}
use zz_drop.Profile.{PlainProfile}
use zz_drop.Proto.{EntryKindFilter}
use zz_drop.Agent.ListCache
use zz_drop.Agent.ListCache.{ListCache, Hit}
use zz_drop.Agent.ListCache.Lookup.{get-put_self, get-get, ttl-get}
use zz_drop.Agent.RemoteClient.{with_client}
use zz_drop.Agent.State.{AgentState, ListError, RemoteEntry, Env, get_active_profile_renewing_ttl}
use zz_drop.Agent.State.Listing.{store_listing, ask_provider, list_uncached, list_remote, path_of}

module _ {Client : Type 0} where
  module _ (env : Env Client) (prefix : Option Text) (kind : EntryKindFilter) (n : ℕ) where
    -- a lookup finds the same entries and flag, with its own time of fetching
    SameHit : Hit → Option Hit → Type 0
    SameHit hit found =
        (h : Hit) × (found ≡ some h) × (h.entries ≡ hit.entries) × (h.truncated ≡ hit.truncated)

    -- the cache after a successful listing has it, for as long as it is fresh
    Cached : Result ListError Hit × AgentState Client → ℕ → Type 0
    Cached (ok hit, s) later =
        later - hit.fetched_at ≤ s.list_cache.ttl
        → later - env.wall_after ≤ s.list_cache.ttl
        → SameHit hit (ListCache.get later prefix kind s.list_cache).0
    Cached (err e, s) later = Unit {0}

    store_listing-Cached :
        (later : ℕ) (raw : List RemoteEntry) (s : AgentState Client)
        → Cached (store_listing env prefix kind n raw s) later
    unfolding Cached SameHit store_listing ListCache.put
    store_listing-Cached later raw s _ fresh =
        (_, get-put_self s.list_cache env.wall_after later prefix kind _ _ fresh, refl, refl)

    ask_provider-Cached :
        (later : ℕ) (profile : PlainProfile) (s : AgentState Client)
        → Cached (ask_provider env prefix kind n profile s) later
    unfolding ask_provider
    ask_provider-Cached later profile s =
        let (outcome, slot) = with_client env.build profile s.remote_clients in
        let s' : AgentState Client = record s { remote_clients = slot } in
        elim (Result-cases outcome) [
          | inr (e, failed) ↦ unfold Cached in rw (failed, ask_provider, Cached) tt
          | inl (client, built) ↦ elim (Result-cases (env.answer client (path_of prefix))) [
            | inr (e, failed) ↦ unfold Cached in rw (built, failed, ask_provider, Cached) tt
            | inl (raw, listed) ↦
                rw (built, listed, ask_provider) (store_listing-Cached later raw s')
          ]
        ]

    list_uncached-Cached :
        (later : ℕ) (s : AgentState Client) → Cached (list_uncached env prefix kind n s) later
    unfolding list_uncached
    list_uncached-Cached later s =
        let s' = (get_active_profile_renewing_ttl env s).1 in
        elim (Option-cases (get_active_profile_renewing_ttl env s).0) [
          | inl locked ↦ unfold Cached in rw (locked, list_uncached, Cached) tt
          | inr (p, there) ↦ rw (there, list_uncached) (ask_provider-Cached later p s')
        ]

    list_remote-Cached :
        (later : ℕ) (s : AgentState Client) → Cached (list_remote env prefix kind n s) later
    unfolding list_remote
    list_remote-Cached later s =
        let c = s.list_cache in
        elim (Option-cases (ListCache.get env.wall prefix kind c).0) [
          | inr (hit, cached) ↦
              unfold Cached in
              rw (cached, list_remote, Cached, ttl-get)
                (λ fresh _.
                  unfold SameHit in
                  (hit, get-get c env.wall later prefix kind hit cached fresh, refl, refl))
          | inl missing ↦ rw (missing, list_remote) (list_uncached-Cached later _)
        ]

    ttl-list_remote :
        (s : AgentState Client)
        → (list_remote env prefix kind n s).1.list_cache.ttl ≡ s.list_cache.ttl
    unfolding list_remote list_uncached ask_provider store_listing get_active_profile_renewing_ttl
        ListCache.put
    ttl-list_remote s = ground (arith, ttl-get env.wall prefix kind s.list_cache)

    Cached-ok :
        (r : Result ListError Hit × AgentState Client) (hit : Hit) (later : ℕ)
        → Cached r later
        → r.0 ≡ ok hit
        → later - hit.fetched_at ≤ r.1.list_cache.ttl
        → later - env.wall_after ≤ r.1.list_cache.ttl
        → SameHit hit (ListCache.get later prefix kind r.1.list_cache).0
    unfolding Cached SameHit
    Cached-ok (ok h, s) hit later c e fresh stored = ground arith
    Cached-ok (err x, s) hit later c e fresh stored = cc

    -- What a successful listing returned is found in the cache that it leaves.
    pub list_remote-cached :
        (later : ℕ) (s : AgentState Client) (hit : Hit)
        → (list_remote env prefix kind n s).0 ≡ ok hit
        → later - hit.fetched_at ≤ s.list_cache.ttl
        → later - env.wall_after ≤ s.list_cache.ttl
        → (h : Hit) × ((ListCache.get later prefix kind
              (list_remote env prefix kind n s).1.list_cache).0
            ≡ some h)
          × (h.entries ≡ hit.entries)
          × (h.truncated ≡ hit.truncated)
    unfolding SameHit
    list_remote-cached later s hit h fresh stored =
        Cached-ok (list_remote env prefix kind n s) hit later (list_remote-Cached later s) h
          (rw ttl-list_remote fresh) (rw ttl-list_remote stored)

    -- A listing that has just been returned is returned again, with the same entries and the same
    -- flag, to every request for the same prefix and filter within the time to live of the returned
    -- and of the stored listing, whatever the provider would answer by then and however many entries
    -- that request asks for.
    pub list_remote-list_remote :
        (later : Env Client) (m : ℕ) (s : AgentState Client) (hit : Hit)
        → (list_remote env prefix kind n s).0 ≡ ok hit
        → later.wall - hit.fetched_at ≤ s.list_cache.ttl
        → later.wall - env.wall_after ≤ s.list_cache.ttl
        → (h : Hit) × ((list_remote later prefix kind m (list_remote env prefix kind n s).1).0
            ≡ ok h)
          × (h.entries ≡ hit.entries)
          × (h.truncated ≡ hit.truncated)
    unfolding list_remote
    list_remote-list_remote later m s hit h fresh stored =
        let (found, there, entries, truncated) =
          list_remote-cached later.wall s hit h fresh stored in
        (found, rw (there, list_remote), entries, truncated)
