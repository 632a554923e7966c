-- ===== src/Agent/State/Listing/Session.antt =====
-- Listing against the session: what it changes, what a locked agent answers, and what is cached.
use zz_drop.Prelude.{
  ℕ, ◌≤◌, ◌≡◌, refl, Text, Option, none, some, List, [], ◌∷◌, length, length-map, map, retain,
  arith, err, Option-cases, inl, inr,
}
use zz_drop.Profile.{PlainProfile}
use zz_drop.Profile.Container.{ProfileSet}
use zz_drop.Proto.{EntryKindFilter}
use zz_drop.Agent.ListCache
use zz_drop.Agent.ListCache.{ListCache, Hit}
use zz_drop.Agent.State.{
  AgentState, ListError, RemoteEntry, Env, get_active_profile_renewing_ttl, active_of,
}
use zz_drop.Agent.State.Consistent.{IsConsistent, AliasValid, get_active_profile-IsConsistent}
use zz_drop.Agent.State.Listing.{
  shape, to_entry, matches_filter, store_listing, ask_provider, list_uncached, list_remote,
  invalidate_remote_prefix,
}

-- A listing that fits is not shortened.
pub shape-eq :
    (kind : EntryKindFilter) (cap : ℕ) (raw : List RemoteEntry)
    → length (retain (matches_filter kind) raw) ≤ cap
    → shape kind cap raw ≡ map to_entry (retain (matches_filter kind) raw)
unfolding shape
shape-eq kind cap raw h =
    let kept = retain (matches_filter kind) raw in ground (arith, length-map kept to_entry)

pub locked-active_of : (alias : Option Text) → AliasValid alias none → active_of alias none ≡ none
locked-active_of none h = refl
locked-active_of (some a) h = absurd h

active_of-open :
    (alias : Option Text) (set : Option ProfileSet) (p : PlainProfile)
    → active_of alias set ≡ some p
    → (opened : ProfileSet) × (set ≡ some opened)
active_of-open none set p h = cc
active_of-open (some a) none p h = cc
active_of-open (some a) (some set) p h = (set, refl)

pub get-empty :
    (now : ℕ) (prefix : Option Text) (kind : EntryKindFilter) (c : ListCache)
    → c.map ≡ []
    → ListCache.get now prefix kind c ≡ (none, c)
unfolding ListCache.get ListCache.map_get
get-empty now prefix kind c e = ground arith

drop_prefixes-empty : (chain : List (Option Text)) → ListCache.drop_prefixes chain [] ≡ []
unfolding ListCache.drop_prefixes ListCache.map_retain
drop_prefixes-empty [] = refl
drop_prefixes-empty (_ ∷ chain) = drop_prefixes-empty chain

invalidate-empty :
    (target : Option Text) (c : ListCache)
    → c.map ≡ []
    → (ListCache.invalidate_prefix_to_root target c).map ≡ []
unfolding ListCache.invalidate_prefix_to_root
invalidate-empty target c e = rw e (drop_prefixes-empty (ListCache.walk_to_root target))

module _ {Client : Type 0} where
  same_inner-IsConsistent :
      (s t : AgentState Client) (set : ProfileSet)
      → t.inner ≡ s.inner
      → s.inner.profile_set ≡ some set
      → IsConsistent s
      → IsConsistent t
  same_inner-IsConsistent s t set same open_ h = ground arith

  module _ (env : Env Client) (prefix : Option Text) (kind : EntryKindFilter) (n : ℕ) where
    inner-ask_provider :
        (profile : PlainProfile) (s : AgentState Client)
        → (ask_provider env prefix kind n profile s).1.inner ≡ s.inner
    unfolding ask_provider store_listing
    inner-ask_provider profile s = ground arith

    list_uncached-IsConsistent :
        (s : AgentState Client)
        → IsConsistent s
        → IsConsistent (list_uncached env prefix kind n s).1
    unfolding list_uncached
    list_uncached-IsConsistent s h =
        let s' = (get_active_profile_renewing_ttl env s).1 in
        let kept = get_active_profile-IsConsistent env s h in
        elim (Option-cases (get_active_profile_renewing_ttl env s).0) [
          | inl missing ↦ rw (missing, list_uncached) kept
          | inr (p, there) ↦
              let (set, open_) =
                active_of-open s.inner.active_alias s.inner.profile_set p
                  (unfold get_active_profile_renewing_ttl in there) in
              rw (there, list_uncached)
                (same_inner-IsConsistent s' _ set (inner-ask_provider p s')
                  (unfold get_active_profile_renewing_ttl in open_) kept)
        ]

    cached-IsConsistent :
        (s : AgentState Client)
        → IsConsistent s
        → IsConsistent
            (record s { list_cache = (ListCache.get env.wall prefix kind s.list_cache).1 })
    cached-IsConsistent s h = record {
      kek_iff = h.kek_iff;
      timer_iff = h.timer_iff;
      alias_valid = h.alias_valid;
      locked_mtime = h.locked_mtime;
      locked_cache = λ e.
          rw (get-empty env.wall prefix kind s.list_cache (h.locked_cache e)) (h.locked_cache e);
      locked_client = h.locked_client;
    }

    pub list_remote-IsConsistent :
        (s : AgentState Client) → IsConsistent s → IsConsistent (list_remote env prefix kind n s).1
    unfolding list_remote
    list_remote-IsConsistent s h =
        elim (Option-cases (ListCache.get env.wall prefix kind s.list_cache).0) [
          | inr (hit, cached) ↦ rw (cached, list_remote) (cached-IsConsistent s h)
          | inl missing ↦
              rw (missing, list_remote) (list_uncached-IsConsistent _ (cached-IsConsistent s h))
        ]

    pub profile_set-list_remote :
        (s : AgentState Client)
        → (list_remote env prefix kind n s).1.inner.profile_set ≡ s.inner.profile_set
    unfolding list_remote list_uncached ask_provider store_listing get_active_profile_renewing_ttl
    profile_set-list_remote s = ground arith

    -- A consistent agent that is locked answers every listing with `NotUnlocked`.
    pub list_remote-locked :
        (s : AgentState Client)
        → IsConsistent s
        → s.inner.profile_set ≡ none
        → (list_remote env prefix kind n s).0 ≡ err ListError.not_unlocked
    unfolding list_remote list_uncached get_active_profile_renewing_ttl
    list_remote-locked s h locked =
        let no_profile : active_of s.inner.active_alias s.inner.profile_set ≡ none =
          rw locked (locked-active_of s.inner.active_alias (rw locked at h.alias_valid)) in
        ground
          (arith, get-empty env.wall prefix kind s.list_cache (h.locked_cache locked), no_profile)

    -- A listing that fails, for want of a session or by the provider, puts nothing in the cache.
    pub list_remote-err :
        (s : AgentState Client) (e : ListError)
        → (list_remote env prefix kind n s).0 ≡ err e
        → (list_remote env prefix kind n s).1.list_cache
          ≡ (ListCache.get env.wall prefix kind s.list_cache).1
    unfolding list_remote list_uncached ask_provider store_listing get_active_profile_renewing_ttl
    list_remote-err s e h = ground arith

  pub invalidate_remote_prefix-IsConsistent :
      (prefix : Option Text) (s : AgentState Client)
      → IsConsistent s
      → IsConsistent (invalidate_remote_prefix prefix s)
  unfolding invalidate_remote_prefix
  invalidate_remote_prefix-IsConsistent prefix s h = record {
    kek_iff = h.kek_iff;
    timer_iff = h.timer_iff;
    alias_valid = h.alias_valid;
    locked_mtime = h.locked_mtime;
    locked_cache = λ e. invalidate-empty prefix s.list_cache (h.locked_cache e);
    locked_client = h.locked_client;
  }
