-- ===== src/Agent/Server/Sessions.antt =====
-- Sequences of requests: what a client that unlocked, switched or updated gets back.
use zz_drop.Prelude.{
  ℕ, List, All, ◌-◌, ◌≤◌, ◌∙◌, refl, ◌≡◌, Text, true, false, Option, none, some, [], ok, arith,
  Option-cases, inl, inr,
}
use zz_drop.Profile.{PlainProfile}
use zz_drop.Profile.Container.{ProfileSet, contains_alias, find_by_alias, find_by_alias_mut}
use zz_drop.Profile.Container.Lookup.{
  find_by_alias-alias, is_some-find_by_alias, find_by_alias_mut-some, find_by_alias_mut-find,
}
use zz_drop.Proto.{AgentRequest, AgentResponse, AgentError, KekPayload, EntryKindFilter}
use zz_drop.Agent.ListCache
use zz_drop.Agent.State.{
  AgentState, Env, unlock, set_active_alias, get_active_profile_renewing_ttl, is_unlocked,
  drop_completion_caches,
}
use zz_drop.Agent.State.Consistent.{
  persist-SameSession, update_profile-found, update_profile_set-open,
}
use zz_drop.Agent.State.Update.{replaced_profile, replaced_set}
use zz_drop.Agent.State.Listing.{list_remote}
use zz_drop.Agent.State.Listing.Repeat.{list_remote-cached}
use zz_drop.Agent.Server.Requests.{dispatch_all, IsQuiet, SameContainer, dispatch_all-SameContainer}
use zz_drop.Agent.Server.{dispatch, profile_response}

module _ {Client : Type 0} where
  -- the response to `GetProfile` in a state
  abbrev pub profile_in : Env Client → AgentState Client → AgentResponse
  profile_in env s = (dispatch env AgentRequest.get_profile s).0

  -- `Unlock` with an alias of the container succeeds, and then `GetProfile` returns the inner profile
  -- of that alias.
  pub get_profile-unlock :
      (env later : Env Client) (set : ProfileSet) (kek : KekPayload) (alias : Text) (ttl : Option ℕ)
      (s : AgentState Client)
      → contains_alias set alias ≡ true
      → ((dispatch env (AgentRequest.unlock set kek alias ttl) s).0 ≡ AgentResponse.unlocked)
        × ((p : PlainProfile) × (profile_in later
                (dispatch env (AgentRequest.unlock set kek alias ttl) s).1
              ≡ AgentResponse.profile p)
            × (find_by_alias set alias ≡ some p)
            × (p.alias ≡ alias))
  unfolding dispatch get_active_profile_renewing_ttl unlock
  get_profile-unlock env later set kek alias ttl s there =
      elim (Option-cases (find_by_alias set alias)) [
        | inl none_found ↦ absurd (ground (arith, is_some-find_by_alias set alias))
        | inr (p, found) ↦
            (ground arith, (p, ground arith, found, find_by_alias-alias set alias p found))
      ]

  -- `Unlock` with any other alias is refused, and the agent is as it was.
  pub unlock-missing :
      (env : Env Client) (set : ProfileSet) (kek : KekPayload) (alias : Text) (ttl : Option ℕ)
      (s : AgentState Client)
      → contains_alias set alias ≡ false
      → dispatch env (AgentRequest.unlock set kek alias ttl) s
        ≡ (AgentResponse.error AgentError.alias_not_found, s)
  unfolding dispatch
  unlock-missing env set kek alias ttl s missing = rw missing

  -- An unlocked agent that is told to switch to an alias of its container says so, answers the next
  -- `GetProfile` with that inner profile, and has dropped both caches.
  pub get_profile-set_active_alias :
      (env later : Env Client) (alias : Text) (set : ProfileSet) (s : AgentState Client)
      → s.inner.profile_set ≡ some set
      → contains_alias set alias ≡ true
      → ((dispatch env (AgentRequest.set_active_alias alias) s).0 ≡ AgentResponse.updated)
        × (profile_in later (dispatch env (AgentRequest.set_active_alias alias) s).1
            ≡ profile_response (find_by_alias set alias))
        × ((dispatch env (AgentRequest.set_active_alias alias) s).1.list_cache.map ≡ [])
        × ((dispatch env (AgentRequest.set_active_alias alias) s).1.remote_clients ≡ none)
  unfolding dispatch set_active_alias get_active_profile_renewing_ttl
  get_profile-set_active_alias env later alias set s open_ there = ground arith

  -- `Unlock` leaves the cache of listings.
  cached-unlock :
      (env later : Env Client) (set : ProfileSet) (kek : KekPayload) (alias : Text) (ttl : Option ℕ)
      (prefix : Option Text) (kind : EntryKindFilter) (n : ℕ) (hit : ListCache.Hit)
      (s : AgentState Client)
      → (ListCache.get later.wall prefix kind s.list_cache).0 ≡ some hit
      → (list_remote later prefix kind n
          (dispatch env (AgentRequest.unlock set kek alias ttl) s).1).0
        ≡ ok hit
  unfolding dispatch list_remote unlock
  cached-unlock env later set kek alias ttl prefix kind n hit s cached = ground arith

  served-update_profile :
      (env later : Env Client) (profile : PlainProfile) (set : ProfileSet) (s : AgentState Client)
      → s.inner.profile_set ≡ some set
      → s.inner.active_alias ≡ some profile.alias
      → contains_alias set profile.alias ≡ true
      → profile_in later (dispatch env (AgentRequest.update_profile profile) s).1
        ≡ AgentResponse.profile profile
  unfolding dispatch get_active_profile_renewing_ttl
  served-update_profile env later profile set s open_ active there =
      elim (Option-cases (find_by_alias_mut set profile.alias profile)) [
        | inl missing ↦ absurd (cc (missing, find_by_alias_mut-some set profile there))
        | inr (t, found) ↦
            let same = persist-SameSession env t (replaced_profile profile t s) in
            let after = find_by_alias_mut-find set t profile found in
            rw
              (
                update_profile-found env profile set t s open_ found,
                same.active_alias,
                same.profile_set,
              )
              (unfold drop_completion_caches in ground (arith, after))
      ]

  same-profile_in :
      (later : Env Client) (s t : AgentState Client)
      → SameContainer s t
      → profile_in later t ≡ profile_in later s
  unfolding dispatch get_active_profile_renewing_ttl
  same-profile_in later s t (set, alias) = rw (set, alias) refl

  -- An update of the active inner profile is what `GetProfile` returns after it, also if it could not
  -- be written to disk and the update was answered with an error, and also behind any requests of the
  -- same connection that are not to lock, unlock, switch, update or exit.
  pub get_profile-update_profile :
      (update later : Env Client) (env : ℕ → Env Client) (i : ℕ) (profile : PlainProfile)
      (set : ProfileSet) (requests : List AgentRequest) (s : AgentState Client)
      → s.inner.profile_set ≡ some set
      → s.inner.active_alias ≡ some profile.alias
      → contains_alias set profile.alias ≡ true
      → All IsQuiet requests
      → profile_in later
          (dispatch_all env i requests
            (dispatch update (AgentRequest.update_profile profile) s).1).1
        ≡ AgentResponse.profile profile
  get_profile-update_profile update later env i profile set requests s open_ active there quiet =
      let updated = (dispatch update (AgentRequest.update_profile profile) s).1 in
      same-profile_in later updated _ (dispatch_all-SameContainer env i requests updated quiet)
      ∙ served-update_profile update later profile set s open_ active there

  -- An unlocked agent whose container is replaced by one without the active alias answers
  -- `GetProfile` as if it were locked, though it still counts as unlocked.
  pub get_profile-update_profile_set :
      (env later : Env Client) (old set : ProfileSet) (alias : Text) (s : AgentState Client)
      → s.inner.profile_set ≡ some old
      → s.inner.active_alias ≡ some alias
      → contains_alias set alias ≡ false
      → (profile_in later (dispatch env (AgentRequest.update_profile_set set) s).1
          ≡ AgentResponse.error AgentError.not_unlocked)
        × (is_unlocked (dispatch env (AgentRequest.update_profile_set set) s).1 ≡ true)
  unfolding dispatch get_active_profile_renewing_ttl
  get_profile-update_profile_set env later old set alias s open_ active missing =
      let same = persist-SameSession env set (replaced_set env set s) in
      rw (update_profile_set-open env old set s open_, same.active_alias, same.profile_set)
        (unfold drop_completion_caches in ground arith)

  -- What a successful listing returned in one session is returned in the next, opened by another
  -- `Unlock` without a `Lock` between them, whichever container and alias that unlocks and whatever the
  -- provider would answer by then, to a request for the same prefix and filter within the time to live
  -- of the returned and of the stored listing.
  pub list_remote-unlock :
      (env between later : Env Client) (set : ProfileSet) (kek : KekPayload) (alias : Text)
      (ttl : Option ℕ) (prefix : Option Text) (kind : EntryKindFilter) (n m : ℕ)
      (s : AgentState Client) (hit : ListCache.Hit)
      → (list_remote env prefix kind n s).0 ≡ ok hit
      → later.wall - hit.fetched_at ≤ s.list_cache.ttl
      → later.wall - env.wall_after ≤ s.list_cache.ttl
      → (h : ListCache.Hit) × ((list_remote later prefix kind m
            (dispatch between
              (AgentRequest.unlock set kek alias ttl)
              (list_remote env prefix kind n s).1).1).0
          ≡ ok h)
        × (h.entries ≡ hit.entries)
        × (h.truncated ≡ hit.truncated)
  list_remote-unlock env between later set kek alias ttl prefix kind n m s hit h fresh stored =
      let (found, there, entries, truncated) =
        list_remote-cached env prefix kind n later.wall s hit h fresh stored in
      (
        found,
        cached-unlock between later set kek alias ttl prefix kind m found
            (list_remote env prefix kind n s).1 there,
        entries,
        truncated,
      )
