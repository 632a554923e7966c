-- ===== src/Agent/Server/Locking.antt =====
-- What a locked agent answers, and when an unlocked one locks itself.
use zz_drop.Prelude.{ℕ, ◌-◌, ◌<◌, ◌≤◌, ◌≡◌, refl, Bool, true, false, none, some, [], arith}
use zz_drop.Proto.{AgentRequest, AgentResponse}
use zz_drop.Agent.State.{
  AgentState, Env, check_ttl_and_lock, set_active_alias, lock, is_unlocked,
  get_active_profile_renewing_ttl, active_of,
}
use zz_drop.Agent.State.Consistent.{IsConsistent}
use zz_drop.Agent.State.Update.{update_profile, update_profile_set}
use zz_drop.Agent.State.Listing.{invalidate_remote_prefix}
use zz_drop.Agent.State.Listing.Session.{list_remote-locked, profile_set-list_remote}
use zz_drop.Agent.Server.{dispatch}

-- a response that carries something of the container or of the remote tree
abbrev pub reveals : AgentResponse → Bool
reveals (AgentResponse.profile _) = true
reveals (AgentResponse.remote_list _ _ _) = true
reveals _ = false

abbrev pub is_unlock : AgentRequest → Bool
is_unlock (AgentRequest.unlock _ _ _ _) = true
is_unlock _ = false

-- Nothing of a session is left.
pub record IsWiped {Client : Type 0} (s : AgentState Client) : Type 0 where
  pub profile_set : s.inner.profile_set ≡ none
  pub kek : s.inner.kek ≡ none
  pub active_alias : s.inner.active_alias ≡ none
  pub unlocked_at : s.inner.unlocked_at ≡ none
  pub mtime : s.inner.container_mtime_at_unlock ≡ none
  pub list_cache : s.list_cache.map ≡ []
  pub remote_clients : s.remote_clients ≡ none

module _ {Client : Type 0} (env : Env Client) where
  -- A consistent agent that is not unlocked is wiped.
  pub IsConsistent-IsWiped :
      (s : AgentState Client) → IsConsistent s → is_unlocked s ≡ false → IsWiped s
  IsConsistent-IsWiped s h locked = ground arith

  no_active :
      (s : AgentState Client)
      → IsConsistent s
      → is_unlocked s ≡ false
      → active_of s.inner.active_alias s.inner.profile_set ≡ none
  no_active s h locked = let wiped = IsConsistent-IsWiped s h locked in ground arith

  -- The look at the clock locks and wipes an agent whose time to live has passed since the last
  -- unlock or renewal.
  pub check_ttl_and_lock-IsWiped :
      (s : AgentState Client) (t : ℕ)
      → s.inner.unlocked_at ≡ some t
      → s.inner.ttl < env.instant - t
      → ((check_ttl_and_lock env s).0 ≡ true) × IsWiped (check_ttl_and_lock env s).1
  unfolding check_ttl_and_lock
  check_ttl_and_lock-IsWiped s t h late = ground arith

  -- The look at the clock changes nothing in an unlocked agent whose time to live has not passed.
  pub check_ttl_and_lock_self :
      (s : AgentState Client) (t : ℕ)
      → s.inner.unlocked_at ≡ some t
      → env.instant - t ≤ s.inner.ttl
      → check_ttl_and_lock env s ≡ (false, s)
  unfolding check_ttl_and_lock
  check_ttl_and_lock_self s t h early = ground arith

  -- `Lock` wipes the agent, whatever state it was in.
  pub lock-IsWiped : (s : AgentState Client) → IsWiped (dispatch env AgentRequest.lock s).1
  unfolding dispatch lock
  lock-IsWiped s = ground arith

  -- A consistent agent that is locked answers no request but `Unlock` with a profile or a listing,
  -- and is still locked behind it.
  pub dispatch-locked :
      (request : AgentRequest) (s : AgentState Client)
      → IsConsistent s
      → is_unlocked s ≡ false
      → is_unlock request ≡ false
      → (reveals (dispatch env request s).0 ≡ false)
        × (is_unlocked (dispatch env request s).1 ≡ false)
  unfolding dispatch
  dispatch-locked AgentRequest.ping s h locked other = (refl, locked)
  dispatch-locked (AgentRequest.unlock _ _ _ _) s h locked other = cc
  dispatch-locked AgentRequest.get_profile s h locked other =
      let none_active = no_active s h locked in
      unfold get_active_profile_renewing_ttl in ground (arith, none_active)
  dispatch-locked (AgentRequest.update_profile p) s h locked other =
      unfold update_profile in ground arith
  dispatch-locked (AgentRequest.update_profile_set set) s h locked other =
      unfold update_profile_set in ground arith
  dispatch-locked (AgentRequest.set_active_alias alias) s h locked other =
      unfold set_active_alias in ground arith
  dispatch-locked (AgentRequest.list_remote prefix kind n) s h locked other =
      let wiped = IsConsistent-IsWiped s h locked in
      (
        rw (list_remote-locked env prefix kind n s h wiped.profile_set),
        rw (profile_set-list_remote env prefix kind n s) locked,
      )
  dispatch-locked (AgentRequest.invalidate_remote prefix) s h locked other =
      (refl, unfold invalidate_remote_prefix in locked)
  dispatch-locked AgentRequest.lock s h locked other = (refl, unfold lock in refl)
  dispatch-locked AgentRequest.exit s h locked other = (refl, locked)
  dispatch-locked AgentRequest.status s h locked other = (refl, locked)
