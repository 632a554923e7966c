-- ===== src/Agent/Server/Requests.antt =====
-- The requests of one connection, one after the other, as the loop of `handle_connection` makes them.
use zz_drop.Prelude.{ℕ, suc, ◌≡◌, refl, ◌∙◌, Bool, true, false, List, [], ◌∷◌, All, arith}
use zz_drop.Proto.{AgentRequest, AgentResponse}
use zz_drop.Agent.State.{AgentState, Env, touch, get_active_profile_renewing_ttl}
use zz_drop.Agent.State.Listing.{
  list_remote, list_uncached, ask_provider, store_listing, invalidate_remote_prefix,
}
use zz_drop.Agent.Server.{dispatch}

abbrev pub is_quiet : AgentRequest → Bool
is_quiet AgentRequest.ping = true
is_quiet AgentRequest.get_profile = true
is_quiet (AgentRequest.list_remote _ _ _) = true
is_quiet (AgentRequest.invalidate_remote _) = true
is_quiet AgentRequest.status = true
is_quiet _ = false

abbrev pub IsQuiet : AgentRequest → Type 0
IsQuiet request = is_quiet request ≡ true

module _ {Client : Type 0} where
  -- Request number `i` meets `env i`.
  unfoldable pub dispatch_all :
      (ℕ → Env Client)
      → ℕ
      → List AgentRequest
      → AgentState Client
      → List AgentResponse × AgentState Client
  dispatch_all env i [] s = ([], s)
  dispatch_all env i (request ∷ requests) s =
      let (response, s') = dispatch (env i) request (touch (env i) s) in
      let (responses, s'') = dispatch_all env (suc i) requests s' in (response ∷ responses, s'')

  abbrev pub SameContainer : AgentState Client → AgentState Client → Type 0
  SameContainer s t =
      (t.inner.profile_set ≡ s.inner.profile_set) × (t.inner.active_alias ≡ s.inner.active_alias)

  dispatch-SameContainer :
      (env : Env Client) (request : AgentRequest) (s : AgentState Client)
      → IsQuiet request
      → SameContainer s (dispatch env request (touch env s)).1
  unfolding dispatch touch
  dispatch-SameContainer env AgentRequest.ping s quiet = (refl, refl)
  dispatch-SameContainer env AgentRequest.get_profile s quiet =
      unfold get_active_profile_renewing_ttl in ground arith
  dispatch-SameContainer env (AgentRequest.list_remote prefix kind n) s quiet =
      unfold list_remote list_uncached ask_provider store_listing get_active_profile_renewing_ttl in
      ground arith
  dispatch-SameContainer env (AgentRequest.invalidate_remote prefix) s quiet =
      unfold invalidate_remote_prefix in (refl, refl)
  dispatch-SameContainer env AgentRequest.status s quiet = (refl, refl)
  dispatch-SameContainer env (AgentRequest.unlock _ _ _ _) s quiet = cc
  dispatch-SameContainer env (AgentRequest.update_profile _) s quiet = cc
  dispatch-SameContainer env (AgentRequest.update_profile_set _) s quiet = cc
  dispatch-SameContainer env (AgentRequest.set_active_alias _) s quiet = cc
  dispatch-SameContainer env AgentRequest.lock s quiet = cc
  dispatch-SameContainer env AgentRequest.exit s quiet = cc

  pub dispatch_all-SameContainer :
      (env : ℕ → Env Client) (i : ℕ) (requests : List AgentRequest) (s : AgentState Client)
      → All IsQuiet requests
      → SameContainer s (dispatch_all env i requests s).1
  unfolding dispatch_all
  dispatch_all-SameContainer env i [] s quiet = (refl, refl)
  dispatch_all-SameContainer env i (request ∷ requests) s (quiet, rest) =
      let (set, alias) = dispatch-SameContainer (env i) request s quiet in
      let (set', alias') =
        dispatch_all-SameContainer env (suc i) requests
          (dispatch (env i) request (touch (env i) s)).1 rest in
      (set' ∙ set, alias' ∙ alias)
