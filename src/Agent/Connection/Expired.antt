-- ===== src/Agent/Connection/Expired.antt =====
-- The clients that come when the time to live has passed.
use zz_drop.Prelude.{ℕ, suc, ◌-◌, ◌<◌, ◌≡◌, false, some, List, [], ◌∷◌, All, arith}
use zz_drop.Proto.{AgentRequest, AgentResponse}
use zz_drop.Agent.State.{AgentState, Env, touch, is_unlocked, check_ttl_and_lock}
use zz_drop.Agent.State.Consistent.{
  IsConsistent, touch-IsConsistent, check_ttl_and_lock-IsConsistent,
}
use zz_drop.Agent.Server.{dispatch}
use zz_drop.Agent.Server.Locking.{reveals, is_unlock, check_ttl_and_lock-IsWiped, dispatch-locked}
use zz_drop.Agent.Server.Requests.{dispatch_all}
use zz_drop.Agent.Connection.Reachable.{dispatch-IsConsistent}

abbrev pub RevealsNothing : AgentResponse → Type 0
RevealsNothing response = reveals response ≡ false

abbrev pub IsOther : AgentRequest → Type 0
IsOther request = is_unlock request ≡ false

module _ {Client : Type 0} where
  dispatch_all-locked :
      (env : ℕ → Env Client) (i : ℕ) (requests : List AgentRequest) (s : AgentState Client)
      → IsConsistent s
      → is_unlocked s ≡ false
      → All IsOther requests
      → All RevealsNothing (dispatch_all env i requests s).0
        × (is_unlocked (dispatch_all env i requests s).1 ≡ false)
  unfolding dispatch_all
  dispatch_all-locked env i [] s h locked other = (tt, locked)
  dispatch_all-locked env i (request ∷ requests) s h locked (other, others) =
      let s₁ = touch (env i) s in
      let touched = touch-IsConsistent (env i) s h in
      let still : is_unlocked s₁ ≡ false = unfold touch in locked in
      let (nothing, closed) = dispatch-locked (env i) request s₁ touched still other in
      let (none_later, closed_later) =
        dispatch_all-locked env (suc i) requests (dispatch (env i) request s₁).1
          (dispatch-IsConsistent (env i) request s₁ touched) closed others in
      ((nothing, none_later), closed_later)

  -- When the accept loop looks at the clock after the time to live of a consistent agent has passed,
  -- the next client gets no profile and no listing, whatever it asks for, and leaves the agent locked,
  -- unless it sends an `Unlock`.
  pub dispatch_all-expired :
      (look : Env Client) (env : ℕ → Env Client) (i : ℕ) (requests : List AgentRequest)
      (s : AgentState Client) (t : ℕ)
      → IsConsistent s
      → s.inner.unlocked_at ≡ some t
      → s.inner.ttl < look.instant - t
      → All IsOther requests
      → All RevealsNothing (dispatch_all env i requests (check_ttl_and_lock look s).1).0
        × (is_unlocked (dispatch_all env i requests (check_ttl_and_lock look s).1).1 ≡ false)
  dispatch_all-expired look env i requests s t h unlocked late others =
      let (_, wiped) = check_ttl_and_lock-IsWiped look s t unlocked late in
      dispatch_all-locked env i requests _ (check_ttl_and_lock-IsConsistent look s h)
        (ground (arith, wiped.profile_set)) others
