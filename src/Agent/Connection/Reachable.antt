-- ===== src/Agent/Connection/Reachable.antt =====
-- The states that the agent of src/agent reaches.
pub mod Capped
use zz_drop.Prelude.{
  ℕ, zero, suc, ◌≡◌, refl, Option, none, some, List, [], ◌∷◌, Result, ok, err, Bool, true, false,
  Bool-cases, inl, inr, arith, Option-cases, Result-cases, not, Text, Bytes, All,
}
use zz_drop.Profile.Container.{ProfileSet, contains_alias}
use zz_drop.Proto.{AgentRequest, into_kek}
use zz_drop.Proto.Framing.{Reader, Writer, read_frame, decode_request_body}
use zz_drop.Agent.Disk.{Disk}
use zz_drop.Agent.State.{AgentState, Env, new, touch, check_ttl_and_lock}
use zz_drop.Agent.State.Consistent.{
  IsConsistent, new-IsConsistent, unlock-IsConsistent, lock-IsConsistent, touch-IsConsistent,
  get_active_profile-IsConsistent, set_active_alias-IsConsistent, check_ttl_and_lock-IsConsistent,
  update_profile-IsConsistent, update_profile_set-IsConsistent,
}
use zz_drop.Agent.State.Listing.Session.{
  list_remote-IsConsistent, invalidate_remote_prefix-IsConsistent,
}
use zz_drop.Agent.State.Listing.Bounds.{IsCapped}
use zz_drop.Agent.Connection.Reachable.Capped.{Bounded, Bounded-Kept}
use zz_drop.Agent.Connection.Invariant.{Kept, run-keeps}
use zz_drop.Agent.Server.{dispatch, secs_option}
use zz_drop.Agent.Connection.{
  Setting, Ended, Connection, Turn, answer_request, serve, handle_connection, turn, run,
}

module _ {Client : Type 0} where
  pub dispatch-IsConsistent :
      (env : Env Client) (request : AgentRequest) (s : AgentState Client)
      → IsConsistent s
      → IsConsistent (dispatch env request s).1
  unfolding dispatch
  dispatch-IsConsistent env AgentRequest.ping s h = h
  dispatch-IsConsistent env (AgentRequest.unlock set kek alias ttl) s h =
      elim (Bool-cases (contains_alias set alias)) [
        | inl there ↦
            rw there (unlock-IsConsistent env set (into_kek kek) alias (secs_option ttl) s there)
        | inr missing ↦ rw missing h
      ]
  dispatch-IsConsistent env AgentRequest.get_profile s h = get_active_profile-IsConsistent env s h
  dispatch-IsConsistent env (AgentRequest.update_profile p) s h =
      update_profile-IsConsistent env p s h
  dispatch-IsConsistent env (AgentRequest.update_profile_set set) s h =
      update_profile_set-IsConsistent env set s h
  dispatch-IsConsistent env (AgentRequest.set_active_alias alias) s h =
      set_active_alias-IsConsistent env alias s h
  dispatch-IsConsistent env (AgentRequest.list_remote prefix kind n) s h =
      list_remote-IsConsistent env prefix kind n s h
  dispatch-IsConsistent env (AgentRequest.invalidate_remote prefix) s h =
      invalidate_remote_prefix-IsConsistent prefix s h
  dispatch-IsConsistent env AgentRequest.lock s h = lock-IsConsistent env s
  dispatch-IsConsistent env AgentRequest.exit s h = h
  dispatch-IsConsistent env AgentRequest.status s h = h

  IsConsistent-Kept : Kept {Client = Client} IsConsistent
  IsConsistent-Kept = record {
    touch_keeps = touch-IsConsistent;
    dispatch_keeps = dispatch-IsConsistent;
    check_keeps = check_ttl_and_lock-IsConsistent;
    exit_keeps = λ s h. ground arith;
  }

  -- Whatever connections come and whatever they send, whatever time passes and the disk and the
  -- provider answer, an agent that was started locked is in a consistent state after every turn of
  -- its accept loop, and no listing that it keeps is longer than the cap.
  pub run-IsConsistent :
      (setting : Setting) (now ttl idle_exit_ns : ℕ) (disk : Disk) (ts : List (Turn Client))
      → IsConsistent (run setting idle_exit_ns ts (new now ttl disk)).1
        × IsCapped (run setting idle_exit_ns ts (new now ttl disk)).1.list_cache
  run-IsConsistent setting now ttl idle_exit_ns disk ts = (
    run-keeps IsConsistent IsConsistent-Kept setting idle_exit_ns ts _
        (new-IsConsistent now ttl disk),
    run-keeps Bounded Bounded-Kept setting idle_exit_ns ts (new now ttl disk) tt,
  )
