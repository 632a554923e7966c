-- ===== src/Agent/Server.antt =====
-- `dispatch` of src/agent/server.rs: one request to the agent, and its response.
pub mod Locking
pub mod Requests
pub mod Sessions
use zz_drop.Prelude.{
  ℕ, zero, suc, ◌+◌, ◌*◌, Text, Bytes, Bool, true, false, not, ◌&&◌, Option, none, some, List, [],
  ◌∷◌, length, ltb, ◌==◌, text_eq, codes, if◌then◌else◌, Result, ok, err, is_some,
}
use zz_drop.Profile.{PlainProfile}
use zz_drop.Profile.Container.{contains_alias}
use zz_drop.Proto.{
  AgentRequest, AgentResponse, AgentError, VersionedRequest, VersionedResponse, into_kek,
}
use zz_drop.Proto.Framing.{
  Postcard, Reader, Writer, read_frame, write_frame, decode_request_body, encode_response_body,
}
use zz_drop.Agent.ListCache.{Hit, secs, epoch_secs}
use zz_drop.Agent.State.{
  AgentState, UpdateError, ListError, Env, unlock, lock, touch, is_unlocked, idle_for,
  set_active_alias, get_active_profile_renewing_ttl, check_ttl_and_lock, ttl_remaining_secs,
  request_exit, should_exit,
}
use zz_drop.Agent.State.Update.{update_profile, update_profile_set}
use zz_drop.Agent.State.Listing.{list_remote, invalidate_remote_prefix}

abbrev pub default_ttl_secs : ℕ
default_ttl_secs = 600

abbrev pub default_idle_exit_secs : ℕ
default_idle_exit_secs = 300

abbrev pub secs_option : Option ℕ → Option ℕ
secs_option none = none
secs_option (some n) = some (secs n)

-- the answers to `update_profile` and to `update_profile_set`
abbrev pub update_response : Result UpdateError (Unit {0}) → AgentResponse
update_response (ok _) = AgentResponse.updated
update_response (err UpdateError.not_unlocked) = AgentResponse.error AgentError.not_unlocked
update_response (err UpdateError.alias_not_found) = AgentResponse.error AgentError.alias_not_found
update_response (err (UpdateError.io e)) = AgentResponse.error (AgentError.io e)
update_response (err UpdateError.crypto) =
    AgentResponse.error (AgentError.io (codes "re-encrypt failed"))

-- the answer to `set_active_alias`
abbrev pub alias_response : Result UpdateError (Unit {0}) → AgentResponse
alias_response (ok _) = AgentResponse.updated
alias_response (err UpdateError.alias_not_found) = AgentResponse.error AgentError.alias_not_found
alias_response (err _) = AgentResponse.error AgentError.not_unlocked

abbrev pub list_response : Result ListError Hit → AgentResponse
list_response (ok hit) =
    AgentResponse.remote_list hit.entries (epoch_secs hit.fetched_at) hit.truncated
list_response (err ListError.not_unlocked) = AgentResponse.error AgentError.not_unlocked
list_response (err (ListError.provider message)) = AgentResponse.error (AgentError.io message)

abbrev pub profile_response : Option PlainProfile → AgentResponse
profile_response (some p) = AgentResponse.profile p
profile_response none = AgentResponse.error AgentError.not_unlocked

abbrev first {ℓ κ μ} : {A : Type ℓ} {B : Type κ} {C : Type μ} → (A → C) → A × B → C × B
first f (a, b) = (f a, b)

module _ {Client : Type 0} where
  unfoldable pub dispatch :
      Env Client → AgentRequest → AgentState Client → AgentResponse × AgentState Client
  dispatch env AgentRequest.ping s = (AgentResponse.pong, s)
  dispatch env (AgentRequest.unlock profile_set kek active_alias ttl_secs) s =
      if not (contains_alias profile_set active_alias)
      then (AgentResponse.error AgentError.alias_not_found, s)
      else (
        AgentResponse.unlocked,
        unlock env profile_set (into_kek kek) active_alias (secs_option ttl_secs) s,
      )
  dispatch env AgentRequest.get_profile s =
      first profile_response (get_active_profile_renewing_ttl env s)
  dispatch env (AgentRequest.update_profile profile) s =
      first update_response (update_profile env profile s)
  dispatch env (AgentRequest.update_profile_set profile_set) s =
      first update_response (update_profile_set env profile_set s)
  dispatch env (AgentRequest.set_active_alias alias) s =
      first alias_response (set_active_alias env alias s)
  dispatch env (AgentRequest.list_remote prefix kind_filter max_results) s =
      first list_response (list_remote env prefix kind_filter max_results s)
  dispatch env (AgentRequest.invalidate_remote prefix) s =
      (AgentResponse.updated, invalidate_remote_prefix prefix s)
  dispatch env AgentRequest.lock s = (AgentResponse.locked, lock env s)
  dispatch env AgentRequest.exit s = (AgentResponse.exited, s)
  dispatch env AgentRequest.status s =
      (AgentResponse.status (is_unlocked s) (ttl_remaining_secs env s), s)
