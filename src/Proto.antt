-- ===== src/Proto.antt =====
-- core/src/agent_proto/types.rs: the messages between the command line and the agent. `Debug`
-- redaction is not modelled.
pub mod Framing
use zz_drop.Prelude.{ℕ, Text, Bytes, Bool, List, Option}
use zz_drop.Profile.{PlainProfile}
use zz_drop.Profile.Container.{ProfileSet}
use zz_drop.Profile.Kdf.{Argon2idConfig, ProfileKek}

abbrev pub protocol_version : ℕ
protocol_version = 1

pub record KekPayload : Type 0 where
  pub key : Bytes
  pub salt : Bytes
  pub kdf : Argon2idConfig

abbrev pub from_kek : ProfileKek → KekPayload
from_kek kek = record { key = kek.key; salt = kek.salt; kdf = kek.kdf_config }

abbrev pub into_kek : KekPayload → ProfileKek
into_kek p = record { key = p.key; salt = p.salt; kdf_config = p.kdf }

pub data EntryKindFilter : Type 0 where
  file directory both : EntryKindFilter

pub data RemoteKind : Type 0 where
  file directory : RemoteKind

pub record RemoteListEntry : Type 0 where
  pub name : Text
  pub size : Option ℕ
  pub kind : RemoteKind
  pub mtime_secs : Option ℕ

pub data AgentRequest : Type 0 where
  ping : AgentRequest
  unlock :
      (profile_set : ProfileSet) (kek : KekPayload) (active_alias : Text) (ttl_secs : Option ℕ)
      → AgentRequest
  get_profile : AgentRequest
  update_profile : (profile : PlainProfile) → AgentRequest
  update_profile_set : (profile_set : ProfileSet) → AgentRequest
  set_active_alias : (alias : Text) → AgentRequest
  lock exit status : AgentRequest
  list_remote :
      (prefix : Option Text) (kind_filter : EntryKindFilter) (max_results : ℕ) → AgentRequest
  invalidate_remote : (prefix : Option Text) → AgentRequest

pub data AgentError : Type 0 where
  protocol_mismatch : (got expected : ℕ) → AgentError
  not_unlocked : AgentError
  frame_too_large : (size limit : ℕ) → AgentError
  invalid_token : AgentError
  io : (message : Text) → AgentError
  decode : (message : Text) → AgentError
  alias_not_found : AgentError

pub data AgentResponse : Type 0 where
  pong unlocked : AgentResponse
  profile : PlainProfile → AgentResponse
  updated locked exited : AgentResponse
  status : (unlocked : Bool) (ttl_remaining_secs : Option ℕ) → AgentResponse
  error : AgentError → AgentResponse
  remote_list :
      (entries : List RemoteListEntry) (cached_at_secs : ℕ) (truncated : Bool) → AgentResponse

pub record VersionedRequest : Type 0 where
  pub version : ℕ
  pub request : AgentRequest

pub record VersionedResponse : Type 0 where
  pub version : ℕ
  pub response : AgentResponse
