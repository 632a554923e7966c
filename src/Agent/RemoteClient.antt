-- ===== src/Agent/RemoteClient.antt =====
-- src/agent/remote_client.rs: the single slot for a warm provider client. A lock poisoned by a
-- panic is not modelled. `build` stands for `build_remote`, which sets up an HTTP client.
use zz_drop.Prelude.{
  Text, Bool, not, Option, none, some, text_eq, if◌then◌else◌, Result, ok, err, is_some,
}
use zz_drop.Profile.{PlainProfile}

pub record Slot (Client : Type 0) : Type 0 where
  pub profile_id : Text
  pub client : Client

-- `RemoteClientCache`
abbrev pub ClientCache : Type 0 → Type 0
ClientCache Client = Option (Slot Client)

module _ {Client : Type 0} (build : PlainProfile → Result Text Client) where
  rebuild : PlainProfile → ClientCache Client → Result Text Client × ClientCache Client
  rebuild profile slot = elim (build profile) [
    | err e ↦ (err e, slot)
    | ok client ↦ (ok client, some (record { profile_id = profile.profile_id; client = client }))
  ]

  -- the client that `with_client` hands to its closure, and the slot that it leaves
  unfoldable pub with_client :
      PlainProfile → ClientCache Client → Result Text Client × ClientCache Client
  unfolding rebuild
  with_client profile none = rebuild profile none
  with_client profile (some s) =
      if not (text_eq s.profile_id profile.profile_id)
      then rebuild profile (some s)
      else (ok s.client, some s)

abbrev pub clear : {Client : Type 0} → ClientCache Client → ClientCache Client
clear _ = none

abbrev pub is_populated : {Client : Type 0} → ClientCache Client → Bool
is_populated = is_some
