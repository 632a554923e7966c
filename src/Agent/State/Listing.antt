-- ===== src/Agent/State/Listing.antt =====
-- `list_remote` and `invalidate_remote_prefix` of src/agent/state.rs.
pub mod Bounds
pub mod Session
pub mod Repeat
use zz_drop.Prelude.{
  ℕ, Text, Bool, true, false, not, Option, none, some, List, [], ◌∷◌, map, length, take, retain,
  segments, ltb, if◌then◌else◌, Result, ok, err,
}
use zz_drop.Profile.{PlainProfile}
use zz_drop.Proto.{EntryKindFilter, RemoteKind, RemoteListEntry}
use zz_drop.Agent.ListCache
use zz_drop.Agent.ListCache.{Hit}
use zz_drop.Agent.RemoteClient.{with_client}
use zz_drop.Agent.State.{
  AgentState, ListError, RemoteEntry, Env, effective_cap, get_active_profile_renewing_ttl,
}

-- the segments that the provider is asked for
abbrev pub path_of : Option Text → List Text
path_of none = []
path_of (some p) = segments p

abbrev pub matches_filter : EntryKindFilter → RemoteEntry → Bool
matches_filter EntryKindFilter.file e = not e.is_directory
matches_filter EntryKindFilter.directory e = e.is_directory
matches_filter EntryKindFilter.both e = true

abbrev pub to_entry : RemoteEntry → RemoteListEntry
to_entry e = record {
  name = e.name;
  size = e.size;
  kind = if e.is_directory then RemoteKind.directory else RemoteKind.file;
  mtime_secs = none;
}

-- filtered, converted and cut off at the cap
unfoldable pub shape : EntryKindFilter → ℕ → List RemoteEntry → List RemoteListEntry
shape kind_filter cap raw =
    let shaped = map to_entry (retain (matches_filter kind_filter) raw) in
    if ltb cap (length shaped) then take cap shaped else shaped

module _ {Client : Type 0} where
  -- the provider's answer, shaped, stored and returned
  unfoldable pub store_listing :
      Env Client
      → Option Text
      → EntryKindFilter
      → ℕ
      → List RemoteEntry
      → AgentState Client
      → Result ListError Hit × AgentState Client
  unfolding effective_cap shape
  store_listing env prefix kind_filter max_results raw s =
      let cap = effective_cap max_results in
      let truncated = ltb cap (length raw) in
      let shaped = shape kind_filter cap raw in
      (
        ok (record { fetched_at = env.wall_returned; entries = shaped; truncated = truncated }),
        record s {
          list_cache =
              ListCache.put env.wall_after prefix kind_filter shaped truncated s.list_cache;
        },
      )

  -- with the active profile at hand: the client, the network call
  unfoldable pub ask_provider :
      Env Client
      → Option Text
      → EntryKindFilter
      → ℕ
      → PlainProfile
      → AgentState Client
      → Result ListError Hit × AgentState Client
  ask_provider env prefix kind_filter max_results profile s =
      let (outcome, slot) = with_client env.build profile s.remote_clients in
      let s' : AgentState Client = record s { remote_clients = slot } in
      elim outcome [
        | err e ↦ (err (ListError.provider e), s')
        | ok client ↦ elim (env.answer client (path_of prefix)) [
          | err e ↦ (err (ListError.provider e), s')
          | ok raw ↦ store_listing env prefix kind_filter max_results raw s'
        ]
      ]

  unfoldable pub list_uncached :
      Env Client
      → Option Text
      → EntryKindFilter
      → ℕ
      → AgentState Client
      → Result ListError Hit × AgentState Client
  list_uncached env prefix kind_filter max_results s =
      let (profile, s') = get_active_profile_renewing_ttl env s in
      elim profile [
        | none ↦ (err ListError.not_unlocked, s')
        | some p ↦ ask_provider env prefix kind_filter max_results p s'
      ]

  unfoldable pub list_remote :
      Env Client
      → Option Text
      → EntryKindFilter
      → ℕ
      → AgentState Client
      → Result ListError Hit × AgentState Client
  list_remote env prefix kind_filter max_results s =
      let (hit, cache) = ListCache.get env.wall prefix kind_filter s.list_cache in
      let s' : AgentState Client = record s { list_cache = cache } in
      elim hit [ some h ↦ (ok h, s') | none ↦ list_uncached env prefix kind_filter max_results s' ]

  unfoldable pub invalidate_remote_prefix : Option Text → AgentState Client → AgentState Client
  invalidate_remote_prefix prefix s = record s {
    list_cache = ListCache.invalidate_prefix_to_root prefix s.list_cache;
  }
