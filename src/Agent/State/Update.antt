-- ===== src/Agent/State/Update.antt =====
-- `update_profile`, `update_profile_set` and `persist` of src/agent/state.rs.
pub mod Written
pub mod Stored
use zz_drop.Prelude.{
  ℕ, ◌+◌, Text, Bool, false, Option, none, some, ltb, option_text_eq, if◌then◌else◌, Result, ok,
  err,
}
use zz_drop.Profile.{PlainProfile}
use zz_drop.Profile.Container.{ProfileSet, contains_alias, find_by_alias_mut}
use zz_drop.Agent.Disk.{modified, replace_container}
use zz_drop.Agent.State.{AgentState, UpdateError, Env, drop_completion_caches}

-- `current_mt > unlock_mt`, where both are known
abbrev pub changed_since : Option ℕ → Option ℕ → Bool
changed_since (some unlock_mt) (some current_mt) = ltb unlock_mt current_mt
changed_since _ _ = false

abbrev or_keep : Option ℕ → Option ℕ → Option ℕ
or_keep none old = old
or_keep (some new_mt) old = some new_mt

-- the alias stays active only if the new container has it
abbrev pub still_active : Option Text → ProfileSet → Option Text
still_active none set = none
still_active (some a) set = if contains_alias set a then some a else none

module _ {Client : Type 0} where
  -- behind the encryption: replace the file, and remember its new time
  unfoldable pub store_envelope :
      Env Client → Text → AgentState Client → Result UpdateError (Unit {0}) × AgentState Client
  store_envelope env envelope s =
      let (outcome, disk) = replace_container envelope env.os s.disk in
      elim outcome [
        | err e ↦ (err (UpdateError.io e), record s { disk = disk })
        | ok _ ↦ (
          ok tt,
          record s {
            disk = disk;
            inner = record s.inner {
              container_mtime_at_unlock =
                  or_keep (modified env.os.stat_after disk) s.inner.container_mtime_at_unlock;
            };
          },
        )
      ]

  unfoldable pub persist :
      Env Client
      → ProfileSet
      → AgentState Client
      → Result UpdateError (Unit {0}) × AgentState Client
  unfolding store_envelope
  persist env set s =
      let seen = modified env.os.stat_before s.disk in
      let warned : AgentState Client = record s {
        warnings =
            if changed_since s.inner.container_mtime_at_unlock seen
            then s.warnings + 1
            else s.warnings;
      } in
      elim s.inner.kek [
        | none ↦ (err UpdateError.not_unlocked, s)
        | some kek ↦ elim (env.sealed set kek) [
          | none ↦ (err UpdateError.crypto, warned)
          | some envelope ↦ store_envelope env envelope warned
        ]
      ]

  -- the state that `update_profile` persists from
  abbrev pub replaced_profile : PlainProfile → ProfileSet → AgentState Client → AgentState Client
  replaced_profile profile snapshot s =
      let replaced : AgentState Client = record s {
        inner = record s.inner { profile_set = some snapshot };
      } in
      if option_text_eq s.inner.active_alias (some profile.alias)
      then drop_completion_caches replaced
      else replaced

  unfoldable pub update_profile :
      Env Client
      → PlainProfile
      → AgentState Client
      → Result UpdateError (Unit {0}) × AgentState Client
  update_profile env profile s = elim s.inner.profile_set [
    | none ↦ (err UpdateError.not_unlocked, s)
    | some set ↦ elim (find_by_alias_mut set profile.alias profile) [
      | none ↦ (err UpdateError.alias_not_found, s)
      | some snapshot ↦ persist env snapshot (replaced_profile profile snapshot s)
    ]
  ]

  -- the state that `update_profile_set` persists from
  abbrev pub replaced_set : Env Client → ProfileSet → AgentState Client → AgentState Client
  replaced_set env set s = drop_completion_caches (record s {
    inner = record s.inner {
      active_alias = still_active s.inner.active_alias set;
      profile_set = some set;
      last_activity = env.instant;
    };
  })

  unfoldable pub update_profile_set :
      Env Client
      → ProfileSet
      → AgentState Client
      → Result UpdateError (Unit {0}) × AgentState Client
  update_profile_set env set s = elim s.inner.profile_set [
    | none ↦ (err UpdateError.not_unlocked, s)
    | some _ ↦ persist env set (replaced_set env set s)
  ]
