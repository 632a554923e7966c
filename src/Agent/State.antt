-- ===== src/Agent/State.antt =====
-- src/agent/state.rs: the agent's state and its operations. An operation runs with the mutexes held
-- one after the other by the only thread of the server, so it is a function of the state; a mutex
-- poisoned by a panic is not modelled, nor are the lines of the diagnostic log.
pub mod Update
pub mod Listing
pub mod Consistent
use zz_drop.Prelude.{
  ℕ, ◌+◌, ◌-◌, ◌*◌, ◌/◌, ◌^◌, min, Text, Bytes, Bool, true, false, not, ◌&&◌, Option, none, some,
  List, [], ◌∷◌, map, length, take, retain, segments, ltb, leb, text_eq, option_text_eq,
  if◌then◌else◌, Result, ok, err, is_some,
}
use zz_drop.Profile.{PlainProfile}
use zz_drop.Profile.Container.{ProfileSet, contains_alias, find_by_alias, find_by_alias_mut}
use zz_drop.Profile.Kdf.{ProfileKek}
use zz_drop.Proto.{EntryKindFilter, RemoteKind, RemoteListEntry}
use zz_drop.Agent.ListCache
use zz_drop.Agent.ListCache.{ListCache, Hit}
use zz_drop.Agent.RemoteClient.{ClientCache, with_client}
use zz_drop.Agent.Disk.{Disk, DiskAnswers, modified, replace_container}

abbrev pub max_list_results : ℕ
max_list_results = 200

unfoldable pub effective_cap : ℕ → ℕ
effective_cap max_results = min max_results max_list_results

-- An `Instant` is a number of nanoseconds on the monotonic clock.
pub record Inner : Type 0 where
  pub profile_set : Option ProfileSet
  pub kek : Option ProfileKek
  pub active_alias : Option Text
  pub container_mtime_at_unlock : Option ℕ
  pub unlocked_at : Option ℕ
  pub ttl : ℕ
  pub last_activity : ℕ

-- `container_path` is the place of the `Disk`; `warnings` counts the lines on stderr.
pub record AgentState (Client : Type 0) : Type 0 where
  pub inner : Inner
  pub disk : Disk
  pub warnings : ℕ
  pub exit_flag : Bool
  pub list_cache : ListCache
  pub remote_clients : ClientCache Client

pub data UpdateError : Type 0 where
  not_unlocked alias_not_found : UpdateError
  io : Text → UpdateError
  crypto : UpdateError

pub data ListError : Type 0 where
  not_unlocked : ListError
  provider : Text → ListError

-- `RemoteEntry` of the providers, as far as a listing reads it
pub record RemoteEntry : Type 0 where
  pub name : Text
  pub size : Option ℕ
  pub is_directory : Bool

-- What one operation meets: the two clocks when it starts, and again behind its network or disk
-- calls, the wall clock once more when a listing is returned; the answers of the disk; `sealed`, the outcome of `encrypt_set_with_kek` with the nonce that
-- this call draws; `build`, that of `build_remote`; `answer`, that of the provider's `list`.
pub record Env (Client : Type 0) : Type 0 where
  pub instant : ℕ
  pub instant_after : ℕ
  pub wall : ℕ
  pub wall_after : ℕ
  pub wall_returned : ℕ
  pub os : DiskAnswers
  pub sealed : ProfileSet → ProfileKek → Option Text
  pub build : PlainProfile → Result Text Client
  pub answer : Client → List Text → Result Text (List RemoteEntry)

-- `if let Some(ttl) = ttl_override`
abbrev pub with_ttl : Option ℕ → ℕ → ℕ
with_ttl none ttl = ttl
with_ttl (some t) ttl = t

-- the inner profile of the active alias
abbrev pub active_of : Option Text → Option ProfileSet → Option PlainProfile
active_of none _ = none
active_of (some alias) none = none
active_of (some alias) (some set) = find_by_alias set alias

-- `if inner.unlocked_at.is_some()`
abbrev pub renewed : ℕ → Option ℕ → Option ℕ
renewed now none = none
renewed now (some _) = some now

module _ {Client : Type 0} where
  abbrev pub new : ℕ → ℕ → Disk → AgentState Client
  new now ttl disk = record {
    inner = record {
      profile_set = none;
      kek = none;
      active_alias = none;
      container_mtime_at_unlock = none;
      unlocked_at = none;
      ttl = ttl;
      last_activity = now;
    };
    disk = disk;
    warnings = 0;
    exit_flag = false;
    list_cache = ListCache.with_clock;
    remote_clients = none;
  }

  unfoldable pub unlock :
      Env Client → ProfileSet → ProfileKek → Text → Option ℕ → AgentState Client → AgentState Client
  unlock env profile_set kek active_alias ttl_override s = record s {
    inner = record {
      profile_set = some profile_set;
      kek = some kek;
      active_alias = some active_alias;
      container_mtime_at_unlock = modified env.os.stat_before s.disk;
      unlocked_at = some env.instant;
      ttl = with_ttl ttl_override s.inner.ttl;
      last_activity = env.instant;
    };
  }

  unfoldable pub drop_completion_caches : AgentState Client → AgentState Client
  drop_completion_caches s = record s {
    list_cache = ListCache.clear s.list_cache;
    remote_clients = none;
  }

  unfoldable pub lock : Env Client → AgentState Client → AgentState Client
  unfolding drop_completion_caches
  lock env s = drop_completion_caches (record s {
    inner = record s.inner {
      profile_set = none;
      kek = none;
      active_alias = none;
      container_mtime_at_unlock = none;
      unlocked_at = none;
      last_activity = env.instant;
    };
  })

  abbrev pub is_unlocked : AgentState Client → Bool
  is_unlocked s = is_some s.inner.profile_set

  unfoldable pub touch : Env Client → AgentState Client → AgentState Client
  touch env s = record s { inner = record s.inner { last_activity = env.instant } }

  unfoldable pub get_active_profile_renewing_ttl :
      Env Client → AgentState Client → Option PlainProfile × AgentState Client
  get_active_profile_renewing_ttl env s = (
    active_of s.inner.active_alias s.inner.profile_set,
    record s {
      inner = record s.inner {
        last_activity = env.instant;
        unlocked_at = renewed env.instant s.inner.unlocked_at;
      };
    },
  )

  unfoldable pub set_active_alias :
      Env Client → Text → AgentState Client → Result UpdateError (Unit {0}) × AgentState Client
  unfolding drop_completion_caches
  set_active_alias env alias s = elim s.inner.profile_set [
    | none ↦ (err UpdateError.not_unlocked, s)
    | some set ↦
        if contains_alias set alias
        then (
          ok tt,
          drop_completion_caches (record s {
            inner = record s.inner { active_alias = some alias; last_activity = env.instant };
          }),
        )
        else (err UpdateError.alias_not_found, s)
  ]

  unfoldable pub check_ttl_and_lock : Env Client → AgentState Client → Bool × AgentState Client
  unfolding drop_completion_caches
  check_ttl_and_lock env s =
      let locked : AgentState Client = record s {
        inner = record s.inner {
          profile_set = none;
          kek = none;
          active_alias = none;
          container_mtime_at_unlock = none;
          unlocked_at = none;
        };
      } in
      elim s.inner.unlocked_at [
        | none ↦ (false, s)
        | some t ↦
            if ltb s.inner.ttl (env.instant - t)
            then (true, drop_completion_caches locked)
            else (false, s)
      ]

  unfoldable pub ttl_remaining_secs : Env Client → AgentState Client → Option ℕ
  ttl_remaining_secs env s = elim s.inner.unlocked_at [
    | none ↦ none
    | some t ↦
        let elapsed = env.instant - t in
        if leb s.inner.ttl elapsed then some 0 else some ((s.inner.ttl - elapsed) / 10 ^ 9)
  ]

  abbrev pub idle_for : Env Client → AgentState Client → ℕ
  idle_for env s = env.instant - s.inner.last_activity

  abbrev pub request_exit : AgentState Client → AgentState Client
  request_exit s = record s { exit_flag = true }

  abbrev pub should_exit : AgentState Client → Bool
  should_exit s = s.exit_flag
