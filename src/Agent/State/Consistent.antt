-- ===== src/Agent/State/Consistent.antt =====
-- What holds of the agent's state between two operations.
use zz_drop.Prelude.{
  ℕ, ◌≡◌, refl, ◌∙◌, Text, true, Option, none, some, [], is_some, arith, Option-cases, inl, inr,
}
use zz_drop.Profile.{PlainProfile}
use zz_drop.Profile.Container.{ProfileSet, contains_alias, find_by_alias_mut}
use zz_drop.Profile.Container.Lookup.{contains_alias-find_by_alias_mut}
use zz_drop.Profile.Kdf.{ProfileKek}
use zz_drop.Agent.Disk.{Disk}
use zz_drop.Agent.State.{
  AgentState, Env, unlock, lock, touch, drop_completion_caches, get_active_profile_renewing_ttl,
  set_active_alias, check_ttl_and_lock, new,
}
use zz_drop.Agent.State.Update.{
  persist, store_envelope, update_profile, update_profile_set, still_active, replaced_profile,
  replaced_set,
}

abbrev pub AliasValid : Option Text → Option ProfileSet → Type 0
AliasValid none set = Unit {0}
AliasValid (some a) none = ⊥
AliasValid (some a) (some set) = contains_alias set a ≡ true

-- A locked agent holds no secret and no trace of the remote tree: key, active alias, unlock time,
-- container time, cached listings and the warm client are there at most while a container is. The
-- active alias names an inner profile.
pub record IsConsistent {Client : Type 0} (s : AgentState Client) : Type 0 where
  pub kek_iff : is_some s.inner.kek ≡ is_some s.inner.profile_set
  pub timer_iff : is_some s.inner.unlocked_at ≡ is_some s.inner.profile_set
  pub alias_valid : AliasValid s.inner.active_alias s.inner.profile_set
  pub locked_mtime : s.inner.profile_set ≡ none → s.inner.container_mtime_at_unlock ≡ none
  pub locked_cache : s.inner.profile_set ≡ none → s.list_cache.map ≡ []
  pub locked_client : s.inner.profile_set ≡ none → s.remote_clients ≡ none

AliasValid-replaced :
    (old set : ProfileSet) (profile : PlainProfile) (alias : Option Text)
    → find_by_alias_mut old profile.alias profile ≡ some set
    → AliasValid alias (some old)
    → AliasValid alias (some set)
AliasValid-replaced old set profile none e h = tt
AliasValid-replaced old set profile (some a) e h =
    contains_alias-find_by_alias_mut old set profile a e ∙ h

AliasValid-still_active :
    (alias : Option Text) (set : ProfileSet) → AliasValid (still_active alias set) (some set)
AliasValid-still_active none set = tt
AliasValid-still_active (some a) set = ground arith

module _ {Client : Type 0} where
  pub new-IsConsistent :
      (now ttl : ℕ) (disk : Disk) → IsConsistent (new {Client = Client} now ttl disk)
  new-IsConsistent now ttl disk = ground arith

  pub unlock-IsConsistent :
      (env : Env Client) (set : ProfileSet) (kek : ProfileKek) (alias : Text) (ttl : Option ℕ)
      (s : AgentState Client)
      → contains_alias set alias ≡ true
      → IsConsistent (unlock env set kek alias ttl s)
  unfolding unlock
  unlock-IsConsistent env set kek alias ttl s h = ground arith

  pub lock-IsConsistent : (env : Env Client) (s : AgentState Client) → IsConsistent (lock env s)
  unfolding lock
  lock-IsConsistent env s = ground arith

  pub touch-IsConsistent :
      (env : Env Client) (s : AgentState Client) → IsConsistent s → IsConsistent (touch env s)
  unfolding touch
  touch-IsConsistent env s h = ground arith

  pub get_active_profile-IsConsistent :
      (env : Env Client) (s : AgentState Client)
      → IsConsistent s
      → IsConsistent (get_active_profile_renewing_ttl env s).1
  unfolding get_active_profile_renewing_ttl
  get_active_profile-IsConsistent env s h = ground arith

  pub set_active_alias-IsConsistent :
      (env : Env Client) (alias : Text) (s : AgentState Client)
      → IsConsistent s
      → IsConsistent (set_active_alias env alias s).1
  unfolding set_active_alias
  set_active_alias-IsConsistent env alias s h = ground arith

  pub check_ttl_and_lock-IsConsistent :
      (env : Env Client) (s : AgentState Client)
      → IsConsistent s
      → IsConsistent (check_ttl_and_lock env s).1
  unfolding check_ttl_and_lock
  check_ttl_and_lock-IsConsistent env s h = ground arith

  drop_completion_caches-IsConsistent :
      (s : AgentState Client) → IsConsistent s → IsConsistent (drop_completion_caches s)
  unfolding drop_completion_caches
  drop_completion_caches-IsConsistent s h = ground arith

  -- A write of the container touches nothing of the session but the time that the file had.
  pub record SameSession (s t : AgentState Client) : Type 0 where
    pub profile_set : t.inner.profile_set ≡ s.inner.profile_set
    pub kek : t.inner.kek ≡ s.inner.kek
    pub active_alias : t.inner.active_alias ≡ s.inner.active_alias
    pub unlocked_at : t.inner.unlocked_at ≡ s.inner.unlocked_at
    pub ttl : t.inner.ttl ≡ s.inner.ttl
    pub last_activity : t.inner.last_activity ≡ s.inner.last_activity
    pub list_cache : t.list_cache ≡ s.list_cache
    pub remote_clients : t.remote_clients ≡ s.remote_clients
    pub exit_flag : t.exit_flag ≡ s.exit_flag

  store_envelope-SameSession :
      (env : Env Client) (envelope : Text) (s : AgentState Client)
      → SameSession s (store_envelope env envelope s).1
  unfolding store_envelope
  store_envelope-SameSession env envelope s = ground arith

  pub persist-SameSession :
      (env : Env Client) (set : ProfileSet) (s : AgentState Client)
      → SameSession s (persist env set s).1
  unfolding persist store_envelope
  persist-SameSession env set s = ground arith

  SameSession-IsConsistent :
      (s t : AgentState Client) (set : ProfileSet)
      → SameSession s t
      → s.inner.profile_set ≡ some set
      → IsConsistent s
      → IsConsistent t
  SameSession-IsConsistent s t set same open_ h = ground arith

  replaced-IsConsistent :
      (old set : ProfileSet) (s : AgentState Client)
      → s.inner.profile_set ≡ some old
      → AliasValid s.inner.active_alias (some set)
      → IsConsistent s
      → IsConsistent (record s { inner = record s.inner { profile_set = some set } })
  replaced-IsConsistent old set s open_ valid h = ground arith

  pub persist-IsConsistent :
      (env : Env Client) (set current : ProfileSet) (s : AgentState Client)
      → s.inner.profile_set ≡ some current
      → IsConsistent s
      → IsConsistent (persist env set s).1
  persist-IsConsistent env set current s open_ h =
      SameSession-IsConsistent s _ current (persist-SameSession env set s) open_ h

  pub update_profile-found :
      (env : Env Client) (profile : PlainProfile) (old set : ProfileSet) (s : AgentState Client)
      → s.inner.profile_set ≡ some old
      → find_by_alias_mut old profile.alias profile ≡ some set
      → update_profile env profile s ≡ persist env set (replaced_profile profile set s)
  unfolding update_profile
  update_profile-found env profile old set s open_ found = ground arith

  replaced_profile-IsConsistent :
      (profile : PlainProfile) (old set : ProfileSet) (s : AgentState Client)
      → s.inner.profile_set ≡ some old
      → find_by_alias_mut old profile.alias profile ≡ some set
      → IsConsistent s
      → IsConsistent (replaced_profile profile set s)
  unfolding drop_completion_caches
  replaced_profile-IsConsistent profile old set s open_ found h =
      let valid : AliasValid s.inner.active_alias (some set) =
        AliasValid-replaced old set profile s.inner.active_alias found
          (rw open_ at h.alias_valid) in
      ground (arith)

  pub update_profile-IsConsistent :
      (env : Env Client) (profile : PlainProfile) (s : AgentState Client)
      → IsConsistent s
      → IsConsistent (update_profile env profile s).1
  unfolding update_profile
  update_profile-IsConsistent env profile s h = elim (Option-cases s.inner.profile_set) [
    | inl locked ↦ ground arith
    | inr (old, open_) ↦ elim (Option-cases (find_by_alias_mut old profile.alias profile)) [
      | inl missing ↦ ground arith
      | inr (set, found) ↦ rw (update_profile-found env profile old set s open_ found) (
          persist-IsConsistent env set set (replaced_profile profile set s)
            (unfold drop_completion_caches in ground arith)
            (replaced_profile-IsConsistent profile old set s open_ found h))
    ]
  ]

  replaced_set-IsConsistent :
      (env : Env Client) (old set : ProfileSet) (s : AgentState Client)
      → s.inner.profile_set ≡ some old
      → IsConsistent s
      → IsConsistent (replaced_set env set s)
  unfolding drop_completion_caches
  replaced_set-IsConsistent env old set s open_ h =
      ground (arith, AliasValid-still_active s.inner.active_alias set)

  pub update_profile_set-open :
      (env : Env Client) (old set : ProfileSet) (s : AgentState Client)
      → s.inner.profile_set ≡ some old
      → update_profile_set env set s ≡ persist env set (replaced_set env set s)
  unfolding update_profile_set
  update_profile_set-open env old set s open_ = ground arith

  pub update_profile_set-IsConsistent :
      (env : Env Client) (set : ProfileSet) (s : AgentState Client)
      → IsConsistent s
      → IsConsistent (update_profile_set env set s).1
  unfolding update_profile_set
  update_profile_set-IsConsistent env set s h = elim (Option-cases s.inner.profile_set) [
    | inl locked ↦ ground arith
    | inr (old, open_) ↦ rw (update_profile_set-open env old set s open_) (
        persist-IsConsistent env set set (replaced_set env set s)
          (unfold drop_completion_caches in refl) (replaced_set-IsConsistent env old set s open_ h))
  ]
