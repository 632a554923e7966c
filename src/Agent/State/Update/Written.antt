-- ===== src/Agent/State/Update/Written.antt =====
-- What an update leaves on disk.
use zz_drop.Prelude.{
  ◌≡◌, refl, subst, Text, Option, some, Result, ok, err, arith, Option-cases, Result-cases, inl,
  inr,
}
use zz_drop.Profile.{PlainProfile}
use zz_drop.Profile.Container.{ProfileSet, find_by_alias_mut}
use zz_drop.Profile.Kdf.{ProfileKek}
use zz_drop.Agent.Disk.{StoredFile, replace_container, container-replace_container}
use zz_drop.Agent.State.{AgentState, UpdateError, Env, drop_completion_caches}
use zz_drop.Agent.State.Consistent.{update_profile-found, update_profile_set-open}
use zz_drop.Agent.State.Update.{
  persist, store_envelope, update_profile, update_profile_set, replaced_profile, replaced_set,
}

module _ {Client : Type 0} where
  -- `persist` that succeeds leaves the container file with the given set, sealed under the key of the
  -- session; that fails leaves it with its old content.
  abbrev pub Persisted :
      Env Client
      → ProfileSet
      → Option ProfileKek
      → Option StoredFile
      → Result UpdateError (Unit {0}) × AgentState Client
      → Type 0
  Persisted env set kek old (ok _, s) =
      (k : ProfileKek) × ((envelope : Text) × (kek ≡ some k)
        × (env.sealed set k ≡ some envelope)
        × (s.disk.container ≡ some (record { content = envelope; mtime = env.os.stamp })))
  Persisted env set kek old (err _, s) = s.disk.container ≡ old

  store_envelope-Persisted :
      (env : Env Client) (set : ProfileSet) (k : ProfileKek) (envelope : Text)
      (s : AgentState Client)
      → env.sealed set k ≡ some envelope
      → Persisted env set (some k) s.disk.container (store_envelope env envelope s)
  unfolding store_envelope
  store_envelope-Persisted env set k envelope s sealed =
      elim (Result-cases (replace_container envelope env.os s.disk).0) [
        | inl (_, done) ↦
            rw (done, store_envelope, Persisted)
              (
                k,
                (
                  envelope,
                  refl,
                  sealed,
                  ground (arith, container-replace_container envelope env.os s.disk),
                ),
              )
        | inr (e, failed) ↦
            rw (failed, store_envelope, Persisted)
              (ground (arith, container-replace_container envelope env.os s.disk))
      ]

  pub persist-Persisted :
      (env : Env Client) (set : ProfileSet) (s : AgentState Client)
      → Persisted env set s.inner.kek s.disk.container (persist env set s)
  unfolding persist
  persist-Persisted env set s = elim (Option-cases s.inner.kek) [
    | inl missing ↦ rw (missing, persist) refl
    | inr (k, there) ↦ elim (Option-cases (env.sealed set k)) [
      | inl unsealed ↦ rw (there, unsealed, persist) refl
      | inr (envelope, sealed) ↦
          rw (there, sealed, persist) (store_envelope-Persisted env set k envelope _ sealed)
    ]
  ]

  -- `update_profile_set` on an unlocked agent: after success the container file holds the new set,
  -- sealed under the key of the session; after an error it is as it was.
  pub update_profile_set-Persisted :
      (env : Env Client) (old set : ProfileSet) (s : AgentState Client)
      → s.inner.profile_set ≡ some old
      → Persisted env set s.inner.kek s.disk.container (update_profile_set env set s)
  update_profile_set-Persisted env old set s open_ =
      rw (update_profile_set-open env old set s open_)
        (unfold drop_completion_caches in persist-Persisted env set (replaced_set env set s))

  replaced_profile-same :
      (profile : PlainProfile) (set : ProfileSet) (s : AgentState Client)
      → ((replaced_profile profile set s).inner.kek ≡ s.inner.kek)
        × ((replaced_profile profile set s).disk.container ≡ s.disk.container)
  unfolding drop_completion_caches
  replaced_profile-same profile set s = ground arith

  -- `update_profile` on an unlocked agent whose container has the alias: after success the
  -- container file holds the set in which that inner profile is replaced, sealed under the key of
  -- the session; after an error it is as it was.
  pub update_profile-Persisted :
      (env : Env Client) (profile : PlainProfile) (old set : ProfileSet) (s : AgentState Client)
      → s.inner.profile_set ≡ some old
      → find_by_alias_mut old profile.alias profile ≡ some set
      → Persisted env set s.inner.kek s.disk.container (update_profile env profile s)
  update_profile-Persisted env profile old set s open_ found =
      let r = replaced_profile profile set s in
      rw (update_profile-found env profile old set s open_ found) (
        subst (λ k. Persisted env set k s.disk.container (persist env set r))
          (replaced_profile-same profile set s).0
          (subst (λ c. Persisted env set r.inner.kek c (persist env set r))
            (replaced_profile-same profile set s).1 (persist-Persisted env set r)))
