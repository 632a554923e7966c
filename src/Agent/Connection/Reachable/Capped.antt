-- ===== src/Agent/Connection/Reachable/Capped.antt =====
-- The cap on listings, request by request.
use zz_drop.Prelude.{Text, some, ok, err, Bool-cases, inl, inr, arith, Option-cases, option_text_eq}
use zz_drop.Profile.{PlainProfile}
use zz_drop.Profile.Container.{ProfileSet, contains_alias, find_by_alias_mut}
use zz_drop.Proto.{AgentRequest}
use zz_drop.Agent.ListCache
use zz_drop.Agent.State.{
  AgentState, Env, touch, unlock, lock, set_active_alias, check_ttl_and_lock,
  drop_completion_caches, get_active_profile_renewing_ttl,
}
use zz_drop.Agent.State.Consistent.{
  persist-SameSession, update_profile-found, update_profile_set-open,
}
use zz_drop.Agent.State.Update.{
  persist, update_profile, update_profile_set, replaced_profile, replaced_set,
}
use zz_drop.Agent.State.Listing.{list_remote, invalidate_remote_prefix}
use zz_drop.Agent.State.Listing.Bounds.{IsCapped, Within, list_remote-Within, drop_prefixes-Capped}
use zz_drop.Agent.Server.{dispatch}
use zz_drop.Agent.Connection.Invariant.{Kept}

module _ {Client : Type 0} where
  abbrev pub Bounded : AgentState Client → Type 0
  Bounded s = IsCapped s.list_cache

  persist-Bounded :
      (env : Env Client) (set : ProfileSet) (s : AgentState Client)
      → Bounded s
      → Bounded (persist env set s).1
  persist-Bounded env set s h = rw ((persist-SameSession env set s).list_cache) h

  replaced_profile-Bounded :
      (profile : PlainProfile) (set : ProfileSet) (s : AgentState Client)
      → Bounded s
      → Bounded (replaced_profile profile set s)
  unfolding drop_completion_caches
  replaced_profile-Bounded profile set s h =
      elim (Bool-cases (option_text_eq s.inner.active_alias (some profile.alias))) [
        | inl active ↦ rw (active) tt
        | inr other ↦ rw other h
      ]

  update_profile-Bounded :
      (env : Env Client) (profile : PlainProfile) (s : AgentState Client)
      → Bounded s
      → Bounded (update_profile env profile s).1
  unfolding update_profile
  update_profile-Bounded env profile s h = elim (Option-cases s.inner.profile_set) [
    | inl locked ↦ rw (locked, update_profile) h
    | inr (old, open_) ↦ elim (Option-cases (find_by_alias_mut old profile.alias profile)) [
      | inl missing ↦ rw (open_, missing, update_profile) h
      | inr (set, found) ↦
          rw (update_profile-found env profile old set s open_ found)
            (persist-Bounded env set _ (replaced_profile-Bounded profile set s h))
    ]
  ]

  update_profile_set-Bounded :
      (env : Env Client) (set : ProfileSet) (s : AgentState Client)
      → Bounded s
      → Bounded (update_profile_set env set s).1
  unfolding update_profile_set
  update_profile_set-Bounded env set s h = elim (Option-cases s.inner.profile_set) [
    | inl locked ↦ rw (locked, update_profile_set) h
    | inr (old, open_) ↦
        rw (update_profile_set-open env old set s open_)
          (persist-Bounded env set (replaced_set env set s) (unfold drop_completion_caches in tt))
  ]

  set_active_alias-Bounded :
      (env : Env Client) (alias : Text) (s : AgentState Client)
      → Bounded s
      → Bounded (set_active_alias env alias s).1
  unfolding set_active_alias
  set_active_alias-Bounded env alias s h = ground arith

  Within-Bounded : (r : _) → Within {Client = Client} r → Bounded r.1
  Within-Bounded (ok hit, s) h = h.1
  Within-Bounded (err _, s) h = h

  dispatch-Bounded :
      (env : Env Client) (request : AgentRequest) (s : AgentState Client)
      → Bounded s
      → Bounded (dispatch env request s).1
  unfolding dispatch
  dispatch-Bounded env AgentRequest.ping s h = h
  dispatch-Bounded env (AgentRequest.unlock set kek alias ttl) s h =
      elim (Bool-cases (contains_alias set alias)) [
        | inl there ↦ rw there (unfold unlock in h)
        | inr missing ↦ rw missing h
      ]
  dispatch-Bounded env AgentRequest.get_profile s h = unfold get_active_profile_renewing_ttl in h
  dispatch-Bounded env (AgentRequest.update_profile p) s h = update_profile-Bounded env p s h
  dispatch-Bounded env (AgentRequest.update_profile_set set) s h =
      update_profile_set-Bounded env set s h
  dispatch-Bounded env (AgentRequest.set_active_alias alias) s h =
      set_active_alias-Bounded env alias s h
  dispatch-Bounded env (AgentRequest.list_remote prefix kind n) s h =
      Within-Bounded (list_remote env prefix kind n s) (list_remote-Within env prefix kind n s h)
  dispatch-Bounded env (AgentRequest.invalidate_remote prefix) s h =
      unfold invalidate_remote_prefix ListCache.invalidate_prefix_to_root in
      drop_prefixes-Capped (ListCache.walk_to_root prefix) s.list_cache.map h
  dispatch-Bounded env AgentRequest.lock s h = unfold lock in tt
  dispatch-Bounded env AgentRequest.exit s h = h
  dispatch-Bounded env AgentRequest.status s h = h

  check-Bounded :
      (env : Env Client) (s : AgentState Client) → Bounded s → Bounded (check_ttl_and_lock env s).1
  unfolding check_ttl_and_lock
  check-Bounded env s h = ground arith

  pub Bounded-Kept : Kept {Client = Client} Bounded
  Bounded-Kept = record {
    touch_keeps = λ env s h. unfold touch in h;
    dispatch_keeps = dispatch-Bounded;
    check_keeps = check-Bounded;
    exit_keeps = λ s h. h;
  }
