-- ===== src/Tests/Sessions.antt =====
-- Requests to the agent: the theorems at concrete states.
use zz_drop.Prelude.{
  List, All, ◌+◌, ℕ, ◌≡◌, refl, codes, true, false, none, some, [], ◌∷◌, arith, text_eq,
  option_text_eq, ok,
}
use zz_drop.Profile.Container.{contains_alias, find_by_alias, find_by_alias_mut, replace_first}
use zz_drop.Proto.{AgentRequest, AgentResponse, EntryKindFilter, RemoteKind}
use zz_drop.Agent.ListCache
use zz_drop.Agent.ListCache.{secs, Hit}
use zz_drop.Agent.State.{
  AgentState, unlock, check_ttl_and_lock, is_unlocked, get_active_profile_renewing_ttl,
  effective_cap,
}
use zz_drop.Agent.State.Consistent.{IsConsistent, new-IsConsistent, unlock-IsConsistent}
use zz_drop.Agent.State.Update.{update_profile}
use zz_drop.Agent.State.Update.Written.{Persisted, update_profile-Persisted}
use zz_drop.Agent.State.Listing.{list_remote, list_uncached, ask_provider, store_listing, shape}
use zz_drop.Agent.State.Listing.Bounds.{Within, list_remote-Within}
use zz_drop.Agent.State.Listing.Repeat.{list_remote-list_remote}
use zz_drop.Agent.RemoteClient.{with_client}
use zz_drop.Agent.Server.{dispatch}
use zz_drop.Agent.Server.Locking.{reveals, dispatch-locked}
use zz_drop.Agent.Server.Requests.{dispatch_all}
use zz_drop.Agent.Connection.Expired.{RevealsNothing, dispatch_all-expired}
use zz_drop.Agent.Server.Sessions.{profile_in, get_profile-update_profile, list_remote-unlock}
use zz_drop.Tests.Data.{
  profile_of, alpha, beta, two_profiles, only_beta, kek, payload, at, on_full_disk, disk, locked,
}

abbrev open_ : AgentState ℕ
unfolding unlock
open_ = unlock (at 5) two_profiles kek alpha none locked

alpha_there : contains_alias two_profiles alpha ≡ true
unfolding contains_alias text_eq
alpha_there = refl

beta_there : contains_alias two_profiles beta ≡ true
unfolding contains_alias text_eq
beta_there = refl

alpha_missing : contains_alias only_beta alpha ≡ false
unfolding contains_alias text_eq
alpha_missing = refl

abbrev both : EntryKindFilter
both = EntryKindFilter.both

abbrev root_hit : Hit
root_hit = record {
  fetched_at = secs 6;
  entries =
      record { name = codes "a.md"; size = some 3; kind = RemoteKind.file; mtime_secs = none }
      ∷ record { name = codes "docs"; size = none; kind = RemoteKind.directory; mtime_secs = none }
      ∷ [];
  truncated = false;
}

abbrev listed : AgentState ℕ
listed = (list_remote (at 6) none both 50 open_).1

root_listed : (list_remote (at 6) none both 50 open_).0 ≡ ok root_hit
unfolding unlock list_remote list_uncached ask_provider store_listing shape effective_cap
    with_client get_active_profile_renewing_ttl find_by_alias text_eq ListCache.get
    ListCache.map_get
root_listed = refl

root_cached : (ListCache.get (secs 9) none both listed.list_cache).0 ≡ some root_hit
unfolding unlock list_remote list_uncached ask_provider store_listing shape effective_cap
    with_client get_active_profile_renewing_ttl find_by_alias text_eq ListCache.get
    ListCache.map_get ListCache.put ListCache.map_insert option_text_eq
root_cached = refl

dispatch-locked_example :
    (reveals (dispatch (at 5) (AgentRequest.list_remote none both 50) locked).0 ≡ false)
    × (is_unlocked (dispatch (at 5) (AgentRequest.list_remote none both 50) locked).1 ≡ false)
dispatch-locked_example =
    dispatch-locked (at 5) (AgentRequest.list_remote none both 50) locked
      (new-IsConsistent 0 (secs 600) disk) refl refl

abbrev asks : List AgentRequest
asks = AgentRequest.get_profile ∷ AgentRequest.list_remote none both 50 ∷ []

open_-IsConsistent : IsConsistent open_
unfolding unlock
open_-IsConsistent = unlock-IsConsistent (at 5) two_profiles kek alpha none locked alpha_there

dispatch_all-expired_example :
    All RevealsNothing
      (dispatch_all (λ i. at (606 + i)) 1 asks (check_ttl_and_lock (at 606) open_).1).0
    × (is_unlocked (dispatch_all (λ i. at (606 + i)) 1 asks (check_ttl_and_lock (at 606) open_).1).1
        ≡ false)
unfolding unlock
dispatch_all-expired_example =
    dispatch_all-expired (at 606) (λ i. at (606 + i)) 1 asks open_ (secs 5) open_-IsConsistent refl
      (omega arith) (refl, (refl, tt))

get_profile-update_profile_example :
    profile_in
      (at 9)
      (dispatch_all
        (λ i. at (7 + i))
        0
        asks
        (dispatch (on_full_disk 6) (AgentRequest.update_profile (profile_of alpha)) open_).1).1
    ≡ AgentResponse.profile (profile_of alpha)
unfolding unlock
get_profile-update_profile_example =
    get_profile-update_profile (on_full_disk 6) (at 9) (λ i. at (7 + i)) 0 (profile_of alpha)
      two_profiles asks open_ refl refl alpha_there (refl, (refl, tt))

list_remote-unlock_example :
    (h : Hit) × ((list_remote
        (at 9)
        none
        both
        1
        (dispatch
          (at 8)
          (AgentRequest.unlock only_beta payload beta none)
          (list_remote (at 6) none both 50 open_).1).1).0
      ≡ ok h)
    × (h.entries ≡ root_hit.entries)
    × (h.truncated ≡ root_hit.truncated)
unfolding unlock
list_remote-unlock_example =
    list_remote-unlock (at 6) (at 8) (at 9) only_beta payload beta none none both 50 1 open_
      root_hit root_listed (omega arith) (omega arith)

list_remote-list_remote_example :
    (h : Hit) × ((list_remote (at 66) none both 1 (list_remote (at 6) none both 50 open_).1).0
      ≡ ok h)
    × (h.entries ≡ root_hit.entries)
    × (h.truncated ≡ false)
list_remote-list_remote_example =
    list_remote-list_remote (at 6) none both 50 (at 66) 1 open_ root_hit root_listed
      (unfold unlock in omega arith) (unfold unlock in omega arith)

list_remote-Within_example : Within (list_remote (at 6) none both 50 open_)
list_remote-Within_example = list_remote-Within (at 6) none both 50 open_ (unfold unlock in tt)

alpha_replaced : find_by_alias_mut two_profiles alpha (profile_of alpha) ≡ some two_profiles
unfolding find_by_alias_mut find_by_alias replace_first text_eq
alpha_replaced = refl

update_profile-Persisted_example :
    Persisted
      (at 6)
      two_profiles
      (some kek)
      disk.container
      (update_profile (at 6) (profile_of alpha) open_)
unfolding unlock
update_profile-Persisted_example =
    update_profile-Persisted (at 6) (profile_of alpha) two_profiles two_profiles open_ refl
      alpha_replaced
