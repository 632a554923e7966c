-- ===== src/Profile/Container/Lookup.antt =====
-- What a lookup by alias finds, and what replacing one inner profile changes.
use zz_drop.Prelude.{
  Text, ◌≡◌, ◌≢◌, refl, true, some, List, [], ◌∷◌, map, any, find, text_eq_iff, arith, is_some,
}
use zz_drop.Profile.{PlainProfile}
use zz_drop.Profile.Container.{
  ProfileSet, has_alias, contains_alias, find_by_alias, find_by_alias_mut, replace_first, aliases,
}

find-has_alias :
    (alias : Text) (ps : List PlainProfile) (p : PlainProfile)
    → find (has_alias alias) ps ≡ some p
    → p.alias ≡ alias
find-has_alias alias [] p h = cc
find-has_alias alias (q ∷ ps) p h =
    ground (arith, text_eq_iff q.alias alias, find-has_alias alias ps p)

pub find_by_alias-alias :
    (s : ProfileSet) (alias : Text) (p : PlainProfile)
    → find_by_alias s alias ≡ some p
    → p.alias ≡ alias
unfolding find_by_alias
find_by_alias-alias s alias p h = find-has_alias alias s.profiles p h

any-find :
    (alias : Text) (ps : List PlainProfile)
    → is_some (find (has_alias alias) ps) ≡ any (has_alias alias) ps
any-find alias [] = refl
any-find alias (q ∷ ps) = ground (arith, any-find alias ps)

pub is_some-find_by_alias :
    (s : ProfileSet) (alias : Text) → is_some (find_by_alias s alias) ≡ contains_alias s alias
unfolding find_by_alias contains_alias
is_some-find_by_alias s alias = any-find alias s.profiles

find-replace_first :
    (profile : PlainProfile) (ps : List PlainProfile)
    → is_some (find (has_alias profile.alias) ps) ≡ true
    → find (has_alias profile.alias) (replace_first profile.alias profile ps) ≡ some profile
unfolding replace_first
find-replace_first profile [] h = cc
find-replace_first profile (q ∷ ps) h = ground (
  arith,
  text_eq_iff q.alias profile.alias,
  text_eq_iff profile.alias profile.alias,
  find-replace_first profile ps,
)

find-replace_first_ne :
    (profile : PlainProfile) (other : Text) (ps : List PlainProfile)
    → other ≢ profile.alias
    → find (has_alias other) (replace_first profile.alias profile ps) ≡ find (has_alias other) ps
unfolding replace_first
find-replace_first_ne profile other [] h = refl
find-replace_first_ne profile other (q ∷ ps) h = ground (
  arith,
  text_eq_iff q.alias profile.alias,
  text_eq_iff q.alias other,
  text_eq_iff profile.alias other,
  find-replace_first_ne profile other ps,
)

map-replace_first :
    (profile : PlainProfile) (ps : List PlainProfile)
    → map (λ (p : PlainProfile). p.alias) (replace_first profile.alias profile ps)
      ≡ map (λ (p : PlainProfile). p.alias) ps
unfolding replace_first
map-replace_first profile [] = refl
map-replace_first profile (q ∷ ps) =
    ground (arith, text_eq_iff q.alias profile.alias, map-replace_first profile ps)

-- Replacing the inner profile of some alias makes a lookup of that alias find the new profile, and
-- changes neither a lookup of another alias nor the list of aliases.
pub find_by_alias-find_by_alias_mut :
    (s t : ProfileSet) (profile : PlainProfile) (other : Text)
    → find_by_alias_mut s profile.alias profile ≡ some t
    → other ≢ profile.alias
    → (find_by_alias t profile.alias ≡ some profile)
      × (find_by_alias t other ≡ find_by_alias s other)
      × (aliases t ≡ aliases s)
unfolding find_by_alias_mut find_by_alias
find_by_alias-find_by_alias_mut s t profile other h ne = ground (
  arith,
  find-replace_first profile s.profiles,
  find-replace_first_ne profile other s.profiles,
  map-replace_first profile s.profiles,
)

any-replace_first :
    (profile : PlainProfile) (other : Text) (ps : List PlainProfile)
    → any (has_alias other) (replace_first profile.alias profile ps) ≡ any (has_alias other) ps
unfolding replace_first
any-replace_first profile other [] = refl
any-replace_first profile other (q ∷ ps) = ground (
  arith,
  text_eq_iff q.alias profile.alias,
  text_eq_iff q.alias other,
  text_eq_iff profile.alias other,
  any-replace_first profile other ps,
)

pub contains_alias-find_by_alias_mut :
    (s t : ProfileSet) (profile : PlainProfile) (other : Text)
    → find_by_alias_mut s profile.alias profile ≡ some t
    → contains_alias t other ≡ contains_alias s other
unfolding find_by_alias_mut contains_alias
contains_alias-find_by_alias_mut s t profile other h =
    ground (arith, any-replace_first profile other s.profiles)

pub find_by_alias_mut-find :
    (s t : ProfileSet) (profile : PlainProfile)
    → find_by_alias_mut s profile.alias profile ≡ some t
    → find_by_alias t profile.alias ≡ some profile
unfolding find_by_alias_mut find_by_alias
find_by_alias_mut-find s t profile h = ground (arith, find-replace_first profile s.profiles)

pub find_by_alias_mut-some :
    (s : ProfileSet) (profile : PlainProfile)
    → contains_alias s profile.alias ≡ true
    → is_some (find_by_alias_mut s profile.alias profile) ≡ true
unfolding find_by_alias_mut
find_by_alias_mut-some s profile h = ground (arith, is_some-find_by_alias s profile.alias)
