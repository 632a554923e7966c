-- ===== src/Profile/Container.antt =====
-- core/src/profile/set.rs: the container of inner profiles.
pub mod Lookup
use zz_drop.Prelude.{
  ℕ, Text, ◌≡◌, refl, Bool, true, false, Option, none, some, List, [], ◌∷◌, map, any, find, length,
  text_eq, text_eq_iff, is_some, if◌then◌else◌, arith,
}
use zz_drop.Profile.{PlainProfile}

abbrev pub profile_set_schema_v2 : ℕ
profile_set_schema_v2 = 2

pub record ProfileSet : Type 0 where
  pub schema_version : ℕ
  pub profiles : List PlainProfile

abbrev pub new : ProfileSet
new = record { schema_version = profile_set_schema_v2; profiles = [] }

abbrev pub with_profile : PlainProfile → ProfileSet
with_profile p = record { schema_version = profile_set_schema_v2; profiles = p ∷ [] }

abbrev pub is_empty : ProfileSet → Bool
is_empty s = elim s.profiles [ [] ↦ true | _ ∷ _ ↦ false ]

abbrev pub len : ProfileSet → ℕ
len s = length s.profiles

abbrev pub has_alias : Text → PlainProfile → Bool
has_alias alias p = text_eq p.alias alias

unfoldable pub contains_alias : ProfileSet → Text → Bool
contains_alias s alias = any (has_alias alias) s.profiles

unfoldable pub find_by_alias : ProfileSet → Text → Option PlainProfile
find_by_alias s alias = find (has_alias alias) s.profiles

abbrev pub aliases : ProfileSet → List Text
aliases s = map (λ p. p.alias) s.profiles

unfoldable pub replace_first : Text → PlainProfile → List PlainProfile → List PlainProfile
replace_first alias new_profile [] = []
replace_first alias new_profile (p ∷ ps) =
    if has_alias alias p then new_profile ∷ ps else p ∷ replace_first alias new_profile ps

-- `*set.find_by_alias_mut(alias)? = profile`
unfoldable pub find_by_alias_mut : ProfileSet → Text → PlainProfile → Option ProfileSet
unfolding replace_first find_by_alias
find_by_alias_mut s alias profile = elim (find_by_alias s alias) [
  | none ↦ none
  | some _ ↦ some (record s { profiles = replace_first alias profile s.profiles })
]
