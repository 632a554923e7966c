-- ===== src/Tests/Remote.antt =====
-- Remote names: runs of the model, and the theorems at concrete names.
use zz_drop.Prelude.{
  ℕ, ◌≡◌, ◌≢◌, ◌<◌, ◌+◌, ◌/◌, ◌%◌, refl, Text, codes, Bool, true, false, some, [], ◌∷◌, ltb,
  if◌then◌else◌, contains, ok, err, arith, text_eq, split, trim_matches, trim_start, trim_end,
  Bool-cases, inl, inr, split_last,
}
use zz_drop.Providers.Nextcloud.Paths.{
  PathError, encode_remote_root, encode_path, encode_rest, validate_filename,
}
use zz_drop.Providers.Nextcloud.Paths.Safe.{
  Encodes, in_escape, RootRequest, encode_remote_root-RootRequest,
}
use zz_drop.Providers.Nextcloud.Collision.{
  civil_from_days, iso_basic_utc, padded, decimal_on, rename_with_suffix_at, attempt_suffix,
  file_name, around_dot, stem_and_extension,
}
use zz_drop.Providers.Nextcloud.Collision.Calendar.{next_day, civil_from_days_lem}
use zz_drop.Providers.Nextcloud.Collision.Names.{rename_with_suffix_at_distinct}

-- a percent encoding
abbrev digit : ℕ → ℕ
digit d = if ltb d 10 then 48 + d else 55 + d

abbrev percent : (ℕ → Bool) → Text → Text
percent set [] = []
percent set (c ∷ cs) =
    if set c
    then b'%' ∷ digit ((c / 16) % 16) ∷ digit (c % 16) ∷ percent set cs
    else c ∷ percent set cs

percent-removes :
    (set : ℕ → Bool) (c : ℕ) (t : Text)
    → set c ≡ true
    → c < 128
    → in_escape c ≡ false
    → contains c (percent set t) ≡ false
unfolding contains
percent-removes set c [] reserved ascii other = refl
percent-removes set c (x ∷ t) reserved ascii other = elim (Bool-cases (set x)) [
  | inl away ↦ rw away (ground (arith, percent-removes set c t reserved ascii other))
  | inr stays ↦ rw stays (ground (arith, percent-removes set c t reserved ascii other))
]

percent-no_slash :
    (set : ℕ → Bool) (t : Text) → contains b'/' t ≡ false → contains b'/' (percent set t) ≡ false
unfolding contains
percent-no_slash set [] h = refl
percent-no_slash set (x ∷ t) h = elim (Bool-cases (set x)) [
  | inl away ↦ rw away (ground (arith, percent-no_slash set t))
  | inr stays ↦ rw stays (ground (arith, percent-no_slash set t))
]

percent-Encodes : Encodes percent
percent-Encodes = record { removes = percent-removes; no_slash = percent-no_slash }

root_encoded : encode_remote_root percent (codes "/zz drop/") ≡ ok (codes "/zz%20drop")
unfolding encode_remote_root encode_path encode_rest validate_filename trim_matches trim_start
    trim_end split text_eq contains
root_encoded = refl

upward : encode_remote_root percent (codes "/a/../b") ≡ err PathError.parent_reference
unfolding encode_remote_root encode_path encode_rest validate_filename trim_matches trim_start
    trim_end split text_eq contains
upward = refl

encode_remote_root-RootRequest_example :
    RootRequest percent percent-Encodes (codes "/zz drop/") (codes "/zz%20drop")
encode_remote_root-RootRequest_example =
    encode_remote_root-RootRequest percent percent-Encodes (codes "/zz drop/") (codes "/zz%20drop")
      root_encoded

leap_day : iso_basic_utc 1709210096 ≡ codes "20240229T123456Z"
unfolding iso_basic_utc civil_from_days padded decimal_on
leap_day = refl

civil_from_days_lem_example :
    (civil_from_days 0 ≡ record { year = 1970; month = 1; day = 1 })
    × (civil_from_days 19783 ≡ next_day (civil_from_days 19782))
civil_from_days_lem_example = civil_from_days_lem 19782

renamed : rename_with_suffix_at (codes "foo.md") 2 1714719600 ≡ codes "foo-20240503T070000Z-2.md"
unfolding rename_with_suffix_at file_name split split_last text_eq stem_and_extension around_dot
    attempt_suffix iso_basic_utc civil_from_days padded decimal_on
renamed = refl

rename_with_suffix_at_distinct_example :
    rename_with_suffix_at (codes "foo.md") 2 1714719600
    ≢ rename_with_suffix_at (codes "foo.md") 3 1714719601
rename_with_suffix_at_distinct_example =
    rename_with_suffix_at_distinct (codes "foo.md") 2 3 1714719600 1714719601 (omega arith)
      (omega arith) (omega arith)

named : file_name (codes "foo.md") ≡ some (codes "foo.md")
unfolding file_name split split_last text_eq
named = refl

parts : stem_and_extension (codes "foo.md") ≡ (codes "foo", some (codes "md"))
unfolding stem_and_extension around_dot
parts = refl
