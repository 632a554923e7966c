-- ===== src/Providers/Nextcloud/Collision.antt =====
-- core/src/providers/nextcloud/collision.rs: the names that are tried when a file is already there.
-- The clock is an argument, a `u64` of seconds.
pub mod Calendar
pub mod Names
pub mod Extension
use zz_drop.Prelude.{
  ℕ, zero, suc, ◌+◌, ◌-◌, ◌*◌, ◌/◌, ◌%◌, ◌^◌, Text, codes, Bool, true, false, not, ◌&&◌, ◌||◌,
  Option, none, some, List, [], ◌∷◌, ◌++◌, ◌==◌, ltb, leb, text_eq, is_nil, split, retain,
  split_last, length, if◌then◌else◌,
}

-- `{n}` of `format!`: the decimal digits of a number; `fuel` is more than the digits
unfoldable pub decimal_on : (fuel : ℕ) → ℕ → Text
decimal_on zero n = []
decimal_on (suc fuel) n =
    let front = decimal_on fuel (n / 10) in
    if ltb n 10 then (48 + n) ∷ [] else front ++ (48 + n % 10) ∷ []

abbrev pub decimal : ℕ → Text
decimal n = decimal_on (suc n) n

abbrev pub zeros : ℕ → Text
zeros zero = []
zeros (suc n) = 48 ∷ zeros n

-- `{n:0width}`
unfoldable pub padded : (width n : ℕ) → Text
unfolding decimal_on
padded width n = let text = decimal n in zeros (width - length text) ++ text

pub record Civil : Type 0 where
  pub year : ℕ
  pub month : ℕ
  pub day : ℕ

-- the days since 1970-01-01 as a date; `z` is never negative, since the epoch is a `u64`
unfoldable pub civil_from_days : ℕ → Civil
civil_from_days days =
    let z = days + 719468 in
    let era = z / 146097 in
    let doe = z - era * 146097 in
    let yoe = (doe - doe / 1460 + doe / 36524 - doe / 146096) / 365 in
    let doy = doe - (365 * yoe + yoe / 4 - yoe / 100) in
    let mp = (5 * doy + 2) / 153 in
    let month = if ltb mp 10 then mp + 3 else mp - 9 in
    record {
      year = if leb month 2 then yoe + era * 400 + 1 else yoe + era * 400;
      month = month;
      day = doy - (153 * mp + 2) / 5 + 1;
    }

-- `year as u32` wraps
unfoldable pub iso_basic_utc : (epoch_secs : ℕ) → Text
iso_basic_utc epoch_secs =
    let date = civil_from_days (epoch_secs / 86400) in
    padded 4 (date.year % 2 ^ 32)
    ++ padded 2 date.month
    ++ padded 2 date.day
    ++ codes "T"
    ++ padded 2 ((epoch_secs / 3600) % 24)
    ++ padded 2 ((epoch_secs / 60) % 60)
    ++ padded 2 (epoch_secs % 60)
    ++ codes "Z"

-- `Path::file_name` on Unix: the last component, unless there is none or it is `..`
abbrev pub is_component : Text → Bool
is_component part = not (is_nil part) && not (text_eq part (codes "."))

unfoldable pub file_name : Text → Option Text
file_name path = elim (split_last (retain is_component (split b'/' path))) [
  | none ↦ none
  | some (_, last) ↦ if text_eq last (codes "..") then none else some last
]

-- the text around its last dot
unfoldable pub around_dot : Text → Option (Text × Text)
around_dot [] = none
around_dot (c ∷ cs) = elim (around_dot cs) [
  | some (before, after) ↦ some (c ∷ before, after)
  | none ↦ if c == b'.' then some ([], cs) else none
]

-- `Path::file_stem` and `Path::extension`
unfoldable pub stem_and_extension : Text → Text × Option Text
stem_and_extension name = elim (around_dot name) [
  | none ↦ (name, none)
  | some (before, after) ↦ if is_nil before then (name, none) else (before, some after)
]

unfoldable pub attempt_suffix : (n : ℕ) → (epoch_secs : ℕ) → Text
attempt_suffix n epoch_secs =
    let timestamp = iso_basic_utc epoch_secs in
    if n == 1 then b'-' ∷ timestamp else b'-' ∷ (timestamp ++ b'-' ∷ decimal n)

abbrev pub with_suffix : Text → Text × Option Text → Text
with_suffix suffix (stem, some e) = stem ++ (suffix ++ b'.' ∷ e)
with_suffix suffix (stem, none) = stem ++ suffix

unfoldable pub rename_with_suffix_at : (original : Text) → (n epoch_secs : ℕ) → Text
rename_with_suffix_at original n epoch_secs =
    let suffix = attempt_suffix n epoch_secs in
    if n == 0 then original else elim (file_name original) [
      | none ↦ original ++ suffix
      | some name ↦ with_suffix suffix (stem_and_extension name)
    ]
