-- ===== src/Providers/Nextcloud/Collision/Calendar.antt =====
-- The Gregorian calendar, day by day.
use zz_drop.Prelude.{
  ℕ, suc, Bool, true, false, not, ◌&&◌, ◌||◌, ◌==◌, ltb, leb, if◌then◌else◌, ◌≡◌, ◌≤◌, ◌<◌, ◌+◌,
  ◌-◌, ◌*◌, ◌/◌, ◌%◌, arith, refl, subst, sym, ◌⊎◌, inl, inr,
}
use zz_drop.Providers.Nextcloud.Collision.{Civil, civil_from_days}

abbrev pub is_leap : ℕ → Bool
is_leap y = (y % 4 == 0 && not (y % 100 == 0)) || y % 400 == 0

abbrev pub days_in_month : (year month : ℕ) → ℕ
days_in_month y m =
    if m == 2
    then (if is_leap y then 29 else 28)
    else if m == 4 || m == 6 || m == 9 || m == 11
    then 30
    else 31

abbrev pub next_day : Civil → Civil
next_day c =
    if ltb c.day (days_in_month c.year c.month)
    then record c { day = c.day + 1 }
    else if ltb c.month 12
    then record { year = c.year; month = c.month + 1; day = 1 }
    else record { year = c.year + 1; month = 1; day = 1 }

-- the last steps of `civil_from_days`
abbrev date_of : (era yoe doy : ℕ) → Civil
date_of era yoe doy =
    let mp = (5 * doy + 2) / 153 in
    let month = if ltb mp 10 then mp + 3 else mp - 9 in
    record {
      year = if leb month 2 then yoe + era * 400 + 1 else yoe + era * 400;
      month = month;
      day = doy - (153 * mp + 2) / 5 + 1;
    }

date_of-suc :
    (era yoe doy : ℕ)
    → doy ≤ 364
    → (365 ≤ suc doy → is_leap (yoe + era * 400 + 1) ≡ true)
    → date_of era yoe (suc doy) ≡ next_day (date_of era yoe doy)
date_of-suc era yoe doy small leap = ground arith

date_of-last :
    (era yoe : ℕ)
    → is_leap (yoe + era * 400 + 1) ≡ false
    → date_of era (yoe + 1) 0 ≡ next_day (date_of era yoe 364)
date_of-last era yoe leap = ground arith

date_of-leap_last : (era yoe : ℕ) → date_of era (yoe + 1) 0 ≡ next_day (date_of era yoe 365)
date_of-leap_last era yoe = ground arith

date_of-era_last : (era : ℕ) → date_of (era + 1) 0 0 ≡ next_day (date_of era 399 365)
date_of-era_last era = ground arith

abbrev year_of : ℕ → ℕ
year_of doe = (doe - doe / 1460 + doe / 36524 - doe / 146096) / 365

abbrev start_of : ℕ → ℕ
start_of yoe = 365 * yoe + yoe / 4 - yoe / 100

abbrev dated : (era doe : ℕ) → Civil
dated era doe = date_of era (year_of doe) (doe - start_of (year_of doe))

-- Days inside an era.
module _ (era doe : ℕ) (small : suc doe < 146097) where
  same_year : year_of (suc doe) ≡ year_of doe → dated era (suc doe) ≡ next_day (dated era doe)
  same_year same =
      let yoe = year_of doe in
      let doy = doe - start_of yoe in
      let later : suc doe - start_of (year_of (suc doe)) ≡ suc doy = omega arith in
      let inside : doy ≤ 364 = omega arith in
      let leap : (365 ≤ suc doy → is_leap (yoe + era * 400 + 1) ≡ true) = ground arith in
      subst
        (λ y.
          date_of era y (suc doe - start_of (year_of (suc doe))) ≡ next_day (date_of era yoe doy))
        (sym same)
        (subst (λ x. date_of era yoe x ≡ next_day (date_of era yoe doy)) (sym later)
          (date_of-suc era yoe doy inside leap))

  next_year : year_of (suc doe) ≡ year_of doe + 1 → dated era (suc doe) ≡ next_day (dated era doe)
  next_year next =
      let yoe = year_of doe in
      let doy = doe - start_of yoe in
      let first : suc doe - start_of (year_of (suc doe)) ≡ 0 = omega arith in
      let last : (doy ≡ 365) ⊎ ((doy ≡ 364) × (is_leap (yoe + era * 400 + 1) ≡ false)) =
        ground arith in
      subst
        (λ y.
          date_of era y (suc doe - start_of (year_of (suc doe))) ≡ next_day (date_of era yoe doy))
        (sym next)
        (subst (λ x. date_of era (yoe + 1) x ≡ next_day (date_of era yoe doy)) (sym first)
          (elim last [
            | inl h ↦
                subst (λ x. date_of era (yoe + 1) 0 ≡ next_day (date_of era yoe x)) (sym h)
                  (date_of-leap_last era yoe)
            | inr (h, no_leap) ↦
                subst (λ x. date_of era (yoe + 1) 0 ≡ next_day (date_of era yoe x)) (sym h)
                  (date_of-last era yoe no_leap)
          ]))

  year_cases : (year_of (suc doe) ≡ year_of doe) ⊎ (year_of (suc doe) ≡ year_of doe + 1)
  year_cases = ground arith

  dated-suc : dated era (suc doe) ≡ next_day (dated era doe)
  dated-suc = elim year_cases [ inl h ↦ same_year h | inr h ↦ next_year h ]

-- The next day is in the same era, or begins the next.
day_cases :
    (days : ℕ)
    → let z = days + 719468 in
      let era = z / 146097 in
      let doe = z - era * 146097 in
      ((suc doe < 146097)
        × ((suc days + 719468) / 146097 ≡ era)
        × (suc days + 719468 - era * 146097 ≡ suc doe))
      ⊎ ((doe ≡ 146096)
          × ((suc days + 719468) / 146097 ≡ era + 1)
          × (suc days + 719468 - (era + 1) * 146097 ≡ 0))
day_cases days = ground arith

-- Day 0 is 1970-01-01, and the date of each later day is the Gregorian calendar's next day after the
-- date of the day before.
pub civil_from_days_lem :
    (days : ℕ)
    → (civil_from_days 0 ≡ record { year = 1970; month = 1; day = 1 })
      × (civil_from_days (suc days) ≡ next_day (civil_from_days days))
unfolding civil_from_days
civil_from_days_lem days =
    let z = days + 719468 in
    let era = z / 146097 in
    let doe = z - era * 146097 in
    (
      refl,
      elim (day_cases days) [
        | inl (small, same_era, next_doe) ↦
            subst (λ e. dated e (suc days + 719468 - e * 146097) ≡ next_day (dated era doe))
              (sym same_era)
              (subst (λ x. dated era x ≡ next_day (dated era doe)) (sym next_doe)
                (dated-suc era doe small))
        | inr (last, next_era, first) ↦
            subst (λ e. dated e (suc days + 719468 - e * 146097) ≡ next_day (dated era doe))
              (sym next_era)
              (subst (λ x. dated (era + 1) x ≡ next_day (dated era doe)) (sym first)
                (subst (λ x. dated (era + 1) 0 ≡ next_day (dated era x)) (sym last)
                  (date_of-era_last era)))
      ],
    )
