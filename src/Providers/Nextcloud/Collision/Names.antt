-- ===== src/Providers/Nextcloud/Collision/Names.antt =====
-- The names that a collision leads to.
use zz_drop.Prelude.{
  codes, contains, if◌then◌else◌, ℕ, zero, suc, ◌-◌, take, take-length-append, ◌+◌, ◌*◌, ◌/◌, ◌%◌,
  ◌<◌, ◌≡◌, ◌≢◌, refl, sym, ap, subst, ◌∙◌, Text, false, [], ◌∷◌, ◌++◌, ◌==◌, ltb, length,
  length-append, arith, append_assoc, append-nil, Bool-cases, Option-cases, inl, inr,
}
use zz_drop.Providers.Nextcloud.Collision.{
  decimal_on, decimal, stem_and_extension, file_name, iso_basic_utc, zeros, padded, civil_from_days,
  attempt_suffix, rename_with_suffix_at,
}

-- the number that digits stand for
unfoldable number_on : ℕ → Text → ℕ
number_on acc [] = acc
number_on acc (d ∷ ds) = number_on (acc * 10 + d - 48) ds

number_on-append :
    (acc : ℕ) (ds : Text) (d : ℕ) → number_on acc (ds ++ d ∷ []) ≡ number_on acc ds * 10 + d - 48
unfolding number_on
number_on-append acc [] d = refl
number_on-append acc (x ∷ ds) d = number_on-append (acc * 10 + x - 48) ds d

number-decimal_on : (fuel n : ℕ) → n < fuel → number_on 0 (decimal_on fuel n) ≡ n
unfolding number_on decimal_on
number-decimal_on zero n h = omega arith
number-decimal_on (suc fuel) n h = elim (Bool-cases (ltb n 10)) [
  | inl small ↦ rw small (omega arith)
  | inr large ↦
      let front = number-decimal_on fuel (n / 10) (ground arith) in
      rw (large, number_on-append 0 (decimal_on fuel (n / 10)) (48 + n % 10), front) (omega arith)
]

decimal_injective : (n m : ℕ) → decimal n ≡ decimal m → n ≡ m
decimal_injective n m h =
    sym (number-decimal_on (suc n) n (omega arith))
    ∙ ap (number_on 0) h
    ∙ number-decimal_on (suc m) m (omega arith)

append_cancel : (p a b : Text) → p ++ a ≡ p ++ b → a ≡ b
append_cancel [] a b h = h
append_cancel (x ∷ p) a b h = append_cancel p a b (ground arith)

append_cancel_right : (a b q : Text) → a ++ q ≡ b ++ q → a ≡ b
append_cancel_right a b q h =
    let lengths : length (a ++ q) ≡ length (b ++ q) = ap length h in
    let same : length a ≡ length b = omega (arith, length-append a q, length-append b q) in
    sym (take-length-append a q)
    ∙ ap (take (length a)) h
    ∙ subst (λ n. take n (b ++ q) ≡ b) (sym same) (take-length-append b q)

contains-append :
    (c : ℕ) (a b : Text) → contains c a ≡ false → contains c b ≡ false → contains c (a ++ b) ≡ false
unfolding contains
contains-append c [] b h k = k
contains-append c (x ∷ a) b h k = ground (arith, contains-append c a b)

-- no digits hold a `Z`
contains-decimal_on : (fuel n : ℕ) → contains b'Z' (decimal_on fuel n) ≡ false
unfolding decimal_on contains
contains-decimal_on zero n = refl
contains-decimal_on (suc fuel) n = elim (Bool-cases (ltb n 10)) [
  | inl small ↦ rw small (ground arith)
  | inr large ↦ rw large (
      contains-append b'Z' (decimal_on fuel (n / 10)) _ (contains-decimal_on fuel (n / 10))
        (ground arith))
]

contains-zeros : (n : ℕ) → contains b'Z' (zeros n) ≡ false
unfolding contains
contains-zeros zero = refl
contains-zeros (suc n) = ground (arith, contains-zeros n)

contains-padded : (width n : ℕ) → contains b'Z' (padded width n) ≡ false
unfolding padded
contains-padded width n =
    contains-append b'Z' (zeros (width - length (decimal n))) (decimal n)
      (contains-zeros (width - length (decimal n))) (contains-decimal_on (suc n) n)

-- what stands behind the first `Z`
unfoldable behind_z : Text → Text
behind_z [] = []
behind_z (c ∷ cs) = let rest = behind_z cs in if c == b'Z' then cs else rest

behind_z-append :
    (front rest : Text) → contains b'Z' front ≡ false → behind_z (front ++ b'Z' ∷ rest) ≡ rest
unfolding behind_z contains
behind_z-append [] rest h = refl
behind_z-append (c ∷ front) rest h = ground (arith, behind_z-append front rest)

contains-t : contains b'Z' (codes "T") ≡ false
unfolding contains
contains-t = refl

-- A timestamp ends at its only `Z`.
iso_basic_utc-front :
    (epoch_secs : ℕ)
    → (front : Text) × (iso_basic_utc epoch_secs ≡ front ++ b'Z' ∷ [])
      × (contains b'Z' front ≡ false)
unfolding iso_basic_utc
iso_basic_utc-front t =
    let date = civil_from_days (t / 86400) in
    let join_plain = contains-append b'Z' in
    (
      _,
      refl,
      join_plain _ _
          (join_plain _ _
            (join_plain _ _
              (join_plain _ _
                (join_plain _ _
                  (join_plain _ _ (contains-padded 4 _) (contains-padded 2 date.month))
                  (contains-padded 2 date.day))
                contains-t)
              (contains-padded 2 _))
            (contains-padded 2 _))
          (contains-padded 2 _),
    )

-- what follows the timestamp in a suffix
abbrev counter : ℕ → Text
counter n = if n == 1 then [] else b'-' ∷ decimal n

behind_z-attempt_suffix : (n t : ℕ) → behind_z (attempt_suffix n t) ≡ counter n
unfolding attempt_suffix
behind_z-attempt_suffix n t =
    let (front, e, plain) = iso_basic_utc-front t in
    elim (Bool-cases (n == 1)) [
      | inl first ↦
          rw (first, e)
            (behind_z-append (b'-' ∷ front) [] (unfold contains in ground (arith, plain)))
      | inr later ↦
          rw (later, e, append_assoc front (b'Z' ∷ []) (b'-' ∷ decimal n))
            (behind_z-append (b'-' ∷ front) (b'-' ∷ decimal n)
              (unfold contains in ground (arith, plain)))
    ]

counter_injective : (n m : ℕ) → counter n ≡ counter m → n ≡ m
counter_injective n m h = ground (arith, decimal_injective n m)

-- The suffix of an attempt tells its number, at whatever time it was made.
attempt_suffix_injective : (n m t u : ℕ) → attempt_suffix n t ≡ attempt_suffix m u → n ≡ m
attempt_suffix_injective n m t u h =
    counter_injective n m
      (sym (behind_z-attempt_suffix n t) ∙ ap behind_z h ∙ behind_z-attempt_suffix m u)

pub nonzero : (n : ℕ) → n ≢ 0 → (n == 0) ≡ false
nonzero n h = ground arith

-- Where the suffix goes depends on the name alone.
place_of_suffix :
    (original : Text)
    → (front : Text) × ((back : Text) × ((n epoch_secs : ℕ)
          → n ≢ 0
          → rename_with_suffix_at original n epoch_secs
            ≡ front ++ (attempt_suffix n epoch_secs ++ back)))
unfolding rename_with_suffix_at
place_of_suffix original = elim (Option-cases (file_name original)) [
  | inl nameless ↦ (
    original,
    ([], λ n t positive. rw (nonzero n positive, nameless, rename_with_suffix_at, append-nil) refl),
  )
  | inr (name, named) ↦ elim (Option-cases (stem_and_extension name).1) [
    | inl plain ↦ (
      (stem_and_extension name).0,
      (
        [],
        λ n t positive.
            rw (nonzero n positive, named, rename_with_suffix_at, plain, append-nil) refl,
      ),
    )
    | inr (e, extended) ↦ (
      (stem_and_extension name).0,
      (
        b'.' ∷ e,
        λ n t positive. rw (nonzero n positive, named, rename_with_suffix_at, extended) refl,
      ),
    )
  ]
]

-- Two attempts after the first, with different numbers, propose different names for the same file,
-- whatever the clock says at each of them.
pub rename_with_suffix_at_distinct :
    (original : Text) (n m t u : ℕ)
    → n ≢ 0
    → m ≢ 0
    → n ≢ m
    → rename_with_suffix_at original n t ≢ rename_with_suffix_at original m u
rename_with_suffix_at_distinct original n m t u n0 m0 other h =
    let (front, (back, place)) = place_of_suffix original in
    other (
      attempt_suffix_injective n m t u (
        append_cancel_right (attempt_suffix n t) (attempt_suffix m u) back (
          append_cancel front (attempt_suffix n t ++ back) (attempt_suffix m u ++ back)
            (sym (place n t n0) ∙ h ∙ place m u m0))))
