-- ===== src/Prelude/Segments.antt =====
-- Splitting, trimming and joining paths: lemmas that the components share.
use zz_drop.Prelude.{
  ℕ, ◌≡◌, ◌≢◌, refl, ap, ◌∙◌, Text, true, false, List, [], ◌∷◌, ◌++◌, ◌==◌, All, arith, retain,
  trim_start, trim_end, trim_matches, split, join, ends_with, contains, keep_segment, segments,
  cons_head, text_eq_iff, Bool-cases, inl, inr,
}

-- a segment that the filter keeps, with no separator in it
abbrev pub IsClean : Text → Type 0
IsClean w = (contains b'/' w ≡ false) × (keep_segment w ≡ true)

pub split_self : (c : ℕ) (w : Text) → contains c w ≡ false → split c w ≡ w ∷ []
unfolding split contains
split_self c [] h = refl
split_self c (x ∷ w) h = ground (arith, split_self c w)

pub split-append :
    (c : ℕ) (w rest : Text) → contains c w ≡ false → split c (w ++ c ∷ rest) ≡ w ∷ split c rest
unfolding split contains
split-append c [] rest h = ground arith
split-append c (x ∷ w) rest h = ground (arith, split-append c w rest)

pub split-join :
    (c : ℕ) (w : Text) (ws : List Text)
    → contains c w ≡ false
    → All (λ v. contains c v ≡ false) ws
    → split c (join c (w ∷ ws)) ≡ w ∷ ws
unfolding join
split-join c w [] h hs = split_self c w h
split-join c w (v ∷ ws) h (hv, hs) =
    split-append c w (join c (v ∷ ws)) h ∙ ap (◌∷◌ w) (split-join c v ws hv hs)

contains-cons_head :
    (c x : ℕ) (ws : List Text)
    → (x == c) ≡ false
    → All (λ w. contains c w ≡ false) ws
    → All (λ w. contains c w ≡ false) (cons_head x ws)
unfolding contains
contains-cons_head c x [] h hs = ground arith
contains-cons_head c x (w ∷ ws) h (hw, hs) = (ground arith, hs)

pub contains-split : (c : ℕ) (s : Text) → All (λ w. contains c w ≡ false) (split c s)
unfolding split contains
contains-split c [] = (refl, tt)
contains-split c (x ∷ s) = elim (Bool-cases (x == c)) [
  | inl e ↦ rw e (refl, contains-split c s)
  | inr e ↦ rw e (contains-cons_head c x (split c s) e (contains-split c s))
]

pub ends_with-append :
    (c : ℕ) (w : Text) (x : ℕ) (v : Text) → ends_with c (w ++ x ∷ v) ≡ ends_with c (x ∷ v)
unfolding ends_with
ends_with-append c [] x v = refl
ends_with-append c (y ∷ []) x v = refl
ends_with-append c (y ∷ z ∷ w) x v = ends_with-append c (z ∷ w) x v

pub ends_with-contains : (c : ℕ) (w : Text) → contains c w ≡ false → ends_with c w ≡ false
unfolding ends_with contains
ends_with-contains c [] h = refl
ends_with-contains c (x ∷ []) h = ground arith
ends_with-contains c (x ∷ y ∷ w) h = ground (arith, ends_with-contains c (y ∷ w))

pub trim_end_self : (c : ℕ) (s : Text) → ends_with c s ≡ false → trim_end c s ≡ s
unfolding trim_end ends_with
trim_end_self c [] h = refl
trim_end_self c (x ∷ []) h = ground arith
trim_end_self c (x ∷ y ∷ s) h = ground (arith, trim_end_self c (y ∷ s) h)

keep_segment-ne-nil : (w : Text) → keep_segment w ≡ true → w ≢ []
keep_segment-ne-nil w h e = ground (arith, text_eq_iff w [])

-- a clean path neither begins nor ends with the separator
pub ends_with-join :
    (w : Text) (ws : List Text)
    → IsClean w
    → All IsClean ws
    → ends_with b'/' (join b'/' (w ∷ ws)) ≡ false
unfolding join ends_with
ends_with-join w [] h hs = ends_with-contains b'/' w h.0
ends_with-join w ([] ∷ ws) h (hv, hs) = absurd (keep_segment-ne-nil [] hv.1 refl)
ends_with-join w ((x ∷ v) ∷ []) h (hv, hs) =
    ends_with-append b'/' w b'/' (x ∷ v) ∙ ends_with-join (x ∷ v) [] hv hs
ends_with-join w ((x ∷ v) ∷ u ∷ us) h (hv, hs) =
    ends_with-append b'/' w b'/' _ ∙ ends_with-join (x ∷ v) (u ∷ us) hv hs

trim_start-join :
    (w : Text) (ws : List Text)
    → IsClean w
    → trim_start b'/' (join b'/' (w ∷ ws)) ≡ join b'/' (w ∷ ws)
unfolding join trim_start contains
trim_start-join [] ws h = absurd (keep_segment-ne-nil [] h.1 refl)
trim_start-join (x ∷ w) [] h = ground arith
trim_start-join (x ∷ w) (v ∷ ws) h = ground arith

pub retain_self : (w : List Text) → All IsClean w → retain keep_segment w ≡ w
retain_self [] h = refl
retain_self (w ∷ ws) (h, hs) = ground (arith, retain_self ws hs)

no_separators : (ws : List Text) → All IsClean ws → All (λ w. contains b'/' w ≡ false) ws
no_separators [] h = tt
no_separators (w ∷ ws) (h, hs) = (h.0, no_separators ws hs)

-- A clean path is read back as the segments that it was joined from.
pub segments-join :
    (w : Text) (ws : List Text)
    → IsClean w
    → All IsClean ws
    → segments (join b'/' (w ∷ ws)) ≡ w ∷ ws
unfolding segments trim_matches
segments-join w ws h hs =
    rw
      (
        trim_start-join w ws h,
        trim_end_self b'/' (join b'/' (w ∷ ws)) (ends_with-join w ws h hs),
        split-join b'/' w ws h.0 (no_separators ws hs),
      )
      (retain_self (w ∷ ws) (h, hs))

retain-IsClean :
    (ws : List Text) → All (λ w. contains b'/' w ≡ false) ws → All IsClean (retain keep_segment ws)
retain-IsClean [] h = tt
retain-IsClean (w ∷ ws) (h, hs) = elim (Bool-cases (keep_segment w)) [
  | inl e ↦ rw e ((h, e), retain-IsClean ws hs)
  | inr e ↦ rw e (retain-IsClean ws hs)
]

-- Whatever text is given, its segments are clean.
pub segments-IsClean : (p : Text) → All IsClean (segments p)
unfolding segments
segments-IsClean p = retain-IsClean _ (contains-split b'/' (trim_matches b'/' p))
