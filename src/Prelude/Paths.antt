-- ===== src/Prelude/Paths.antt =====
-- The operations of `str` that the program uses on slash-separated paths.
use zz_drop.Prelude.Texts.{Text, text_eq, codes}
use zz_drop.Prelude.Tests.{◌==◌, if◌then◌else◌}
use zz_drop.Prelude.Lists.{retain, any}
use Prim.Native.Nat.{ℕ}
use mathlib.Core.Bool.{Bool, false, not, ◌&&◌}
use mathlib.Core.List.{List, [], ◌∷◌, ◌++◌}
use mathlib.Core.Option.{Option, none, some}

-- `trim_start_matches(c)`, `trim_end_matches(c)` and `trim_matches(c)`
unfoldable pub trim_start : ℕ → Text → Text
trim_start c [] = []
trim_start c (x ∷ xs) = if x == c then trim_start c xs else x ∷ xs

-- the last character stays if anything behind it stays
unfoldable pub trim_end : ℕ → Text → Text
trim_end c [] = []
trim_end c (x ∷ xs) =
    let rest = trim_end c xs in
    elim rest [ [] ↦ if x == c then [] else x ∷ [] | y ∷ ys ↦ x ∷ y ∷ ys ]

unfoldable pub trim_matches : ℕ → Text → Text
unfolding trim_start trim_end
trim_matches c s = trim_end c (trim_start c s)

abbrev pub cons_head : ℕ → List Text → List Text
cons_head x [] = (x ∷ []) ∷ []
cons_head x (w ∷ ws) = (x ∷ w) ∷ ws

-- `split(c)`: never empty
unfoldable pub split : ℕ → Text → List Text
split c [] = [] ∷ []
split c (x ∷ xs) = let rest = split c xs in if x == c then [] ∷ rest else cons_head x rest

-- `join(sep)` for a separator of one character
unfoldable pub join : ℕ → List Text → Text
join c [] = []
join c (w ∷ ws) = elim ws [ [] ↦ w | _ ∷ _ ↦ w ++ c ∷ join c ws ]

-- `ends_with(c)` and `strip_suffix(c)` for one character
unfoldable pub ends_with : ℕ → Text → Bool
ends_with c [] = false
ends_with c (x ∷ xs) = elim xs [ [] ↦ x == c | _ ∷ _ ↦ ends_with c xs ]

unfoldable pub strip_suffix : ℕ → Text → Option Text
strip_suffix c [] = none
strip_suffix c (x ∷ xs) =
    let rest = strip_suffix c xs in
    elim xs [
      | [] ↦ if x == c then some [] else none
      | _ ∷ _ ↦ elim rest [ none ↦ none | some ys ↦ some (x ∷ ys) ]
    ]

-- `strip_prefix(c)` for one character
unfoldable pub strip_prefix : ℕ → Text → Option Text
strip_prefix c [] = none
strip_prefix c (x ∷ xs) = if x == c then some xs else none

-- `contains(c)` for one character
unfoldable pub contains : ℕ → Text → Bool
contains c s = any (λ x. x == c) s

-- The filter that the agent and the list cache share: no empty, `.` or `..` segment.
abbrev pub keep_segment : Text → Bool
keep_segment s = not (text_eq s []) && not (text_eq s (codes ".")) && not (text_eq s (codes ".."))

-- `p.trim_matches('/').split('/').filter(..).collect()`
unfoldable pub segments : Text → List Text
unfolding trim_matches split
segments p = retain keep_segment (split b'/' (trim_matches b'/' p))
