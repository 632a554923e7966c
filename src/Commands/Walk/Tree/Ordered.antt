-- ===== src/Commands/Walk/Tree/Ordered.antt =====
-- The order of the selected files.
use zz_drop.Prelude.{
  ◌≡◌, refl, subst, Text, Bool, true, false, List, [], ◌∷◌, ok, >>=-eq-ok, arith, Bool-cases, inl,
  inr,
}
use zz_drop.Commands.Walk.Tree.{
  Dir, LocalFile, text_leb, segments_leb, walk_inner, insert, sort_files, walk_local,
}

text_leb_total : (a b : Text) → text_leb a b ≡ false → text_leb b a ≡ true
unfolding text_leb
text_leb_total [] b h = cc
text_leb_total (x ∷ a) [] h = refl
text_leb_total (x ∷ a) (y ∷ b) h = ground (arith, text_leb_total a b)

segments_leb_total : (a b : List Text) → segments_leb a b ≡ false → segments_leb b a ≡ true
unfolding segments_leb
segments_leb_total [] b h = cc
segments_leb_total (x ∷ a) [] h = refl
segments_leb_total (x ∷ a) (y ∷ b) h =
    ground (arith, segments_leb_total a b, text_leb_total x y, text_leb_total y x)

abbrev Before : LocalFile → List LocalFile → Type 0
Before f [] = Unit
Before f (g ∷ _) = segments_leb f.relative_segments g.relative_segments ≡ true

-- Each file comes no later in the order than the next.
abbrev pub Ordered : List LocalFile → Type 0
Ordered [] = Unit
Ordered (f ∷ fs) = Before f fs × Ordered fs

Before-insert :
    (g f : LocalFile) (fs : List LocalFile)
    → segments_leb g.relative_segments f.relative_segments ≡ true
    → Before g fs
    → Before g (insert f fs)
unfolding insert
Before-insert g f [] h hb = h
Before-insert g f (x ∷ xs) h hb =
    elim (Bool-cases (segments_leb f.relative_segments x.relative_segments)) [
      | inl first ↦ rw first h
      | inr later ↦ rw later hb
    ]

Ordered-insert : (f : LocalFile) (fs : List LocalFile) → Ordered fs → Ordered (insert f fs)
unfolding insert
Ordered-insert f [] h = (tt, tt)
Ordered-insert f (x ∷ xs) (hb, hs) =
    elim (Bool-cases (segments_leb f.relative_segments x.relative_segments)) [
      | inl first ↦ rw first (first, (hb, hs))
      | inr later ↦ rw later (
        Before-insert x f xs (segments_leb_total f.relative_segments x.relative_segments later) hb,
        Ordered-insert f xs hs,
      )
    ]

Ordered-sort_files : (fs : List LocalFile) → Ordered (sort_files fs)
unfolding sort_files
Ordered-sort_files [] = tt
Ordered-sort_files (f ∷ fs) = Ordered-insert f (sort_files fs) (Ordered-sort_files fs)

-- The files of a walk that succeeds stand in the order of their segments.
pub walk_local-Ordered :
    (root : Text) (dir : Dir) (recursive : Bool) (files : List LocalFile)
    → walk_local root dir recursive ≡ ok files
    → Ordered files
unfolding walk_local
walk_local-Ordered root dir recursive files h =
    let (out, walked, h1) = >>=-eq-ok (walk_inner root [] recursive dir) _ h in
    let sorted : sort_files out ≡ files = ground arith in
    subst Ordered sorted (Ordered-sort_files out)
