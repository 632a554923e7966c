-- ===== src/Commands/Walk/Tree/Visible.antt =====
-- What the walk selects.
use zz_drop.Prelude.{
  ◌≡◌, refl, sym, subst, ◌∙◌, Text, Bool, true, false, none, some, List, [], ◌∷◌, ◌++◌, ok, ◌>>=◌,
  >>=-eq-ok, All, is_nil, length, arith, Bool-cases, inl, inr, append_assoc,
}
use zz_drop.Commands.Walk.{starts_with_dot}
use zz_drop.Commands.Walk.Tree.{
  Dir, Entries, FileType, LocalFile, walk_inner, walk_entries, walk_entry, insert, sort_files,
  walk_local, segments_leb,
}

-- Below a prefix: one visible name or more, just one where the walk does not descend.
abbrev pub Below : Bool → List Text → LocalFile → Type 0
Below recursive prefix f =
    (rest : List Text) × (f.relative_segments ≡ prefix ++ rest)
    × (is_nil rest ≡ false)
    × All (λ name. starts_with_dot name ≡ false) rest
    × (recursive ≡ false → length rest ≡ 1)

All-append :
    (P : LocalFile → Type 0) (xs ys : List LocalFile) → All P xs → All P ys → All P (xs ++ ys)
All-append P [] ys hx hy = hy
All-append P (x ∷ xs) ys (h, hx) hy = (h, All-append P xs ys hx hy)

-- One level up.
deeper :
    (prefix : List Text) (name : Text) (files : List LocalFile)
    → starts_with_dot name ≡ false
    → All (Below true (prefix ++ name ∷ [])) files
    → All (Below true prefix) files
deeper prefix name [] visible h = tt
deeper prefix name (f ∷ fs) visible ((rest, is, full, names, one), hs) = (
  (name ∷ rest, is ∙ append_assoc prefix (name ∷ []) rest, refl, (visible, names), λ no. cc),
  deeper prefix name fs visible hs,
)

pub entry-hidden :
    (path : Text) (prefix : List Text) (recursive : Bool) (name : Text) (kind : FileType)
    (es : Entries)
    → starts_with_dot name ≡ true
    → walk_entries path prefix recursive (Entries.entry (some name) kind es)
      ≡ walk_entries path prefix recursive es
unfolding walk_entries
entry-hidden path prefix recursive name kind es hidden = rw (hidden, walk_entries) refl

pub entry-visible :
    (path : Text) (prefix : List Text) (recursive : Bool) (name : Text) (kind : FileType)
    (es : Entries)
    → starts_with_dot name ≡ false
    → walk_entries path prefix recursive (Entries.entry (some name) kind es) ≡ (
        walk_entry (path ++ b'/' ∷ name) (prefix ++ name ∷ []) recursive kind >>= λ found.
        walk_entries path prefix recursive es >>= λ later. ok (found ++ later))
unfolding walk_entries
entry-visible path prefix recursive name kind es visible = rw (visible, walk_entries) refl

mutual
  unfolding walk_inner

  walk_inner-Below :
      (path : Text) (prefix : List Text) (recursive : Bool) (dir : Dir) (files : List LocalFile)
      → walk_inner path prefix recursive dir ≡ ok files
      → All (Below recursive prefix) files
  walk_inner-Below path prefix recursive (Dir.unreadable e) files h = cc
  walk_inner-Below path prefix recursive (Dir.readable es) files h =
      walk_entries-Below path prefix recursive es files h

  walk_entries-Below :
      (path : Text) (prefix : List Text) (recursive : Bool) (es : Entries) (files : List LocalFile)
      → walk_entries path prefix recursive es ≡ ok files
      → All (Below recursive prefix) files
  walk_entries-Below path prefix recursive Entries.no_more files h =
      let e : [] ≡ files = ground arith in subst (All (Below recursive prefix)) e tt
  walk_entries-Below path prefix recursive (Entries.bad_entry e es) files h = cc
  walk_entries-Below path prefix recursive (Entries.entry none kind es) files h =
      walk_entries-Below path prefix recursive es files h
  walk_entries-Below path prefix recursive (Entries.entry (some name) kind es) files h =
      elim (Bool-cases (starts_with_dot name)) [
        | inl hidden ↦
            walk_entries-Below path prefix recursive es files
              (sym (entry-hidden path prefix recursive name kind es hidden) ∙ h)
        | inr visible ↦
            let here = walk_entry (path ++ b'/' ∷ name) (prefix ++ name ∷ []) recursive kind in
            let rest = walk_entries path prefix recursive es in
            let (found, walked, h1) =
              >>=-eq-ok here _
                (sym (entry-visible path prefix recursive name kind es visible) ∙ h) in
            let (later, rested, h2) = >>=-eq-ok rest _ h1 in
            let whole : found ++ later ≡ files = ground arith in
            subst (All (Below recursive prefix)) whole (
              All-append (Below recursive prefix) found later
                (walk_entry-Below (path ++ b'/' ∷ name) prefix name recursive kind found visible
                  walked)
                (walk_entries-Below path prefix recursive es later rested))
      ]

  walk_entry-Below :
      (path : Text) (prefix : List Text) (name : Text) (recursive : Bool) (kind : FileType)
      (files : List LocalFile)
      → starts_with_dot name ≡ false
      → walk_entry path (prefix ++ name ∷ []) recursive kind ≡ ok files
      → All (Below recursive prefix) files
  walk_entry-Below path prefix name recursive FileType.symlink files visible h =
      let e : [] ≡ files = ground arith in subst (All (Below recursive prefix)) e tt
  walk_entry-Below path prefix name recursive FileType.special files visible h =
      let e : [] ≡ files = ground arith in subst (All (Below recursive prefix)) e tt
  walk_entry-Below path prefix name recursive FileType.unknown_type files visible h =
      let e : [] ≡ files = ground arith in subst (All (Below recursive prefix)) e tt
  walk_entry-Below path prefix name recursive FileType.file files visible h =
      let e : record { absolute = path; relative_segments = prefix ++ name ∷ [] } ∷ [] ≡ files =
        ground arith in
      subst (All (Below recursive prefix)) e
        ((name ∷ [], refl, refl, (visible, tt), λ no. refl), tt)
  walk_entry-Below path prefix name true (FileType.directory dir) files visible h =
      deeper prefix name files visible
        (walk_inner-Below path (prefix ++ name ∷ []) true dir files h)
  walk_entry-Below path prefix name false (FileType.directory dir) files visible h =
      let e : [] ≡ files = ground arith in subst (All (Below false prefix)) e tt

All-insert :
    (P : LocalFile → Type 0) (f : LocalFile) (fs : List LocalFile)
    → P f
    → All P fs
    → All P (insert f fs)
unfolding insert
All-insert P f [] h hs = (h, tt)
All-insert P f (g ∷ gs) h (hg, hgs) =
    elim (Bool-cases (segments_leb f.relative_segments g.relative_segments)) [
      | inl first ↦ rw first (h, (hg, hgs))
      | inr later ↦ rw later (hg, All-insert P f gs h hgs)
    ]

All-sort_files : (P : LocalFile → Type 0) (fs : List LocalFile) → All P fs → All P (sort_files fs)
unfolding sort_files
All-sort_files P [] h = tt
All-sort_files P (f ∷ fs) (h, hs) = All-insert P f (sort_files fs) h (All-sort_files P fs hs)

-- Each file of a walk that succeeds has one segment or more, none of which starts with a dot, and just
-- one where the walk is not recursive.
pub walk_local-Below :
    (root : Text) (dir : Dir) (recursive : Bool) (files : List LocalFile)
    → walk_local root dir recursive ≡ ok files
    → All (Below recursive []) files
unfolding walk_local
walk_local-Below root dir recursive files h =
    let (out, walked, h1) = >>=-eq-ok (walk_inner root [] recursive dir) _ h in
    let sorted : sort_files out ≡ files = ground arith in
    subst (All (Below recursive [])) sorted
      (All-sort_files (Below recursive []) out (walk_inner-Below root [] recursive dir out walked))
