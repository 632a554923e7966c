-- ===== src/Commands/Walk/Tree/Complete.antt =====
-- The walk selects every file that it can.
use zz_drop.Prelude.{
  ◌≡◌, refl, sym, subst, ◌∙◌, Text, Bool, true, false, some, none, Option, List, [], ◌∷◌, ◌++◌, ◌⊎◌,
  inl, inr, ok, >>=-eq-ok, arith, Bool-cases, append_assoc,
}
use zz_drop.Commands.Walk.{starts_with_dot}
use zz_drop.Commands.Walk.Tree.{
  Dir, Entries, FileType, LocalFile, walk_inner, walk_entries, walk_entry, insert, sort_files,
  walk_local, segments_leb,
}
use zz_drop.Commands.Walk.Tree.Visible.{entry-hidden, entry-visible}

-- A regular file that is reached through visible names, in the directory itself or, where the walk is
-- recursive, below it.
mutual
  pub data Reached : Bool → Dir → List Text → Type 0 where
    in_directory :
        {recursive : Bool} {es : Entries} {segs : List Text}
        → ReachedIn recursive es segs
        → Reached recursive (Dir.readable es) segs

  pub data ReachedIn : Bool → Entries → List Text → Type 0 where
    here :
        {recursive : Bool} {name : Text} {es : Entries}
        → starts_with_dot name ≡ false
        → ReachedIn recursive (Entries.entry (some name) FileType.file es) (name ∷ [])
    below :
        {name : Text} {dir : Dir} {es : Entries} {segs : List Text}
        → starts_with_dot name ≡ false
        → Reached true dir segs
        → ReachedIn true (Entries.entry (some name) (FileType.directory dir) es) (name ∷ segs)
    later :
        {recursive : Bool} {name : Option Text} {kind : FileType} {es : Entries} {segs : List Text}
        → ReachedIn recursive es segs
        → ReachedIn recursive (Entries.entry name kind es) segs

-- Some file has these segments.
abbrev pub Has : List Text → List LocalFile → Type 0
Has segs [] = ⊥
Has segs (f ∷ fs) = (f.relative_segments ≡ segs) ⊎ Has segs fs

Has-front : (segs : List Text) (xs ys : List LocalFile) → Has segs xs → Has segs (xs ++ ys)
Has-front segs [] ys h = absurd h
Has-front segs (x ∷ xs) ys (inl h) = inl h
Has-front segs (x ∷ xs) ys (inr h) = inr (Has-front segs xs ys h)

Has-back : (segs : List Text) (xs ys : List LocalFile) → Has segs ys → Has segs (xs ++ ys)
Has-back segs [] ys h = h
Has-back segs (x ∷ xs) ys h = inr (Has-back segs xs ys h)

module _ (path : Text) (prefix : List Text) (recursive : Bool) where
  -- A later entry's files are among the results.
  pub Has-rest :
      (name : Text) (kind : FileType) (es : Entries) (segs : List Text) (files : List LocalFile)
      → walk_entries path prefix recursive (Entries.entry (some name) kind es) ≡ ok files
      → ((rest : List LocalFile) → walk_entries path prefix recursive es ≡ ok rest → Has segs rest)
      → Has segs files
  Has-rest name kind es segs files h has = elim (Bool-cases (starts_with_dot name)) [
    | inl hidden ↦ has files (sym (entry-hidden path prefix recursive name kind es hidden) ∙ h)
    | inr visible ↦
        let (found, walked, h1) =
          >>=-eq-ok (walk_entry (path ++ b'/' ∷ name) (prefix ++ name ∷ []) recursive kind) _
            (sym (entry-visible path prefix recursive name kind es visible) ∙ h) in
        let (rest, rested, h2) = >>=-eq-ok (walk_entries path prefix recursive es) _ h1 in
        let whole : found ++ rest ≡ files = ground arith in
        subst (Has segs) whole (Has-back segs found rest (has rest rested))
  ]

  -- So are a visible entry's own files.
  pub Has-here :
      (name : Text) (kind : FileType) (es : Entries) (segs : List Text) (files : List LocalFile)
      → starts_with_dot name ≡ false
      → walk_entries path prefix recursive (Entries.entry (some name) kind es) ≡ ok files
      → ((found : List LocalFile)
          → walk_entry (path ++ b'/' ∷ name) (prefix ++ name ∷ []) recursive kind ≡ ok found
          → Has segs found)
      → Has segs files
  Has-here name kind es segs files visible h has =
      let (found, walked, h1) =
        >>=-eq-ok (walk_entry (path ++ b'/' ∷ name) (prefix ++ name ∷ []) recursive kind) _
          (sym (entry-visible path prefix recursive name kind es visible) ∙ h) in
      let (rest, rested, h2) = >>=-eq-ok (walk_entries path prefix recursive es) _ h1 in
      let whole : found ++ rest ≡ files = ground arith in
      subst (Has segs) whole (Has-front segs found rest (has found walked))

file-Has :
    (path : Text) (segments : List Text) (recursive : Bool) (found : List LocalFile)
    → walk_entry path segments recursive FileType.file ≡ ok found
    → Has segments found
unfolding walk_entry
file-Has path segments recursive found h =
    let e : record { absolute = path; relative_segments = segments } ∷ [] ≡ found = ground arith in
    subst (Has segments) e (inl refl)

mutual
  unfolding walk_inner

  walk_inner-Has :
      (path : Text) (prefix : List Text) (recursive : Bool) (dir : Dir) (segs : List Text)
      (files : List LocalFile)
      → Reached recursive dir segs
      → walk_inner path prefix recursive dir ≡ ok files
      → Has (prefix ++ segs) files
  walk_inner-Has path prefix recursive (Dir.unreadable e) segs files r h = cc
  walk_inner-Has path prefix recursive (Dir.readable es) segs files (in_directory r) h =
      walk_entries-Has path prefix recursive es segs files r h

  walk_entries-Has :
      (path : Text) (prefix : List Text) (recursive : Bool) (es : Entries) (segs : List Text)
      (files : List LocalFile)
      → ReachedIn recursive es segs
      → walk_entries path prefix recursive es ≡ ok files
      → Has (prefix ++ segs) files
  walk_entries-Has path prefix recursive Entries.no_more segs files r h = elim r [ ]
  walk_entries-Has path prefix recursive (Entries.bad_entry e es) segs files r h = elim r [ ]
  walk_entries-Has path prefix recursive (Entries.entry none kind es) segs files (later r) h =
      walk_entries-Has path prefix recursive es segs files r h
  walk_entries-Has path prefix recursive (Entries.entry (some name) kind es) segs files (later r)
        h =
      Has-rest path prefix recursive name kind es (prefix ++ segs) files h
        (λ rest rested. walk_entries-Has path prefix recursive es segs rest r rested)
  walk_entries-Has path prefix recursive (Entries.entry (some name) FileType.file es) segs files
        (here visible) h =
      Has-here path prefix recursive name FileType.file es (prefix ++ name ∷ []) files visible h
        (λ found walked.
          file-Has (path ++ b'/' ∷ name) (prefix ++ name ∷ []) recursive found walked)
  walk_entries-Has path prefix recursive (Entries.entry (some name) (FileType.directory dir) es)
        segs files (below {segs = rest} visible r) h =
      Has-here path prefix true name (FileType.directory dir) es (prefix ++ name ∷ rest) files
        visible h
        (λ found walked.
          subst (λ p. Has p found) (append_assoc prefix (name ∷ []) rest)
            (walk_inner-Has (path ++ b'/' ∷ name) (prefix ++ name ∷ []) true dir rest found r
              walked))

Has-insert :
    (segs : List Text) (f : LocalFile) (fs : List LocalFile)
    → Has segs (f ∷ fs)
    → Has segs (insert f fs)
unfolding insert
Has-insert segs f [] h = h
Has-insert segs f (g ∷ gs) h =
    elim (Bool-cases (segments_leb f.relative_segments g.relative_segments)) [
      | inl first ↦ rw first h
      | inr later_ ↦ rw later_ (elim h [
        | inl mine ↦ inr (Has-insert segs f gs (inl mine))
        | inr others ↦ elim others [
          | inl theirs ↦ inl theirs
          | inr rest ↦ inr (Has-insert segs f gs (inr rest))
        ]
      ])
    ]

Has-sort_files : (segs : List Text) (fs : List LocalFile) → Has segs fs → Has segs (sort_files fs)
unfolding sort_files
Has-sort_files segs [] h = h
Has-sort_files segs (f ∷ fs) (inl h) = Has-insert segs f (sort_files fs) (inl h)
Has-sort_files segs (f ∷ fs) (inr h) =
    Has-insert segs f (sort_files fs) (inr (Has-sort_files segs fs h))

-- A walk that succeeds has found each regular file that can be reached through visible names: those of
-- the directory itself, and those below it where the walk is recursive.
pub walk_local-Has :
    (root : Text) (dir : Dir) (recursive : Bool) (segs : List Text) (files : List LocalFile)
    → Reached recursive dir segs
    → walk_local root dir recursive ≡ ok files
    → Has segs files
unfolding walk_local
walk_local-Has root dir recursive segs files r h =
    let (out, walked, h1) = >>=-eq-ok (walk_inner root [] recursive dir) _ h in
    let sorted : sort_files out ≡ files = ground arith in
    subst (Has segs) sorted
      (Has-sort_files segs out (walk_inner-Has root [] recursive dir segs out r walked))
