-- ===== src/Commands/Walk/Tree.antt =====
-- src/commands/walk.rs: the walk over a local directory. The directory is a tree of what `read_dir`
-- answers, in its order, with its errors; an error is its message.
pub mod Visible
pub mod Complete
pub mod Ordered
use zz_drop.Prelude.{
  ℕ, Text, Bool, true, false, Option, none, some, List, [], ◌∷◌, ◌++◌, ltb, if◌then◌else◌, Result,
  ok, err, ◌>>=◌,
}
use zz_drop.Commands.Walk.{starts_with_dot}

mutual
  pub data Dir : Type 0 where
    unreadable : Text → Dir
    readable : Entries → Dir

  -- `bad_entry` is an error of the iterator; a name that is not UTF-8 is `none`; a file type
  -- that cannot be read is `unknown_type`.
  pub data Entries : Type 0 where
    no_more : Entries
    bad_entry : Text → Entries → Entries
    entry : Option Text → FileType → Entries → Entries

  pub data FileType : Type 0 where
    symlink file special unknown_type : FileType
    directory : Dir → FileType

pub record LocalFile : Type 0 where
  pub absolute : Text
  pub relative_segments : List Text

unfoldable mutual
  pub walk_inner : Text → List Text → Bool → Dir → Result Text (List LocalFile)
  walk_inner path rel_prefix recursive (Dir.unreadable e) = err e
  walk_inner path rel_prefix recursive (Dir.readable es) = walk_entries path rel_prefix recursive es

  -- the loop over the entries; `path` is the directory's
  pub walk_entries : Text → List Text → Bool → Entries → Result Text (List LocalFile)
  walk_entries path rel_prefix recursive Entries.no_more = ok []
  walk_entries path rel_prefix recursive (Entries.bad_entry e es) = err e
  walk_entries path rel_prefix recursive (Entries.entry none kind es) =
      walk_entries path rel_prefix recursive es
  walk_entries path rel_prefix recursive (Entries.entry (some name) kind es) =
      let rest = walk_entries path rel_prefix recursive es in
      let here = walk_entry (path ++ b'/' ∷ name) (rel_prefix ++ name ∷ []) recursive kind in
      if starts_with_dot name
      then rest
      else (here >>= λ found. rest >>= λ later. ok (found ++ later))

  pub walk_entry : Text → List Text → Bool → FileType → Result Text (List LocalFile)
  walk_entry path segments recursive FileType.unknown_type = ok []
  walk_entry path segments recursive FileType.symlink = ok []
  walk_entry path segments recursive FileType.special = ok []
  walk_entry path segments recursive FileType.file =
      ok (record { absolute = path; relative_segments = segments } ∷ [])
  walk_entry path segments recursive (FileType.directory dir) =
      let inside = walk_inner path segments recursive dir in if recursive then inside else ok []

-- `cmp` of `String`, then of `Vec<String>`: `true` for less or equal
unfoldable pub text_leb : Text → Text → Bool
text_leb [] b = true
text_leb (x ∷ a) [] = false
text_leb (x ∷ a) (y ∷ b) =
    let rest = text_leb a b in if ltb x y then true else if ltb y x then false else rest

unfoldable pub segments_leb : List Text → List Text → Bool
segments_leb [] b = true
segments_leb (x ∷ a) [] = false
segments_leb (x ∷ a) (y ∷ b) =
    let rest = segments_leb a b in
    if text_leb x y then (if text_leb y x then rest else true) else false

-- `sort_by`, which is stable
unfoldable pub insert : LocalFile → List LocalFile → List LocalFile
insert f [] = f ∷ []
insert f (g ∷ gs) =
    let later = insert f gs in
    if segments_leb f.relative_segments g.relative_segments then f ∷ g ∷ gs else g ∷ later

unfoldable pub sort_files : List LocalFile → List LocalFile
sort_files [] = []
sort_files (f ∷ fs) = insert f (sort_files fs)

unfoldable pub walk_local : Text → Dir → Bool → Result Text (List LocalFile)
walk_local root dir recursive = (walk_inner root [] recursive dir >>= λ out. ok (sort_files out))
