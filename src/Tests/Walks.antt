-- ===== src/Tests/Walks.antt =====
-- Directories: runs of the walk, and the theorems at a concrete tree.
use zz_drop.Prelude.{◌≡◌, refl, codes, true, none, some, List, [], ◌∷◌, All, ok}
use zz_drop.Commands.Walk.Tree.{
  Dir, Entries, FileType, LocalFile, walk_inner, text_leb, segments_leb, insert, sort_files,
  walk_local,
}
use zz_drop.Commands.Walk.Tree.Visible.{Below, walk_local-Below}
use zz_drop.Commands.Walk.Tree.Complete.{Reached, ReachedIn, Has, walk_local-Has}

abbrev home : Dir
home = Dir.readable (
    Entries.entry (some (codes "top.md")) FileType.file (
      Entries.entry (some (codes ".ssh")) (FileType.directory (Dir.unreadable (codes "denied"))) (
        Entries.entry none FileType.file (
          Entries.entry (some (codes "docs"))
            (FileType.directory
              (Dir.readable (Entries.entry (some (codes "a.md")) FileType.file Entries.no_more)))
            Entries.no_more))))

abbrev found : List LocalFile
found =
    record { absolute = codes "/h/docs/a.md"; relative_segments = codes "docs" ∷ codes "a.md" ∷ [] }
    ∷ record { absolute = codes "/h/top.md"; relative_segments = codes "top.md" ∷ [] }
    ∷ []

walked : walk_local (codes "/h") home true ≡ ok found
unfolding walk_local walk_inner text_leb segments_leb insert sort_files
walked = refl

-- a hidden directory that cannot be read is walked all the same
hidden_denied :
    walk_local
      (codes "/h")
      (Dir.readable (
        Entries.entry
          (some (codes ".ssh"))
          (FileType.directory (Dir.unreadable (codes "denied")))
          Entries.no_more))
      true
    ≡ ok []
unfolding walk_local walk_inner sort_files
hidden_denied = refl

below_docs : Reached true home (codes "docs" ∷ codes "a.md" ∷ [])
below_docs = Reached.in_directory (
    ReachedIn.later (
      ReachedIn.later
        (ReachedIn.later (ReachedIn.below refl (Reached.in_directory (ReachedIn.here refl))))))

walk_local-Below_example : All (Below true []) found
walk_local-Below_example = walk_local-Below (codes "/h") home true found walked

walk_local-Has_example : Has (codes "docs" ∷ codes "a.md" ∷ []) found
walk_local-Has_example =
    walk_local-Has (codes "/h") home true (codes "docs" ∷ codes "a.md" ∷ []) found below_docs walked
