-- ===== src/Tests/RcFiles.antt =====
-- The block in an rc file: runs of the model, and the theorems at concrete files.
use zz_drop.Prelude.{◌≡◌, refl, Bytes, codes, true, none, some, [], ◌∷◌, ◌++◌, ok, ends_with}
use zz_drop.Completions.{block_start, block_end, RcAction}
use zz_drop.Completions.RcBlock.{
  newline, starts_with, find_bytes, find_block, render_block, write_text, appended, removal_start,
  remove_text, RcDisk, RcAnswers, read_or_empty, atomic_write, write_block, remove_block,
}
use zz_drop.Completions.RcBlock.RoundTrip.{remove_block-write_block}

abbrev works : RcAnswers
works = record {
  read = none;
  has_parent = true;
  create_dir_all = none;
  write = none;
  rename = none;
  partial = [];
}

abbrev file : Bytes → RcDisk
file text = record { content = some text; tmp = none }

abbrev old_text : Bytes
old_text = codes "set -o vi"

abbrev body : Bytes
body = codes "compinit"

abbrev new_text : Bytes
new_text =
    old_text
    ++ (newline ∷ newline ∷ block_start
        ++ (newline ∷ body ++ (newline ∷ block_end ++ newline ∷ [])))

no_start : find_bytes block_start old_text ≡ none
unfolding find_bytes starts_with
no_start = refl

no_end : find_bytes block_end body ≡ none
unfolding find_bytes starts_with
no_end = refl

old_read : read_or_empty works (file old_text) ≡ ok old_text
unfolding read_or_empty
old_read = refl

new_written : write_block body works (file old_text) ≡ (ok RcAction.inserted, file new_text)
unfolding write_block read_or_empty write_text find_block find_bytes starts_with appended ends_with
    render_block atomic_write
new_written = refl

remove_block-write_block_example :
    remove_block works (file new_text) ≡ some (ok true, file (old_text ++ newline ∷ []))
unfolding ends_with
remove_block-write_block_example =
    remove_block-write_block body old_text works works (file old_text) (file new_text)
      RcAction.inserted old_read no_start no_end new_written (refl, refl, refl, refl)

-- A line that ends in a letter of two bytes, right above the block: the slice before the block begins
-- inside the letter.
removal_panics :
    remove_block works (file (97 ∷ 195 ∷ 169 ∷ newline ∷ block_start ++ (newline ∷ block_end)))
    ≡ none
unfolding remove_block read_or_empty remove_text find_block find_bytes starts_with removal_start
removal_panics = refl

-- An opening marker without a closing one: the block is inserted behind it, and the removal takes the
-- lines between with it.
lines_lost :
    remove_text (block_start ++ (newline ∷ codes "mine" ++ (newline ∷ newline ∷ render_block body)))
    ≡ some (some [])
unfolding remove_text find_block find_bytes starts_with removal_start render_block ends_with
lines_lost = refl
