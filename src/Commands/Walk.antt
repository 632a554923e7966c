-- ===== src/Commands/Walk.antt =====
-- src/commands/walk.rs: the check of a file name that the user typed. The walk over a local directory
-- is not modelled.
pub mod Safe
pub mod Tree
use zz_drop.Prelude.{
  ℕ, Text, codes, Bool, true, false, ◌||◌, List, [], ◌∷◌, ◌==◌, text_eq, if◌then◌else◌, Result, ok,
  err, ◌>>=◌, split, is_nil,
}

pub data SkipReason : Type 0 where
  dotfile symlink not_regular_file non_utf8 : SkipReason

abbrev pub starts_with_dot : Text → Bool
starts_with_dot [] = false
starts_with_dot (c ∷ _) = c == b'.'

-- The loop over the parts, whose first bad one decides the error.
unfoldable pub user_parts : List Text → Result SkipReason (List Text)
user_parts [] = ok []
user_parts (part ∷ rest) =
    let later = user_parts rest in
    if text_eq part [] || text_eq part (codes ".")
    then later
    else if text_eq part (codes "..")
    then err SkipReason.not_regular_file
    else if starts_with_dot part
    then err SkipReason.dotfile
    else (later >>= λ parts. ok (part ∷ parts))

abbrev some_parts : List Text → Result SkipReason (List Text)
some_parts parts = if is_nil parts then err SkipReason.not_regular_file else ok parts

unfoldable pub split_user_path : Text → Result SkipReason (List Text)
unfolding user_parts
split_user_path arg =
    if is_nil arg
    then err SkipReason.not_regular_file
    else (user_parts (split b'/' arg) >>= λ parts. some_parts parts)
