-- ===== src/Tests/Paths.antt =====
-- File names that a user types: runs of the model, and the theorems at concrete paths.
use zz_drop.Prelude.{
  ◌≡◌, refl, Text, codes, false, List, [], ◌∷◌, ok, err, text_eq, split, is_nil, All, contains,
}
use zz_drop.Commands.Walk.{SkipReason, user_parts, split_user_path}
use zz_drop.Commands.Walk.Safe.{IsName, split_user_path-IsName}

abbrev docs_readme : List Text
docs_readme = codes "docs" ∷ codes "readme.md" ∷ []

upward_refused : split_user_path (codes "docs/../.ssh") ≡ err SkipReason.not_regular_file
unfolding split_user_path user_parts split text_eq
upward_refused = refl

accepted : split_user_path (codes "./docs//readme.md") ≡ ok docs_readme
unfolding split_user_path user_parts split text_eq
accepted = refl

names : All IsName docs_readme
unfolding contains
names = ((refl, refl, refl), ((refl, refl, refl), tt))

split_user_path-IsName_example : (is_nil docs_readme ≡ false) × All IsName docs_readme
split_user_path-IsName_example =
    split_user_path-IsName (codes "./docs//readme.md") docs_readme accepted
