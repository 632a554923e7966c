-- ===== src/Tests/Arguments.antt =====
-- Command lines: runs of the parser, and the theorems at concrete arguments.
use zz_drop.Prelude.{
  ◌≡◌, ◌↔◌, refl, codes, true, false, some, [], ◌∷◌, ok, err, ends_with, strip_prefix, text_eq,
  contains, All, is_some, strip_suffix,
}
use zz_drop.Cli.{Command, RemoteSelector, ParseError}
use zz_drop.Cli.Parser.{
  parse_args, is_reserved, reserved_command, parse_modifiers, add_modifiers, add_modifier,
  atom_command, unlock_command, normalise_local, strip_trailing_slash,
}
use zz_drop.Cli.Parser.Modifiers.{count, IsModifier, parse_modifiers_iff}
use zz_drop.Cli.Parser.Forms.{parse_args-some}

unlock_by_email :
    parse_args (codes "z" ∷ codes "me@x" ∷ [])
    ≡ some (ok (Command.remote_unlock (RemoteSelector.email (codes "me@x"))))
unfolding parse_args is_reserved reserved_command atom_command unlock_command text_eq strip_prefix
    contains
unlock_by_email = refl

twice_refused :
    parse_args (codes "saa" ∷ codes "." ∷ [])
    ≡ some (err (ParseError.duplicate_modifier (codes "saa") b'a'))
unfolding parse_args is_reserved reserved_command text_eq strip_prefix parse_modifiers add_modifiers
    add_modifier
twice_refused = refl

-- The root directory loses its only character: the directory of this command is the empty path.
root_lost : normalise_local (codes "/") ≡ []
unfolding normalise_local strip_trailing_slash strip_suffix
root_lost = refl

parse_modifiers_iff_example :
    (parse_modifiers b's' (codes "xa") ≡ ok (record { a = true; r = false; x = true })) ↔ (
      All IsModifier (codes "xa")
      × (count b'a' (codes "xa") ≡ 1)
      × (count b'r' (codes "xa") ≡ 0)
      × (count b'x' (codes "xa") ≡ 1))
parse_modifiers_iff_example =
    parse_modifiers_iff b's' (codes "xa") (record { a = true; r = false; x = true })

no_slash : ends_with b'/' (codes "b") ≡ false
unfolding ends_with
no_slash = refl

parse_args-some_example : is_some (parse_args (codes "kalvasflam" ∷ codes "now" ∷ [])) ≡ true
parse_args-some_example = parse_args-some (codes "kalvasflam" ∷ codes "now" ∷ [])

dotted : contains b'.' (codes "sax.md") ≡ true
unfolding contains
dotted = refl
