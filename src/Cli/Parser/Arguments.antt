-- ===== src/Cli/Parser/Arguments.antt =====
-- Where the arguments of a command go: sources, destinations, prefixes.
use zz_drop.Prelude.{
  ◌≡◌, refl, Text, codes, Bool, true, false, none, some, List, [], ◌∷◌, ◌++◌, if◌then◌else◌, ok,
  ends_with, strip_suffix, text_eq, strip_prefix, ◌>>=◌, split_last-append,
}
use zz_drop.Cli.{Command}
use zz_drop.Cli.Parser.{
  parse_args, is_reserved, reserved_command, parse_modifiers, add_modifiers, add_modifier,
  save_command, download_command, split_trailing_dir_dest, strip_trailing_slash,
}

-- the argument with a slash behind it
abbrev pub as_dir : Text → Text
as_dir d = d ++ b'/' ∷ []

ends_with-as_dir : (d : Text) → ends_with b'/' (as_dir d) ≡ true
unfolding ends_with
ends_with-as_dir [] = refl
ends_with-as_dir (x ∷ []) = refl
ends_with-as_dir (x ∷ y ∷ d) = ends_with-as_dir (y ∷ d)

strip_suffix-as_dir : (d : Text) → strip_suffix b'/' (as_dir d) ≡ some d
unfolding strip_suffix
strip_suffix-as_dir [] = refl
strip_suffix-as_dir (x ∷ []) = refl
strip_suffix-as_dir (x ∷ y ∷ d) = rw (strip_suffix-as_dir (y ∷ d))

split_trailing_dir_dest-dir :
    (command : Text) (source : Text) (sources : List Text) (d : Text)
    → split_trailing_dir_dest command (source ∷ sources ++ as_dir d ∷ [])
      ≡ ok (source ∷ sources, some d)
unfolding split_trailing_dir_dest strip_trailing_slash
split_trailing_dir_dest-dir command source sources d = rw (
  split_last-append (source ∷ sources) (as_dir d),
  ends_with-as_dir d,
  strip_suffix-as_dir d,
  split_trailing_dir_dest,
  strip_trailing_slash,
)

split_trailing_dir_dest-file :
    (command : Text) (sources : List Text) (last : Text)
    → ends_with b'/' last ≡ false
    → split_trailing_dir_dest command (sources ++ last ∷ []) ≡ ok (sources ++ last ∷ [], none)
unfolding split_trailing_dir_dest
split_trailing_dir_dest-file command sources last h =
    rw (split_last-append sources last, h, split_trailing_dir_dest)

-- the two verbs, each with and without `x`
abbrev pub save_token : Bool → Text
save_token x = if x then codes "sx" else codes "s"

abbrev pub download_token : Bool → Text
download_token x = if x then codes "dx" else codes "d"

-- what the two verbs do with arguments, a list that is not empty
parse_args-save :
    (x : Bool) (arg : Text) (args : List Text)
    → parse_args (save_token x ∷ arg ∷ args)
      ≡ some (
          split_trailing_dir_dest (codes "s") (arg ∷ args) >>= λ (sources, dest).
          ok (Command.upload sources x dest))
unfolding parse_args is_reserved reserved_command text_eq strip_prefix parse_modifiers add_modifiers
    add_modifier save_command
parse_args-save true arg args = refl
parse_args-save false arg args = refl

parse_args-download :
    (x : Bool) (arg : Text) (args : List Text)
    → parse_args (download_token x ∷ arg ∷ args)
      ≡ some (
          split_trailing_dir_dest (codes "d") (arg ∷ args) >>= λ (sources, dest).
          ok (Command.download sources x dest))
unfolding parse_args is_reserved reserved_command text_eq strip_prefix parse_modifiers add_modifiers
    add_modifier download_command
parse_args-download true arg args = refl
parse_args-download false arg args = refl

-- `zz s a b dir/` uploads `a` and `b`, compressed if the verb has an `x`, to `dir` without its slash,
-- however many sources there are; `zz d a b dir/` downloads them into the local `dir` in the same way.
pub parse_args-as_dir :
    (x : Bool) (source : Text) (sources : List Text) (d : Text)
    → (parse_args (save_token x ∷ source ∷ sources ++ as_dir d ∷ [])
        ≡ some (ok (Command.upload (source ∷ sources) x (some d))))
      × (parse_args (download_token x ∷ source ∷ sources ++ as_dir d ∷ [])
          ≡ some (ok (Command.download (source ∷ sources) x (some d))))
parse_args-as_dir x source sources d = (
  rw (parse_args-save, split_trailing_dir_dest-dir (codes "s") source sources d),
  rw (parse_args-download, split_trailing_dir_dest-dir (codes "d") source sources d),
)

-- Without a slash at the end of the last argument every argument is a source, and there is no
-- destination.
pub parse_args-sources :
    (x : Bool) (sources : List Text) (last : Text)
    → ends_with b'/' last ≡ false
    → (parse_args (save_token x ∷ sources ++ last ∷ [])
        ≡ some (ok (Command.upload (sources ++ last ∷ []) x none)))
      × (parse_args (download_token x ∷ sources ++ last ∷ [])
          ≡ some (ok (Command.download (sources ++ last ∷ []) x none)))
parse_args-sources x [] last h = (
  rw (parse_args-save, split_trailing_dir_dest-file (codes "s") [] last h),
  rw (parse_args-download, split_trailing_dir_dest-file (codes "d") [] last h),
)
parse_args-sources x (source ∷ sources) last h = (
  rw (parse_args-save, split_trailing_dir_dest-file (codes "s") (source ∷ sources) last h),
  rw (parse_args-download, split_trailing_dir_dest-file (codes "d") (source ∷ sources) last h),
)
