-- ===== src/Cli/Parser.antt =====
-- src/cli/parser.rs: from the arguments to a command.
pub mod Modifiers
pub mod Arguments
pub mod Forms
use zz_drop.Prelude.{
  ℕ, ◌+◌, Text, codes, Bool, true, false, not, ◌&&◌, ◌||◌, Option, none, some, List, [], ◌∷◌, any,
  all, ◌==◌, text_eq, if◌then◌else◌, Result, ok, err, ◌>>=◌, ◌>>◌, ends_with, strip_prefix,
  strip_suffix, trim_matches, contains, split_last, is_nil,
}
use zz_drop.Cli.{Command, ContainerSource, RemoteSelector, ParseError}

abbrev pub atom_reserved : List Text
atom_reserved = codes "q" ∷ codes "w" ∷ codes "kalvasflam" ∷ codes "z" ∷ codes "c" ∷ codes "f" ∷ []

abbrev pub valid_modifiers : Text
valid_modifiers = codes "arx"

pub record ModifierSet : Type 0 where
  pub a : Bool
  pub r : Bool
  pub x : Bool

abbrev pub no_modifiers : ModifierSet
no_modifiers = record { a = false; r = false; x = false }

-- one round of the loop; `command` is the whole token, for the errors
unfoldable pub add_modifier : Text → ModifierSet → ℕ → Result ParseError ModifierSet
add_modifier command m c =
    if c == b'e'
    then err (ParseError.encrypt_not_in_v1 command)
    else if c == b'a' && not m.a
    then ok (record m { a = true })
    else if c == b'r' && not m.r
    then ok (record m { r = true })
    else if c == b'x' && not m.x
    then ok (record m { x = true })
    else if c == b'a' || c == b'r' || c == b'x'
    then err (ParseError.duplicate_modifier command c)
    else err (ParseError.unknown_modifier command c)

unfoldable pub add_modifiers : Text → ModifierSet → Text → Result ParseError ModifierSet
add_modifiers command m [] = ok m
add_modifiers command m (c ∷ cs) = do m' ← add_modifier command m c; add_modifiers command m' cs

unfoldable pub parse_modifiers : ℕ → Text → Result ParseError ModifierSet
unfolding add_modifiers add_modifier
parse_modifiers verb tail = add_modifiers (verb ∷ tail) no_modifiers tail

abbrev pub is_modifier_or_e : ℕ → Bool
is_modifier_or_e c = any (λ v. v == c) valid_modifiers || c == b'e'

unfoldable pub is_reserved : Text → Bool
is_reserved arg = if any (λ word. text_eq word arg) atom_reserved then true else elim arg [
  | [] ↦ false
  | c ∷ tail ↦ if c == b's' || c == b'd' then all is_modifier_or_e tail else false
]

unfoldable pub require_no_args : Text → List Text → Result ParseError (Unit {0})
require_no_args command [] = ok tt
require_no_args command (_ ∷ _) = err (ParseError.unexpected_argument command)

unfoldable pub strip_trailing_slash : Text → Text
strip_trailing_slash s = elim (strip_suffix b'/' s) [ none ↦ s | some t ↦ t ]

unfoldable pub normalise_local : Text → Text
unfolding strip_trailing_slash
normalise_local s = strip_trailing_slash s

unfoldable pub normalise_remote_prefix : Text → Text
normalise_remote_prefix s = trim_matches b'/' s

unfoldable pub require_local_then_optional_remote :
    Text → List Text → Result ParseError (Text × Option Text)
require_local_then_optional_remote command [] = err (ParseError.missing_argument command)
require_local_then_optional_remote command (dir ∷ []) = ok (normalise_local dir, none)
require_local_then_optional_remote command (dir ∷ prefix ∷ []) =
    ok (normalise_local dir, some (normalise_remote_prefix prefix))
require_local_then_optional_remote command _ = err (ParseError.unexpected_argument command)

unfoldable pub parse_optional_local_remote :
    Text → List Text → Result ParseError (Option Text × Option Text)
parse_optional_local_remote command [] = ok (none, none)
parse_optional_local_remote command (dest ∷ []) = ok (some (normalise_local dest), none)
parse_optional_local_remote command (dest ∷ prefix ∷ []) =
    ok (some (normalise_local dest), some (normalise_remote_prefix prefix))
parse_optional_local_remote command _ = err (ParseError.unexpected_argument command)

unfoldable pub split_trailing_dir_dest :
    Text → List Text → Result ParseError (List Text × Option Text)
split_trailing_dir_dest command tail = elim (split_last tail) [
  | none ↦ err (ParseError.missing_argument command)
  | some (sources, last) ↦
      if ends_with b'/' last
      then if is_nil sources
        then err (ParseError.missing_argument command)
        else ok (sources, some (strip_trailing_slash last))
      else ok (tail, none)
]

-- the branch of the verb `s`, behind its modifiers
unfoldable pub save_command : ModifierSet → Text → List Text → Result ParseError Command
save_command m head tail =
    if m.a
    then (do
      (dir, dest_remote) ←
          require_local_then_optional_remote (if m.r then codes "sar" else codes "sa") tail
      ok (
          if m.r
          then Command.save_all_recursive m.x dir dest_remote
          else Command.save_all m.x dir dest_remote))
    else if m.r
    then err (ParseError.unknown_modifier head b'r')
    else if is_nil tail
    then err (ParseError.missing_argument (codes "s"))
    else (do
      (sources, dest_remote) ← split_trailing_dir_dest (codes "s") tail
      ok (Command.upload sources m.x dest_remote))

-- the branch of the verb `d`, behind its modifiers
unfoldable pub download_command : ModifierSet → Text → List Text → Result ParseError Command
download_command m head tail =
    if m.a
    then (do
      (dest_local, src_remote) ←
          parse_optional_local_remote (if m.r then codes "dar" else codes "da") tail
      ok (
          if m.r
          then Command.download_all_recursive m.x dest_local src_remote
          else Command.download_all m.x dest_local src_remote))
    else if m.r
    then err (ParseError.unknown_modifier head b'r')
    else if is_nil tail
    then err (ParseError.missing_argument (codes "d"))
    else (do
      (sources, dest_local) ← split_trailing_dir_dest (codes "d") tail
      ok (Command.download sources m.x dest_local))

-- the one argument of `z`
abbrev pub unlock_one : Text → Result ParseError Command
unlock_one arg =
    if text_eq arg (codes "local")
    then ok (Command.container_unlock (some ContainerSource.local))
    else if text_eq arg (codes "remote")
    then ok (Command.container_unlock (some ContainerSource.remote))
    else if contains b'@' arg
    then ok (Command.remote_unlock (RemoteSelector.email arg))
    else if not (text_eq arg [])
    then ok (Command.remote_unlock (RemoteSelector.alias arg))
    else err (ParseError.unexpected_argument (codes "z"))

unfoldable pub unlock_command : List Text → Result ParseError Command
unlock_command [] = ok (Command.container_unlock none)
unlock_command (arg ∷ []) = unlock_one arg
unlock_command _ = err (ParseError.unexpected_argument (codes "z"))

-- The last `match`; `none` is its `unreachable!`.
unfoldable pub atom_command : Text → List Text → Option (Result ParseError Command)
unfolding require_no_args
atom_command head tail =
    if text_eq head (codes "q")
    then some (require_no_args (codes "q") tail >> ok Command.lock)
    else if text_eq head (codes "w")
    then some (require_no_args (codes "w") tail >> ok Command.wipe)
    else if text_eq head (codes "kalvasflam")
    then some (require_no_args (codes "kalvasflam") tail >> ok Command.wipe)
    else if text_eq head (codes "z")
    then some (unlock_command tail)
    else if text_eq head (codes "c")
    then some (require_no_args (codes "c") tail >> ok Command.open_tui)
    else if text_eq head (codes "f")
    then some (require_no_args (codes "f") tail >> ok Command.doctor)
    else none

unfoldable pub reserved_command : Text → List Text → Option (Result ParseError Command)
reserved_command head tail = elim (strip_prefix b's' head) [
  | some rest ↦ some (parse_modifiers b's' rest >>= λ m. save_command m head tail)
  | none ↦ elim (strip_prefix b'd' head) [
    | some rest ↦ some (parse_modifiers b'd' rest >>= λ m. download_command m head tail)
    | none ↦ atom_command head tail
  ]
]

unfoldable pub parse_args : List Text → Option (Result ParseError Command)
parse_args [] = some (err ParseError.no_args)
parse_args (head ∷ tail) =
    if not (is_reserved head)
    then some (ok (Command.upload (head ∷ tail) false none))
    else reserved_command head tail
