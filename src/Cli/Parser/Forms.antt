-- ===== src/Cli/Parser/Forms.antt =====
-- Which commands the parser can give.
use zz_drop.Prelude.{
  ℕ, ◌≡◌, refl, Text, codes, true, false, none, some, List, [], ◌∷◌, ◌==◌, ==_iff, ok, arith,
  strip_prefix, contains, is_some, any, all, text_eq, text_eq_iff, text_eq_comm, Bool-cases, inl,
  inr, ◌⊎◌,
}
use zz_drop.Cli.{Command}
use zz_drop.Cli.Parser.{
  parse_args, is_reserved, is_modifier_or_e, atom_reserved, reserved_command, atom_command,
}

atom_command-some :
    (head : Text) (tail : List Text)
    → any (λ word. text_eq word head) atom_reserved ≡ true
    → is_some (atom_command head tail) ≡ true
unfolding atom_command
atom_command-some head tail h = ground (
  arith,
  text_eq_comm head (codes "q"),
  text_eq_comm head (codes "w"),
  text_eq_comm head (codes "kalvasflam"),
  text_eq_comm head (codes "z"),
  text_eq_comm head (codes "c"),
  text_eq_comm head (codes "f"),
)

-- No list of arguments reaches the `unreachable!`: every one gives a command or an error.
pub parse_args-some : (args : List Text) → is_some (parse_args args) ≡ true
unfolding parse_args is_reserved reserved_command strip_prefix
parse_args-some [] = refl
parse_args-some ([] ∷ tail) = unfold text_eq in refl
parse_args-some ((c ∷ head) ∷ tail) = ground (arith, atom_command-some (c ∷ head) tail)

no_command :
    (c : ℕ) (text : Text)
    → contains c text ≡ true
    → is_modifier_or_e c ≡ false
    → all is_modifier_or_e text ≡ false
unfolding contains
no_command c [] h e = cc
no_command c (x ∷ text) h e = ground (arith, ==_iff x c, no_command c text)

there_cons :
    (c x : ℕ) (text : Text)
    → contains c (x ∷ text) ≡ true
    → ((x == c) ≡ true) ⊎ (contains c text ≡ true)
unfolding contains
there_cons c x text h = ground arith

no_atom :
    (c : ℕ) (head word : Text)
    → contains c head ≡ true
    → contains c word ≡ false
    → text_eq word head ≡ false
no_atom c head word there not_there = elim (Bool-cases (text_eq word head)) [
  | inl same ↦ cc (there, not_there, (text_eq_iff word head).0 same)
  | inr other ↦ other
]

no_word :
    (c : ℕ) (head : Text) (words : List Text)
    → contains c head ≡ true
    → any (contains c) words ≡ false
    → any (λ word. text_eq word head) words ≡ false
no_word c head [] there h = refl
no_word c head (w ∷ words) there h =
    ground (arith, no_atom c head w there, no_word c head words there)

is_reserved-other :
    (c : ℕ) (head : Text)
    → contains c head ≡ true
    → any (contains c) atom_reserved ≡ false
    → is_modifier_or_e c ≡ false
    → ((c == b's') ≡ false) × ((c == b'd') ≡ false)
    → is_reserved head ≡ false
unfolding is_reserved
is_reserved-other c [] there h e sd = absurd (unfold contains in cc there)
is_reserved-other c (x ∷ head) there h e sd = ground (
  arith,
  no_word c (x ∷ head) atom_reserved there h,
  ==_iff x c,
  no_command c head,
  there_cons c x head there,
)

-- A first argument with a dot or a slash in it is never a command: all the arguments are files to
-- upload, as they are, without a destination.
pub parse_args-path :
    (c : ℕ) (head : Text) (tail : List Text)
    → (c ≡ b'.') ⊎ (c ≡ b'/')
    → contains c head ≡ true
    → parse_args (head ∷ tail) ≡ some (ok (Command.upload (head ∷ tail) false none))
unfolding parse_args
parse_args-path c head tail (inl dot) there = rw (
  is_reserved-other c head there (rw dot (unfold contains in refl)) (rw dot refl)
      (rw dot (refl, refl)),
  parse_args,
)
parse_args-path c head tail (inr slash) there = rw (
  is_reserved-other c head there (rw slash (unfold contains in refl)) (rw slash refl)
      (rw slash (refl, refl)),
  parse_args,
)
