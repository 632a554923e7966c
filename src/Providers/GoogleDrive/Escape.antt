-- ===== src/Providers/GoogleDrive/Escape.antt =====
-- A name in a search of the Drive stays a name.
use zz_drop.Prelude.{
  ℕ, ◌≡◌, refl, sym, subst, ==_iff, Text, Bool, true, false, Option, none, some, [], ◌∷◌, ◌++◌,
  ◌==◌, if◌then◌else◌, Bool-cases, inl, inr,
}
use zz_drop.Providers.GoogleDrive.{replace, escape_q_literal}

abbrev with_char : ℕ → Option (Text × Text) → Option (Text × Text)
with_char c none = none
with_char c (some (t, rest)) = some (c ∷ t, rest)

-- How the language of the search reads a string behind its opening quote: a backslash takes the next
-- character as it is, and a quote that stands alone ends the string; with what follows the string.
unfoldable pub read_string : (escaped : Bool) → Text → Option (Text × Text)
read_string escaped [] = none
read_string escaped (x ∷ xs) =
    let inside = with_char x (read_string false xs) in
    let after_backslash = read_string true xs in
    if escaped
    then inside
    else if x == b'\\'
    then after_backslash
    else if x == b'\''
    then some ([], xs)
    else inside

escape_q_literal-empty : escape_q_literal [] ≡ []
unfolding escape_q_literal replace
escape_q_literal-empty = refl

escape_q_literal-quote :
    (xs : Text) → escape_q_literal (b'\'' ∷ xs) ≡ b'\\' ∷ b'\'' ∷ escape_q_literal xs
unfolding escape_q_literal replace
escape_q_literal-quote xs = refl

escape_q_literal-backslash :
    (xs : Text) → escape_q_literal (b'\\' ∷ xs) ≡ b'\\' ∷ b'\\' ∷ escape_q_literal xs
unfolding escape_q_literal replace
escape_q_literal-backslash xs = refl

escape_q_literal-plain :
    (x : ℕ) (xs : Text)
    → (x == b'\\') ≡ false
    → (x == b'\'') ≡ false
    → escape_q_literal (x ∷ xs) ≡ x ∷ escape_q_literal xs
unfolding escape_q_literal replace
escape_q_literal-plain x xs h k = rw (h, k, escape_q_literal, replace) refl

-- A literal that is built from any name by `escape_q_literal` ends at the quote that the program puts
-- behind it, and is read as that name: a file name cannot change the search.
pub read_string-escape_q_literal :
    (name rest : Text)
    → read_string false (escape_q_literal name ++ b'\'' ∷ rest) ≡ some (name, rest)
unfolding read_string
read_string-escape_q_literal [] rest = rw (escape_q_literal-empty) refl
read_string-escape_q_literal (x ∷ xs) rest = elim (Bool-cases (x == b'\\')) [
  | inl back ↦
      subst
        (λ c. read_string false (escape_q_literal (c ∷ xs) ++ b'\'' ∷ rest) ≡ some (c ∷ xs, rest))
        (sym ((==_iff x b'\\').0 back))
        (rw (escape_q_literal-backslash xs, read_string-escape_q_literal xs rest) refl)
  | inr no_back ↦ elim (Bool-cases (x == b'\'')) [
    | inl quote ↦
        subst
          (λ c. read_string false (escape_q_literal (c ∷ xs) ++ b'\'' ∷ rest) ≡ some (c ∷ xs, rest))
          (sym ((==_iff x b'\'').0 quote))
          (rw (escape_q_literal-quote xs, read_string-escape_q_literal xs rest) refl)
    | inr plain ↦
        rw
          (
            escape_q_literal-plain x xs no_back plain,
            no_back,
            plain,
            read_string-escape_q_literal xs rest,
          )
          refl
  ]
]
