-- ===== src/Cli/Parser/Modifiers.antt =====
-- `parse_modifiers`: the letters behind `s` and `d`.
use zz_drop.Prelude.{
  ℕ, ◌+◌, ◌≡◌, ◌↔◌, Text, Bool, true, false, [], ◌∷◌, ◌==◌, ◌||◌, any, if◌then◌else◌, ok, arith,
  All, >>=-eq-ok,
}
use zz_drop.Cli.Parser.{
  ModifierSet, no_modifiers, add_modifier, add_modifiers, parse_modifiers, valid_modifiers,
}

abbrev pub count : ℕ → Text → ℕ
count c [] = 0
count c (x ∷ xs) = (if x == c then 1 else 0) + count c xs

abbrev pub flag : Bool → ℕ
flag true = 1
flag false = 0

abbrev pub IsModifier : ℕ → Type 0
IsModifier c = any (λ v. v == c) valid_modifiers ≡ true

-- what is left to add on the way from `m` to `n`
abbrev Adds : ModifierSet → Text → ModifierSet → Type 0
Adds m tail n =
    All IsModifier tail
    × (flag m.a + count b'a' tail ≡ flag n.a)
    × (flag m.r + count b'r' tail ≡ flag n.r)
    × (flag m.x + count b'x' tail ≡ flag n.x)

flag-injective : (a b : Bool) → flag a ≡ flag b → a ≡ b
flag-injective a b h = ground arith

add_modifier-Adds :
    (command : Text) (m k n : ModifierSet) (c : ℕ) (tail : Text)
    → add_modifier command m c ≡ ok k
    → Adds k tail n
    → Adds m (c ∷ tail) n
unfolding add_modifier
add_modifier-Adds command m k n c tail h adds = ground arith

add_modifiers-Adds :
    (command : Text) (m n : ModifierSet) (tail : Text)
    → add_modifiers command m tail ≡ ok n
    → Adds m tail n
unfolding add_modifiers
add_modifiers-Adds command m n [] h = ground arith
add_modifiers-Adds command m n (c ∷ cs) h =
    let (k, added, rest) =
      >>=-eq-ok (add_modifier command m c) (λ m'. add_modifiers command m' cs) h in
    add_modifier-Adds command m k n c cs added (add_modifiers-Adds command k n cs rest)

Adds-add_modifier :
    (command : Text) (m n : ModifierSet) (c : ℕ) (tail : Text)
    → Adds m (c ∷ tail) n
    → (k : ModifierSet) × (add_modifier command m c ≡ ok k) × Adds k tail n
unfolding add_modifier
Adds-add_modifier command m n c tail adds = (
  record { a = m.a || c == b'a'; r = m.r || c == b'r'; x = m.x || c == b'x' },
  ground arith,
  ground arith,
)

Adds-add_modifiers :
    (command : Text) (m n : ModifierSet) (tail : Text)
    → Adds m tail n
    → add_modifiers command m tail ≡ ok n
unfolding add_modifiers
Adds-add_modifiers command m n [] h =
    ground (arith, flag-injective m.a n.a, flag-injective m.r n.r, flag-injective m.x n.x)
Adds-add_modifiers command m n (c ∷ cs) h =
    let (k, added, rest) = Adds-add_modifier command m n c cs h in
    rw added (Adds-add_modifiers command k n cs rest)

-- A suffix is accepted exactly when it consists of `a`, `r` and `x`, none of them twice; the
-- result has the flag of a letter set if and only if the letter is there.
pub parse_modifiers_iff :
    (verb : ℕ) (tail : Text) (m : ModifierSet)
    → (parse_modifiers verb tail ≡ ok m) ↔ (
        All IsModifier tail
        × (count b'a' tail ≡ flag m.a)
        × (count b'r' tail ≡ flag m.r)
        × (count b'x' tail ≡ flag m.x))
unfolding parse_modifiers
parse_modifiers_iff verb tail m = (
  λ h. ground (arith, add_modifiers-Adds (verb ∷ tail) no_modifiers m tail h),
  λ h. ground (arith, Adds-add_modifiers (verb ∷ tail) no_modifiers m tail),
)
