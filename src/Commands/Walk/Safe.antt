-- ===== src/Commands/Walk/Safe.antt =====
-- What `split_user_path` accepts.
use zz_drop.Prelude.{
  ◌≡◌, refl, Text, codes, false, List, [], ◌∷◌, text_eq, ok, split, join, is_nil, All, arith,
  contains, Result-cases, inl, inr,
}
use zz_drop.Prelude.Segments.{contains-split, split-join}
use zz_drop.Commands.Walk.{starts_with_dot, user_parts, split_user_path}

-- a component of a remote path: one name, and not a hidden one
abbrev pub IsName : Text → Type 0
IsName part = (is_nil part ≡ false) × (starts_with_dot part ≡ false) × (contains b'/' part ≡ false)

full_part : (p : Text) → text_eq p [] ≡ is_nil p
unfolding text_eq
full_part [] = refl
full_part (x ∷ p) = refl

dots_hidden :
    (p : Text)
    → starts_with_dot p ≡ false
    → (text_eq p (codes ".") ≡ false) × (text_eq p (codes "..") ≡ false)
unfolding text_eq
dots_hidden [] h = (refl, refl)
dots_hidden (x ∷ p) h = rw h (refl, refl)

user_parts-IsName :
    (parts names : List Text)
    → All (λ p. contains b'/' p ≡ false) parts
    → user_parts parts ≡ ok names
    → All IsName names
unfolding user_parts
user_parts-IsName [] names whole h = ground arith
user_parts-IsName (p ∷ ps) names (whole, rest) h = elim (Result-cases (user_parts ps)) [
  | inl (later, e) ↦ ground (arith, user_parts-IsName ps later rest e, full_part p)
  | inr (failed, e) ↦ ground arith
]

-- Whatever is accepted has at least one component, and each component is not empty, holds no
-- slash and does not start with a dot.
pub split_user_path-IsName :
    (arg : Text) (names : List Text)
    → split_user_path arg ≡ ok names
    → (is_nil names ≡ false) × All IsName names
unfolding split_user_path
split_user_path-IsName arg names h = elim (Result-cases (user_parts (split b'/' arg))) [
  | inl (later, e) ↦
      ground (arith, user_parts-IsName (split b'/' arg) later (contains-split b'/' arg) e)
  | inr (failed, e) ↦ ground arith
]

user_parts_self : (names : List Text) → All IsName names → user_parts names ≡ ok names
unfolding user_parts
user_parts_self [] h = refl
user_parts_self (p ∷ ps) (name, rest) =
    let (dot, dots) = dots_hidden p name.1 in
    rw (full_part p, name.0, dot, dots, name.1, user_parts_self ps rest)

whole_names : (names : List Text) → All IsName names → All (λ v. contains b'/' v ≡ false) names
whole_names [] h = tt
whole_names (p ∷ ps) (name, rest) = (name.2, whole_names ps rest)

join-full :
    (name : Text) (names : List Text)
    → is_nil name ≡ false
    → is_nil (join b'/' (name ∷ names)) ≡ false
unfolding join
join-full [] names h = cc
join-full (x ∷ name) [] h = refl
join-full (x ∷ name) (_ ∷ _) h = refl

-- One or more such components, joined by slashes, are accepted and taken apart again.
pub split_user_path-join :
    (name : Text) (names : List Text)
    → All IsName (name ∷ names)
    → split_user_path (join b'/' (name ∷ names)) ≡ ok (name ∷ names)
unfolding split_user_path
split_user_path-join name names h =
    rw
      (
        split-join b'/' name names h.0.2 (whole_names names h.1),
        user_parts_self (name ∷ names) h,
        split_user_path,
      )
      (ground (arith, join-full name names h.0.0))
