-- ===== src/Agent/ListCache/Chain.antt =====
-- `walk_to_root`: which prefixes stand on the way from a target to the root.
use zz_drop.Prelude.{
  ℕ, zero, suc, ◌<◌, ◌≤◌, ◌≡◌, ◌↔◌, inl, inr, refl, Text, Bool, true, false, Option, none, some,
  List, [], ◌∷◌, ◌++◌, length, take, All, any, text_eq, text_eq_iff, text_eq_refl, ◌==◌, ==_iff,
  option_text_eq, arith, segments, join, ends_with, Bool-cases, map, length-take, ap,
}
use zz_drop.Prelude.Segments.{IsClean, segments-join, segments-IsClean, ends_with-join}
use zz_drop.Agent.ListCache.{descending, walk_to_root}

-- whether a prefix stands in a chain
abbrev pub on_chain : Option Text → List (Option Text) → Bool
on_chain p chain = any (λ q. option_text_eq p q) chain

-- `p` is the target's first `i` segments, joined, for some `i` from 1 on.
abbrev pub IsAncestor : Text → Text → Type 0
IsAncestor target p =
    (i : ℕ) × (0 < i) × (i ≤ length (segments target)) × (p ≡ join b'/' (take i (segments target)))

on_chain-descending :
    (p : Text) (n : ℕ) (segs : List Text)
    → on_chain (some p) (descending n segs ++ none ∷ []) ≡ true
    → (i : ℕ) × (0 < i) × (i ≤ n) × (p ≡ join b'/' (take i segs))
unfolding descending option_text_eq
on_chain-descending p zero segs h = cc
on_chain-descending p (suc n) segs h =
    elim (Bool-cases (text_eq p (join b'/' (take (suc n) segs)))) [
      | inl e ↦
          (suc n, omega arith, omega arith, (text_eq_iff p (join b'/' (take (suc n) segs))).0 e)
      | inr e ↦
          let (i, pos, le, q) = on_chain-descending p n segs (ground arith) in
          (i, pos, omega arith, q)
    ]

descending-on_chain :
    (i n : ℕ) (segs : List Text)
    → 0 < i
    → i ≤ n
    → on_chain (some (join b'/' (take i segs))) (descending n segs ++ none ∷ []) ≡ true
unfolding descending option_text_eq
descending-on_chain i zero segs pos le = absurd (omega arith)
descending-on_chain i (suc n) segs pos le = elim (Bool-cases (i == suc n)) [
  | inl e ↦ rw ((==_iff i (suc n)).0 e, text_eq_refl)
  | inr e ↦ ground (arith, descending-on_chain i n segs pos)
]

pub on_chain-some :
    (target p : Text)
    → (on_chain (some p) (walk_to_root (some target)) ≡ true) ↔ IsAncestor target p
unfolding walk_to_root
on_chain-some target p = (
  on_chain-descending p (length (segments target)) (segments target),
  λ (i, pos, le, e).
      rw e (descending-on_chain i (length (segments target)) (segments target) pos le),
)

root_last : (n : ℕ) (segs : List Text) → on_chain none (descending n segs ++ none ∷ []) ≡ true
unfolding descending option_text_eq
root_last zero segs = refl
root_last (suc n) segs = root_last n segs

pub walk_to_root-root : (target : Option Text) → on_chain none (walk_to_root target) ≡ true
unfolding walk_to_root option_text_eq
walk_to_root-root none = refl
walk_to_root-root (some p) = root_last (length (segments p)) (segments p)

IsClean-take : (n : ℕ) (ws : List Text) → All IsClean ws → All IsClean (take n ws)
IsClean-take zero ws h = tt
IsClean-take (suc n) [] h = tt
IsClean-take (suc n) (w ∷ ws) (h, hs) = (h, IsClean-take n ws hs)

ends_with-joined : (ws : List Text) → All IsClean ws → ends_with b'/' (join b'/' ws) ≡ false
ends_with-joined [] h = unfold join ends_with in refl
ends_with-joined (w ∷ ws) (h, hs) = ends_with-join w ws h hs

-- No ancestor ends with a slash.
pub IsAncestor-ends_with : (target p : Text) → IsAncestor target p → ends_with b'/' p ≡ false
IsAncestor-ends_with target p (i, pos, le, e) =
    rw e (ends_with-joined _ (IsClean-take i (segments target) (segments-IsClean target)))

segments-joined : (ws : List Text) → 0 < length ws → All IsClean ws → segments (join b'/' ws) ≡ ws
segments-joined [] some_ h = absurd (omega arith)
segments-joined (w ∷ ws) some_ (h, hs) = segments-join w ws h hs

-- A joined leading part of a target has the segments of that part.
pub segments-ancestor :
    (target : Text) (i : ℕ)
    → 0 < i
    → i ≤ length (segments target)
    → segments (join b'/' (take i (segments target))) ≡ take i (segments target)
segments-ancestor target i pos le =
    segments-joined (take i (segments target)) (omega (arith, length-take i (segments target)))
      (IsClean-take i (segments target) (segments-IsClean target))

-- how many segments deep an element of a chain is
abbrev pub depth : Option Text → ℕ
depth none = 0
depth (some p) = length (segments p)

-- `n`, `n - 1` and so on to `0`
abbrev pub countdown : ℕ → List ℕ
countdown zero = 0 ∷ []
countdown (suc n) = suc n ∷ countdown n

depth-descending :
    (target : Text) (n : ℕ)
    → n ≤ length (segments target)
    → map depth (descending n (segments target) ++ none ∷ []) ≡ countdown n
unfolding descending
depth-descending target zero le = refl
depth-descending target (suc n) le =
    rw
      (
        segments-ancestor target (suc n) (omega arith) le,
        length-take,
        depth-descending target n (omega arith),
      )
      (ap (λ k. k ∷ countdown n) (omega arith))

-- the root, or an ancestor
abbrev pub OnWay : Text → Option Text → Type 0
OnWay target none = Unit {0}
OnWay target (some p) = IsAncestor target p

on_chain_iff :
    (target : Text) (q : Option Text)
    → (on_chain q (walk_to_root (some target)) ≡ true) ↔ OnWay target q
on_chain_iff target none = (λ _. tt, λ _. walk_to_root-root (some target))
on_chain_iff target (some p) = on_chain-some target p

-- The chain of a target holds exactly the target's joined leading segments and the root; they come
-- from the deepest to the root, each depth once.
pub walk_to_root_lem :
    (target : Text) (q : Option Text)
    → ((on_chain q (walk_to_root (some target)) ≡ true) ↔ OnWay target q)
      × (map depth (walk_to_root (some target)) ≡ countdown (length (segments target)))
walk_to_root_lem target q = (
  on_chain_iff target q,
  unfold walk_to_root in depth-descending target (length (segments target)) (omega arith),
)
