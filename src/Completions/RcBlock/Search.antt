-- ===== src/Completions/RcBlock/Search.antt =====
-- Where a marker is found in a text whose lines do not contain it.
use zz_drop.Prelude.{
  ◌≡◌, refl, Bytes, Bool, true, false, ◌||◌, none, some, [], ◌∷◌, ◌++◌, length, ==_iff, ends_with,
  is_nil, contains, arith,
}
use zz_drop.Completions.RcBlock.{starts_with, find_bytes, newline}

starts_with-append : (n rest : Bytes) → starts_with n (n ++ rest) ≡ true
unfolding starts_with
starts_with-append [] rest = refl
starts_with-append (x ∷ n) rest = ground (arith, starts_with-append n rest)

-- A needle without a newline does not reach over one.
starts_with-newline :
    (n s rest : Bytes)
    → contains newline n ≡ false
    → starts_with n (s ++ newline ∷ rest) ≡ starts_with n s
unfolding starts_with contains
starts_with-newline [] s rest h = refl
starts_with-newline (x ∷ n) [] rest h = ground arith
starts_with-newline (x ∷ n) (y ∷ s) rest h = ground (arith, starts_with-newline n s rest)

pub find_bytes-append : (n rest : Bytes) → is_nil n ≡ false → find_bytes n (n ++ rest) ≡ some 0
unfolding find_bytes
find_bytes-append [] rest h = cc
find_bytes-append (x ∷ n) rest h = rw (starts_with-append (x ∷ n) rest)

starts_with-at_newline :
    (n rest : Bytes)
    → is_nil n ≡ false
    → contains newline n ≡ false
    → starts_with n (newline ∷ rest) ≡ false
unfolding starts_with contains
starts_with-at_newline [] rest full h = cc
starts_with-at_newline (x ∷ n) rest full h = ground arith

-- nothing, or whole lines
abbrev pub is_closed : Bytes → Bool
is_closed s = is_nil s || ends_with newline s

starts_with-line :
    (n s rest : Bytes)
    → contains newline n ≡ false
    → ends_with newline s ≡ true
    → starts_with n (s ++ rest) ≡ starts_with n s
unfolding starts_with contains ends_with
starts_with-line n [] rest h line = cc
starts_with-line [] (y ∷ s) rest h line = refl
starts_with-line (x ∷ n) (y ∷ []) rest h line = ground arith
starts_with-line (x ∷ n) (y ∷ z ∷ s) rest h line = ground (arith, starts_with-line n (z ∷ s) rest)

-- Behind whole lines without the needle, the needle is found where it stands.
pub find_bytes-line :
    (n s rest : Bytes)
    → is_nil n ≡ false
    → contains newline n ≡ false
    → is_closed s ≡ true
    → find_bytes n s ≡ none
    → find_bytes n (s ++ (n ++ rest)) ≡ some (length s)
unfolding find_bytes ends_with
find_bytes-line n [] rest full h line absent = find_bytes-append n rest full
find_bytes-line n (x ∷ []) rest full h line absent = ground (
  arith,
  ==_iff x newline,
  starts_with-at_newline n (n ++ rest) full h,
  find_bytes-append n rest full,
)
find_bytes-line n (x ∷ y ∷ s) rest full h line absent =
    ground
      (arith, starts_with-line n (x ∷ y ∷ s) (n ++ rest) h, find_bytes-line n (y ∷ s) rest full h)

pub find_bytes-at_newline :
    (n s : Bytes)
    → is_nil n ≡ false
    → contains newline n ≡ false
    → find_bytes n s ≡ none
    → find_bytes n (newline ∷ s) ≡ none
unfolding find_bytes
find_bytes-at_newline n s full h absent = rw (starts_with-at_newline n s full h, absent)

pub find_bytes-closed :
    (n s : Bytes)
    → is_nil n ≡ false
    → contains newline n ≡ false
    → find_bytes n s ≡ none
    → find_bytes n (s ++ newline ∷ []) ≡ none
unfolding find_bytes
find_bytes-closed n [] full h absent = rw (starts_with-at_newline n [] full h, full)
find_bytes-closed n (x ∷ s) full h absent =
    ground (arith, starts_with-newline n (x ∷ s) [] h, find_bytes-closed n s full h)
