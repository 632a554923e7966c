-- ===== src/Completions/RcBlock/Inserted.antt =====
-- What an inserted block is found by: its place behind whole lines, and the lines in it.
use zz_drop.Prelude.{
  ℕ, suc, ◌+◌, ◌≡◌, refl, Bytes, true, false, none, some, [], ◌∷◌, ◌++◌, drop, length,
  if◌then◌else◌, ends_with, is_nil, contains, arith, Bool-cases, inl, inr, append_assoc,
  length-append, drop-length-append,
}
use zz_drop.Completions.{block_start, block_end}
use zz_drop.Completions.RcBlock.{find_bytes, newline, find_block, render_block, appended}
use zz_drop.Completions.RcBlock.Search.{
  is_closed, find_bytes-line, find_bytes-at_newline, find_bytes-closed,
}

-- the text with a newline behind its last line
abbrev pub closed : Bytes → Bytes
closed s = if is_closed s then s else s ++ newline ∷ []

pub ends_with-closing : (s : Bytes) → ends_with newline (s ++ newline ∷ []) ≡ true
unfolding ends_with
ends_with-closing [] = refl
ends_with-closing (x ∷ []) = refl
ends_with-closing (x ∷ y ∷ s) = ends_with-closing (y ∷ s)

unfoldable pub size : Bytes → ℕ
size inner = length block_start + (suc (length inner) + length block_end)

no_newlines : (contains newline block_start ≡ false) × (contains newline block_end ≡ false)
unfolding contains
no_newlines = (refl, refl)

pub drop-two : (a b rest : Bytes) → drop (length a + length b) (a ++ (b ++ rest)) ≡ rest
drop-two a b rest =
    rw (← append_assoc a b rest, ← length-append a b) (drop-length-append (a ++ b) rest)

ends_with-lines : (inner : Bytes) → is_closed inner ≡ true → is_closed (newline ∷ inner) ≡ true
unfolding ends_with
ends_with-lines [] h = refl
ends_with-lines (x ∷ inner) h = ground arith

-- The block is found behind whole lines without an opening marker.
find_block-line :
    (pre inner rest : Bytes)
    → is_closed pre ≡ true
    → is_closed inner ≡ true
    → find_bytes block_start pre ≡ none
    → find_bytes block_end inner ≡ none
    → find_block (pre ++ (block_start ++ (newline ∷ inner ++ (block_end ++ rest))))
      ≡ some (length pre, length pre + size inner)
unfolding find_block size
find_block-line pre inner rest line lines no_start no_end =
    let first =
      find_bytes-line block_start pre (newline ∷ inner ++ (block_end ++ rest)) refl no_newlines.0
        line no_start in
    let second =
      find_bytes-line block_end (newline ∷ inner) rest refl no_newlines.1
        (ends_with-lines inner lines)
        (find_bytes-at_newline block_end inner refl no_newlines.1 no_end) in
    rw
      (first, drop-two pre block_start (newline ∷ inner ++ (block_end ++ rest)), second, find_block)
      (ground arith)

-- what stands in front of an inserted block
abbrev pub gap : Bytes → Bytes
gap existing = if is_nil existing then [] else closed existing ++ newline ∷ []

pub appended-gap : (existing desired : Bytes) → appended existing desired ≡ gap existing ++ desired
unfolding appended
appended-gap [] desired = refl
appended-gap (x ∷ s) desired = elim (Bool-cases (ends_with newline (x ∷ s))) [
  | inl line ↦ rw line
  | inr open_ ↦ rw open_
]

-- the lines between the markers
abbrev pub lines : Bytes → Bytes
lines body = if ends_with newline body then body else body ++ newline ∷ []

is_closed-line : (s : Bytes) → ends_with newline s ≡ true → is_closed s ≡ true
is_closed-line s h = ground arith

lines-closed : (body : Bytes) → is_closed (lines body) ≡ true
lines-closed body = elim (Bool-cases (ends_with newline body)) [
  | inl line ↦ rw line (is_closed-line body line)
  | inr open_ ↦ rw open_ (is_closed-line (body ++ newline ∷ []) (ends_with-closing body))
]

lines-absent :
    (body : Bytes) → find_bytes block_end body ≡ none → find_bytes block_end (lines body) ≡ none
lines-absent body h = elim (Bool-cases (ends_with newline body)) [
  | inl line ↦ rw line h
  | inr open_ ↦ rw open_ (find_bytes-closed block_end body refl no_newlines.1 h)
]

closed-absent :
    (s : Bytes) → find_bytes block_start s ≡ none → find_bytes block_start (closed s) ≡ none
closed-absent s h = elim (Bool-cases (is_closed s)) [
  | inl line ↦ rw line h
  | inr open_ ↦ rw open_ (find_bytes-closed block_start s refl no_newlines.0 h)
]

gap-absent : (s : Bytes) → find_bytes block_start s ≡ none → find_bytes block_start (gap s) ≡ none
gap-absent [] h = h
gap-absent (x ∷ s) h =
    find_bytes-closed block_start (closed (x ∷ s)) refl no_newlines.0 (closed-absent (x ∷ s) h)

gap-closed : (s : Bytes) → is_closed (gap s) ≡ true
gap-closed [] = refl
gap-closed (x ∷ s) = is_closed-line (gap (x ∷ s)) (ends_with-closing (closed (x ∷ s)))

pub find_block-appended :
    (existing body : Bytes)
    → find_bytes block_start existing ≡ none
    → find_bytes block_end body ≡ none
    → find_block (appended existing (render_block body))
      ≡ some (length (gap existing), length (gap existing) + size (lines body))
unfolding render_block
find_block-appended existing body no_start no_end = rw (appended-gap existing (render_block body)) (
    find_block-line (gap existing) (lines body) (newline ∷ []) (gap-closed existing)
      (lines-closed body) (gap-absent existing no_start) (lines-absent body no_end))
