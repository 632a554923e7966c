-- ===== src/Completions/RcBlock/RoundTrip.antt =====
-- Writing the block and removing it.
use zz_drop.Prelude.{
  ℕ, zero, suc, ◌+◌, ◌-◌, ◌≡◌, refl, sym, ap, ◌∙◌, Bytes, true, none, some, [], ◌∷◌, ◌++◌, take,
  drop, length, ==_iff, text_eq, ok, ends_with, arith, Bool-cases, inl, inr, append_assoc,
  length-append, append-nil, drop-length-append,
}
use zz_drop.Completions.{block_start, block_end, RcAction}
use zz_drop.Completions.RcBlock.{
  find_bytes, newline, find_block, render_block, write_text, remove_text, removal_start, appended,
  is_newline_at, RcDisk, RcAnswers, read_or_empty, atomic_write, write_block, remove_block, byte_at,
  is_char_boundary,
}
use zz_drop.Completions.RcBlock.Inserted.{
  closed, ends_with-closing, size, drop-two, gap, appended-gap, lines, find_block-appended,
}

ends_with-eq-true : (s : Bytes) → ends_with newline s ≡ true → (q : Bytes) × (s ≡ q ++ newline ∷ [])
unfolding ends_with
ends_with-eq-true [] h = cc
ends_with-eq-true (x ∷ []) h = ([], ground (arith, ==_iff x newline))
ends_with-eq-true (x ∷ y ∷ s) h = let (q, e) = ends_with-eq-true (y ∷ s) h in (x ∷ q, ap (◌∷◌ x) e)

take-two :
    (q r : Bytes)
    → take (suc (suc (length q))) (q ++ newline ∷ newline ∷ r) ≡ q ++ newline ∷ newline ∷ []
take-two [] r = refl
take-two (x ∷ q) r = ap (◌∷◌ x) (take-two q r)

is_char_boundary-newline : (q r : Bytes) → is_char_boundary (length q) (q ++ newline ∷ r) ≡ true
is_char_boundary-newline q r =
    rw (drop-length-append q (newline ∷ r), is_char_boundary, byte_at) refl

-- An empty line in front of the block goes with it.
removal_start-blank :
    (q r : Bytes)
    → removal_start (suc (suc (length q))) (q ++ newline ∷ newline ∷ r) ≡ some (suc (length q))
unfolding removal_start text_eq
removal_start-blank q r =
    let n = length q in
    let two : suc (suc n) - 2 ≡ n = omega arith in
    let one : suc (suc n) - 1 ≡ suc n = omega arith in
    rw
      (
        two,
        one,
        take-two q r,
        is_char_boundary-newline q (newline ∷ r),
        drop-length-append q (newline ∷ newline ∷ []),
        removal_start,
      )
      (ground arith)

drop-plus_one : (n b : ℕ) (s rest : Bytes) → drop n s ≡ b ∷ rest → drop (n + 1) s ≡ rest
drop-plus_one zero b s rest h = ap (drop 1) h
drop-plus_one (suc n) b [] rest h = cc
drop-plus_one (suc n) b (x ∷ s) rest h =
    let e : suc n + 1 ≡ suc (n + 1) = omega arith in rw e (drop-plus_one n b s rest h)

drop-plus : (a b : Bytes) (k : ℕ) → drop (length a + k) (a ++ b) ≡ drop k b
drop-plus [] b k = let e : 0 + k ≡ k = omega arith in ap (λ n. drop n b) e
drop-plus (x ∷ a) b k =
    let e : suc (length a) + k ≡ suc (length a + k) = omega arith in
    ap (λ n. drop n (x ∷ a ++ b)) e ∙ drop-plus a b k

remove_text-at :
    (s rest : Bytes) (start end_ start' : ℕ)
    → find_block s ≡ some (start, end_)
    → drop end_ s ≡ newline ∷ rest
    → removal_start start s ≡ some start'
    → remove_text s ≡ some (some (take start' s ++ rest))
unfolding remove_text
remove_text-at s rest start end_ start' found behind from = rw (
  found,
  from,
  remove_text,
  is_newline_at,
  byte_at,
  behind,
  drop-plus_one end_ newline s rest behind,
)

drop-block :
    (pre inner rest : Bytes)
    → drop
        (length pre + size inner)
        (pre ++ (block_start ++ (newline ∷ inner ++ (block_end ++ rest))))
      ≡ rest
unfolding size
drop-block pre inner rest =
    drop-plus pre (block_start ++ (newline ∷ inner ++ (block_end ++ rest))) _
    ∙ drop-plus block_start (newline ∷ inner ++ (block_end ++ rest)) _
    ∙ drop-two (newline ∷ inner) block_end rest

closed-line : (x : ℕ) (s : Bytes) → ends_with newline (closed (x ∷ s)) ≡ true
closed-line x s = elim (Bool-cases (ends_with newline (x ∷ s))) [
  | inl line ↦ rw line line
  | inr open_ ↦ rw open_ (ends_with-closing (x ∷ s))
]

abbrev blank : Bytes → Bytes
blank q = q ++ newline ∷ []

blank-blank : (q desired : Bytes) → blank (blank q) ++ desired ≡ q ++ newline ∷ newline ∷ desired
blank-blank q desired =
    append_assoc (blank q) (newline ∷ []) desired
    ∙ append_assoc q (newline ∷ []) (newline ∷ desired)

length-blank : (q : Bytes) → length (blank q) ≡ suc (length q)
length-blank q = omega (arith, length-append q (newline ∷ []))

take-blank : (q r : Bytes) → take (suc (length q)) (q ++ newline ∷ r) ≡ blank q
take-blank [] r = refl
take-blank (x ∷ q) r = ap (◌∷◌ x) (take-blank q r)

removal_start-line :
    (q desired : Bytes)
    → (removal_start (length (blank (blank q))) (blank (blank q) ++ desired)
        ≡ some (suc (length q)))
      × (take (suc (length q)) (blank (blank q) ++ desired) ++ [] ≡ blank q)
removal_start-line q desired = (
  rw (blank-blank q desired, length-blank (blank q), length-blank q)
      (removal_start-blank q desired),
  rw (blank-blank q desired, take-blank q (newline ∷ desired)) (append-nil (blank q)),
)

removal_start-appended :
    (existing desired : Bytes)
    → (start' : ℕ) × (removal_start (length (gap existing)) (appended existing desired)
        ≡ some start')
      × (take start' (appended existing desired) ++ [] ≡ closed existing)
removal_start-appended [] desired = (0, unfold removal_start in refl, refl)
removal_start-appended (x ∷ s) desired =
    let (q, e) = ends_with-eq-true (closed (x ∷ s)) (closed-line x s) in
    let (from, left) = removal_start-line q desired in
    let same : gap (x ∷ s) ≡ blank (blank q) = ap blank e in
    (
      suc (length q),
      rw (appended-gap (x ∷ s) desired, same) from,
      rw (appended-gap (x ∷ s) desired, same) (left ∙ sym e),
    )

-- Removing the block that was inserted gives back the text, with a newline behind its last line.
remove_text-appended :
    (existing body : Bytes)
    → find_bytes block_start existing ≡ none
    → find_bytes block_end body ≡ none
    → remove_text (appended existing (render_block body)) ≡ some (some (closed existing))
unfolding render_block
remove_text-appended existing body no_start no_end =
    let next = appended existing (render_block body) in
    let behind : drop (length (gap existing) + size (lines body)) next ≡ newline ∷ [] =
      rw (appended-gap existing (render_block body))
        (drop-block (gap existing) (lines body) (newline ∷ [])) in
    let (start', from, left) = removal_start-appended existing (render_block body) in
    rw (
      remove_text-at next [] _ _ start' (find_block-appended existing body no_start no_end) behind
          from,
      left,
    )

pub write_text-fresh :
    (body existing : Bytes)
    → find_bytes block_start existing ≡ none
    → write_text body existing ≡ (RcAction.inserted, some (appended existing (render_block body)))
unfolding write_text find_block
write_text-fresh body existing h = rw (h, find_block, write_text)

-- No call fails.
abbrev pub Succeeds : RcAnswers → Type 0
Succeeds os = (os.read ≡ none) × (os.create_dir_all ≡ none) × (os.write ≡ none) × (os.rename ≡ none)

-- The block, around a body without the closing marker, is written into a text without the opening
-- marker, and then removed by calls that all succeed. Then the file has the old text again, with
-- a newline behind its last line if there was none, and nothing if there was no file. The removal
-- does not panic.
pub remove_block-write_block :
    (body existing : Bytes) (os later : RcAnswers) (disk disk' : RcDisk) (action : RcAction)
    → read_or_empty os disk ≡ ok existing
    → find_bytes block_start existing ≡ none
    → find_bytes block_end body ≡ none
    → write_block body os disk ≡ (ok action, disk')
    → Succeeds later
    → remove_block later disk'
      ≡ some (ok true, record { content = some (closed existing); tmp = none })
unfolding write_block remove_block read_or_empty atomic_write
remove_block-write_block body existing os later disk disk' action read no_start no_end written
      (r, c, w, n) =
    ground (
      arith,
      write_text-fresh body existing no_start,
      remove_text-appended existing body no_start no_end,
    )
