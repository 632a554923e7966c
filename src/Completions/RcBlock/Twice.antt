-- ===== src/Completions/RcBlock/Twice.antt =====
-- Writing the block over itself.
use zz_drop.Prelude.{
  ℕ, suc, ◌+◌, ◌≡◌, refl, sym, ap, ◌∙◌, Bytes, false, none, [], ◌∷◌, ◌++◌, take, drop, length,
  text_eq_refl, ok, is_nil, arith, append_assoc, take-length-append, drop-length-append,
}
use zz_drop.Completions.{block_start, block_end, RcAction}
use zz_drop.Completions.RcBlock.{
  find_bytes, newline, render_block, write_text, appended, trim_end_bytes, slice, RcDisk, RcAnswers,
  read_or_empty, atomic_write, write_block,
}
use zz_drop.Completions.RcBlock.Inserted.{size, gap, appended-gap, lines, find_block-appended}
use zz_drop.Completions.RcBlock.RoundTrip.{write_text-fresh}

-- the block without its last newline
abbrev block : Bytes → Bytes
block inner = block_start ++ (newline ∷ inner ++ block_end)

render_block-block : (body : Bytes) → render_block body ≡ block (lines body) ++ newline ∷ []
unfolding render_block
render_block-block body = sym (
    append_assoc block_start (newline ∷ lines body ++ block_end) (newline ∷ [])
    ∙ ap (λ b. block_start ++ b) (append_assoc (newline ∷ lines body) block_end (newline ∷ [])))

trim_end_bytes-append :
    (s rest : Bytes) → trim_end_bytes rest ≡ [] → trim_end_bytes (s ++ rest) ≡ trim_end_bytes s
unfolding trim_end_bytes
trim_end_bytes-append [] rest h = h
trim_end_bytes-append (x ∷ s) rest h = rw (trim_end_bytes-append s rest h)

append-nonempty : (s : Bytes) → is_nil (s ++ block_end) ≡ false
append-nonempty [] = refl
append-nonempty (x ∷ s) = refl

trim_end_bytes-marker : (s : Bytes) → trim_end_bytes (s ++ block_end) ≡ s ++ block_end
unfolding trim_end_bytes
trim_end_bytes-marker [] = refl
trim_end_bytes-marker (x ∷ s) = rw (trim_end_bytes-marker s, append-nonempty s)

trim_end_bytes-block : (inner : Bytes) → trim_end_bytes (block inner) ≡ block inner
trim_end_bytes-block inner =
    let e = append_assoc block_start (newline ∷ inner) block_end in
    ap trim_end_bytes (sym e) ∙ trim_end_bytes-marker (block_start ++ newline ∷ inner) ∙ e

newline_trimmed : trim_end_bytes (newline ∷ []) ≡ []
unfolding trim_end_bytes
newline_trimmed = refl

take-plus : (a b : Bytes) (k : ℕ) → take (length a + k) (a ++ b) ≡ a ++ take k b
take-plus [] b k = let e : 0 + k ≡ k = omega arith in ap (λ n. take n b) e
take-plus (x ∷ a) b k =
    let e : suc (length a) + k ≡ suc (length a + k) = omega arith in
    ap (λ n. take n (x ∷ a ++ b)) e ∙ ap (◌∷◌ x) (take-plus a b k)

take-block :
    (inner rest : Bytes)
    → take (size inner) (block_start ++ (newline ∷ inner ++ (block_end ++ rest))) ≡ block inner
unfolding size
take-block inner rest =
    take-plus block_start (newline ∷ inner ++ (block_end ++ rest)) _
    ∙ ap (λ b. block_start ++ b)
        (take-plus (newline ∷ inner) (block_end ++ rest) _
          ∙ ap (λ b. newline ∷ inner ++ b) (take-length-append block_end rest))

slice-block :
    (pre inner rest : Bytes)
    → slice
        (length pre)
        (length pre + size inner)
        (pre ++ (block_start ++ (newline ∷ inner ++ (block_end ++ rest))))
      ≡ block inner
slice-block pre inner rest =
    ap (drop (length pre)) (
      take-plus pre (block_start ++ (newline ∷ inner ++ (block_end ++ rest))) (size inner)
      ∙ ap (λ b. pre ++ b) (take-block inner rest))
    ∙ drop-length-append pre (block inner)

write_text-appended :
    (existing body : Bytes)
    → find_bytes block_start existing ≡ none
    → find_bytes block_end body ≡ none
    → write_text body (appended existing (render_block body)) ≡ (RcAction.unchanged, none)
unfolding write_text
write_text-appended existing body no_start no_end =
    let next = appended existing (render_block body) in
    let on_disk : slice (length (gap existing)) (length (gap existing) + size (lines body)) next
        ≡ block (lines body) =
      rw (appended-gap existing (render_block body))
        (unfold render_block in slice-block (gap existing) (lines body) (newline ∷ [])) in
    let desired : trim_end_bytes (render_block body) ≡ block (lines body) =
      ap trim_end_bytes (render_block-block body)
      ∙ trim_end_bytes-append (block (lines body)) (newline ∷ []) newline_trimmed
      ∙ trim_end_bytes-block (lines body) in
    rw (
      find_block-appended existing body no_start no_end,
      on_disk,
      desired,
      trim_end_bytes-block (lines body),
      text_eq_refl (block (lines body)),
      write_text,
    )

-- A block, around a body without the closing marker, was written into a text without the opening
-- marker. Writing it again into that file, if the file can be read, answers `Unchanged` and
-- leaves the disk as it was.
pub write_block-write_block :
    (body existing : Bytes) (os later : RcAnswers) (disk disk' : RcDisk) (action : RcAction)
    → read_or_empty os disk ≡ ok existing
    → find_bytes block_start existing ≡ none
    → find_bytes block_end body ≡ none
    → write_block body os disk ≡ (ok action, disk')
    → later.read ≡ none
    → write_block body later disk' ≡ (ok RcAction.unchanged, disk')
unfolding write_block read_or_empty atomic_write
write_block-write_block body existing os later disk disk' action read no_start no_end written
      works =
    ground (
      arith,
      write_text-fresh body existing no_start,
      write_text-appended existing body no_start no_end,
    )
