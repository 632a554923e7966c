-- ===== src/Completions/RcBlock.antt =====
-- core/src/completions/rc_block.rs: the delimited block in an rc file. A `String` is the list of its
-- bytes here, since the source computes with byte offsets.
pub mod Search
pub mod Inserted
pub mod RoundTrip
pub mod Twice
use zz_drop.Prelude.{
  ℕ, suc, ◌+◌, ◌-◌, ◌≤◌, Text, Bytes, codes, Bool, true, false, not, ◌&&◌, ◌||◌, Option, none, some,
  List, [], ◌∷◌, ◌++◌, take, drop, length, ltb, leb, ◌==◌, text_eq, if◌then◌else◌, Result, ok, err,
  ends_with, is_nil,
}
use zz_drop.Completions.{block_start, block_end, RcAction}

abbrev pub newline : ℕ
newline = 10

-- `starts_with` and `find` of `str`
unfoldable pub starts_with : Bytes → Bytes → Bool
starts_with [] s = true
starts_with (n ∷ ns) [] = false
starts_with (n ∷ ns) (x ∷ xs) = n == x && starts_with ns xs

unfoldable pub find_bytes : Bytes → Bytes → Option ℕ
find_bytes needle [] = if is_nil needle then some 0 else none
find_bytes needle (x ∷ xs) =
    let rest = find_bytes needle xs in
    if starts_with needle (x ∷ xs)
    then some 0
    else elim rest [ none ↦ none | some i ↦ some (suc i) ]

-- `as_bytes().get(i)`
abbrev pub byte_at : ℕ → Bytes → Option ℕ
byte_at i s = elim (drop i s) [ [] ↦ none | b ∷ _ ↦ some b ]

abbrev pub is_newline_at : ℕ → Bytes → Bool
is_newline_at i s = elim (byte_at i s) [ none ↦ false | some b ↦ b == newline ]

-- `is_char_boundary` of a text in UTF-8: not at a continuation byte
abbrev pub is_char_boundary : ℕ → Bytes → Bool
is_char_boundary i s = elim (byte_at i s) [ none ↦ i == length s | some b ↦ ltb b 128 || leb 192 b ]

-- `&s[..b][a..]`
abbrev pub slice : ℕ → ℕ → Bytes → Bytes
slice a b s = drop a (take b s)

-- `trim_end()`; both texts that the source trims end with the closing marker, behind which there is
-- nothing but white space of one byte
unfoldable pub trim_end_bytes : Bytes → Bytes
trim_end_bytes [] = []
trim_end_bytes (x ∷ xs) =
    let rest = trim_end_bytes xs in
    if is_nil rest && (x == 32 || (leb 9 x && leb x 13)) then [] else x ∷ rest

unfoldable pub render_block : Bytes → Bytes
render_block body =
    block_start
    ++ newline
      ∷ ((if ends_with newline body then body else body ++ newline ∷ [])
          ++ (block_end ++ newline ∷ []))

unfoldable pub find_block : Bytes → Option (ℕ × ℕ)
unfolding find_bytes
find_block body = elim (find_bytes block_start body) [
  | none ↦ none
  | some s ↦
      let after = s + length block_start in
      elim (find_bytes block_end (drop after body)) [
        | none ↦ none
        | some e_rel ↦ some (s, after + e_rel + length block_end)
      ]
]

-- the content behind an insertion
unfoldable pub appended : Bytes → Bytes → Bytes
appended existing desired_block =
    let closed =
      if not (is_nil existing) && not (ends_with newline existing)
      then existing ++ newline ∷ []
      else existing in
    (if is_nil closed then closed else closed ++ newline ∷ []) ++ desired_block

-- the content behind an update of the block at `start`..`end_`
unfoldable pub replaced : ℕ → ℕ → Bytes → Bytes → Bytes
replaced start end_ existing desired_block =
    take start existing
    ++ ((if is_newline_at end_ existing then trim_end_bytes desired_block else desired_block)
        ++ drop end_ existing)

-- what `write_block` does to the text of the file: the action, and the text if it is written
unfoldable pub write_text : Bytes → Bytes → RcAction × Option Bytes
write_text body existing =
    let desired_block = render_block body in
    elim (find_block existing) [
      | some (start, end_) ↦
          if text_eq (trim_end_bytes (slice start end_ existing)) (trim_end_bytes desired_block)
          then (RcAction.unchanged, none)
          else (RcAction.updated, some (replaced start end_ existing desired_block))
      | none ↦ (RcAction.inserted, some (appended existing desired_block))
    ]

-- The start of what is removed. `none` is the panic of a slice that begins inside a character.
unfoldable pub removal_start : ℕ → Bytes → Option ℕ
removal_start start existing =
    if ltb start 1
    then some start
    else if ltb start 2
    then some (
        if is_newline_at (start - 1) existing && is_newline_at (start - 2) existing
        then start - 1
        else start)
    else if not (is_char_boundary (start - 2) existing)
    then none
    else if text_eq (slice (start - 2) start existing) (newline ∷ newline ∷ [])
    then some (start - 1)
    else some (
        if is_newline_at (start - 1) existing && is_newline_at (start - 2) existing
        then start - 1
        else start)

-- what `remove_block` makes of the text of the file, behind the panic: `none` if there is no block
unfoldable pub remove_text : Bytes → Option (Option Bytes)
remove_text existing = elim (find_block existing) [
  | none ↦ some none
  | some (start, end_) ↦
      let end' = if is_newline_at end_ existing then end_ + 1 else end_ in
      elim (removal_start start existing) [
        | none ↦ none
        | some start' ↦ some (some (take start' existing ++ drop end' existing))
      ]
]

-- the rc file, and the same path with the extension `zzdrop.tmp`
pub record RcDisk : Type 0 where
  pub content : Option Bytes
  pub tmp : Option Bytes

-- What the operating system answers: for each call that can fail the call, `none` or the error (of a
-- read, one other than `NotFound`), and what a failed write leaves. The mode bits, whose errors the
-- source ignores, are not modelled.
pub record RcAnswers : Type 0 where
  pub read : Option Text
  pub has_parent : Bool
  pub create_dir_all : Option Text
  pub write : Option Text
  pub rename : Option Text
  pub partial : Bytes

unfoldable pub read_or_empty : RcAnswers → RcDisk → Result Text Bytes
read_or_empty os disk = elim disk.content [
  | none ↦ ok []
  | some text ↦ elim os.read [ none ↦ ok text | some e ↦ err e ]
]

-- behind `create_dir_all`
abbrev stage_and_rename : Bytes → RcAnswers → RcDisk → Result Text (Unit {0}) × RcDisk
stage_and_rename text os disk = elim os.write [
  | some e ↦ (err e, record disk { tmp = some os.partial })
  | none ↦ elim os.rename [
    | some e ↦ (err e, record disk { tmp = some text })
    | none ↦ (ok tt, record { content = some text; tmp = none })
  ]
]

unfoldable pub atomic_write : Bytes → RcAnswers → RcDisk → Result Text (Unit {0}) × RcDisk
atomic_write text os disk =
    if os.has_parent
    then elim os.create_dir_all [ some e ↦ (err e, disk) | none ↦ stage_and_rename text os disk ]
    else stage_and_rename text os disk

-- `atomic_write(..)?; Ok(a)`
abbrev then_ok {ℓ} : {A : Type ℓ} → A → Result Text (Unit {0}) × RcDisk → Result Text A × RcDisk
then_ok a (ok _, disk) = (ok a, disk)
then_ok a (err e, disk) = (err e, disk)

unfoldable pub write_block : Bytes → RcAnswers → RcDisk → Result Text RcAction × RcDisk
write_block body os disk = elim (read_or_empty os disk) [
  | err e ↦ (err e, disk)
  | ok existing ↦
      let (action, next) = write_text body existing in
      elim next [
        | none ↦ (ok action, disk)
        | some text ↦ then_ok action (atomic_write text os disk)
      ]
]

-- `none` is a panic
unfoldable pub remove_block : RcAnswers → RcDisk → Option (Result Text Bool × RcDisk)
remove_block os disk = elim disk.content [
  | none ↦ some (ok false, disk)
  | some _ ↦ elim (read_or_empty os disk) [
    | err e ↦ some (err e, disk)
    | ok existing ↦ elim (remove_text existing) [
      | none ↦ none
      | some none ↦ some (ok false, disk)
      | some (some text) ↦ some (then_ok true (atomic_write text os disk))
    ]
  ]
]

unfoldable pub contains_block : RcAnswers → RcDisk → Result Text Bool
contains_block os disk = elim disk.content [
  | none ↦ ok false
  | some _ ↦ elim (read_or_empty os disk) [
    | err e ↦ err e
    | ok body ↦ ok (elim (find_block body) [ none ↦ false | some _ ↦ true ])
  ]
]
