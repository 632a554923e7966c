-- ===== src/Providers/Nextcloud/Paths.antt =====
-- core/src/providers/nextcloud/path.rs. The crate `percent_encoding` is an argument: `encode` takes
-- the set of the codes to be encoded and a text.
pub mod Safe
use zz_drop.Prelude.{
  ℕ, Text, codes, Bool, true, false, not, ◌&&◌, ◌||◌, any, List, [], ◌∷◌, ◌++◌, ◌==◌, ltb, text_eq,
  is_nil, contains, split, trim_matches, Result, ok, err, if◌then◌else◌, ◌>>=◌, ◌>>◌,
}

pub data PathError : Type 0 where
  empty has_separator parent_reference has_nul : PathError

-- `CONTROLS` is 0 to 31 and 127.
abbrev pub segment_reserved : ℕ → Bool
segment_reserved c = ltb c 32 || c == 127 || any (λ r. c == r) (codes " \"#<>?`{}%^|\\[]@:;=&+")

unfoldable pub validate_filename : Text → Result PathError (Unit {0})
validate_filename name =
    if is_nil name
    then err PathError.empty
    else if text_eq name (codes ".") || text_eq name (codes "..")
    then err PathError.parent_reference
    else if contains b'/' name || contains b'\\' name
    then err PathError.has_separator
    else if contains 0 name
    then err PathError.has_nul
    else ok tt

module _ (encode : (ℕ → Bool) → Text → Text) where
  abbrev pub encode_segment : Text → Text
  encode_segment segment = encode segment_reserved segment

  -- the loop of `encode_path` from its second round on: a slash in front of each segment
  unfoldable pub encode_rest : List Text → Result PathError Text
  encode_rest [] = ok []
  encode_rest (seg ∷ segs) = do
    validate_filename seg
    rest ← encode_rest segs
    ok (b'/' ∷ (encode_segment seg ++ rest))

  unfoldable pub encode_path : List Text → Result PathError Text
  encode_path [] = err PathError.empty
  encode_path (seg ∷ segs) = do
    validate_filename seg
    rest ← encode_rest segs
    ok (encode_segment seg ++ rest)

  unfoldable pub encode_remote_root : Text → Result PathError Text
  encode_remote_root root =
      let trimmed = trim_matches b'/' root in
      if is_nil trimmed
      then ok (codes "/")
      else (encode_path (split b'/' trimmed) >>= λ body. ok (b'/' ∷ body))
