-- ===== src/Providers/Nextcloud/Paths/Safe.antt =====
-- What an encoded path tells the server.
use zz_drop.Prelude.{
  ℕ, ◌≡◌, ◌≢◌, refl, sym, subst, ap, ◌∙◌, ◌<◌, Text, codes, Bool, true, false, ◌||◌, ◌&&◌, leb, All,
  List, [], ◌∷◌, ◌++◌, ◌==◌, map, append-nil, is_nil, text_eq, contains, split, join, trim_matches,
  ok, arith, >>=-eq-ok, >>-eq-ok, ◌>>=◌, Bool-cases, inl, inr, ◌⊎◌,
}
use zz_drop.Prelude.Segments.{split-join}
use zz_drop.Providers.Nextcloud.Paths.{
  segment_reserved, validate_filename, encode_rest, encode_path, encode_remote_root,
}

-- what an escape is written with: the percent sign and the digits of base 16
abbrev pub in_escape : ℕ → Bool
in_escape c = c == b'%' || (leb b'0' c && leb c b'9') || (leb b'A' c && leb c b'F')

-- What the crate documents: an ASCII code in the set does not stay, but where an escape is written
-- with it, and a slash is not made up.
pub record Encodes (encode : (ℕ → Bool) → Text → Text) : Type 0 where
  pub removes :
      (set : ℕ → Bool) (c : ℕ) (t : Text)
      → set c ≡ true
      → c < 128
      → in_escape c ≡ false
      → contains c (encode set t) ≡ false
  pub no_slash :
      (set : ℕ → Bool) (t : Text) → contains b'/' t ≡ false → contains b'/' (encode set t) ≡ false

-- one name, neither this directory nor the one above
abbrev pub IsFilename : Text → Type 0
IsFilename name =
    (is_nil name ≡ false)
    × (text_eq name (codes ".") ≡ false)
    × (text_eq name (codes "..") ≡ false)
    × (contains b'/' name ≡ false)
    × (contains b'\\' name ≡ false)
    × (contains 0 name ≡ false)

validate_filename-IsFilename : (name : Text) → validate_filename name ≡ ok tt → IsFilename name
unfolding validate_filename
validate_filename-IsFilename name h = ground arith

contains-append :
    (c : ℕ) (a b : Text) → contains c a ≡ false → contains c b ≡ false → contains c (a ++ b) ≡ false
unfolding contains
contains-append c [] b ha hb = hb
contains-append c (x ∷ a) b ha hb = ground (arith, contains-append c a b)

contains-cons : (c x : ℕ) (t : Text) → c ≢ x → contains c t ≡ false → contains c (x ∷ t) ≡ false
unfolding contains
contains-cons c x t other h = ground arith

contains-join :
    (c : ℕ) (w : Text) (ws : List Text)
    → c ≢ b'/'
    → All (λ v. contains c v ≡ false) (w ∷ ws)
    → contains c (join b'/' (w ∷ ws)) ≡ false
unfolding join
contains-join c w [] other (h, hs) = h
contains-join c w (v ∷ ws) other (h, hs) =
    contains-append c w (b'/' ∷ join b'/' (v ∷ ws)) h
      (contains-cons c b'/' (join b'/' (v ∷ ws)) other (contains-join c v ws other hs))

module _ (encode : (ℕ → Bool) → Text → Text) (law : Encodes encode) where
  abbrev encoded : List Text → List Text
  encoded segs = map (encode segment_reserved) segs

  encode_rest-join :
      (first : Text) (segs : List Text) (body : Text)
      → encode_rest encode segs ≡ ok body
      → (All IsFilename segs) × (join b'/' (first ∷ encoded segs) ≡ first ++ body)
  unfolding encode_rest join
  encode_rest-join first [] body h = (
    tt,
    let nothing : [] ≡ body = ground arith in sym (append-nil first) ∙ ap (λ b. first ++ b) nothing,
  )
  encode_rest-join first (seg ∷ segs) body h =
      let (valid, h1) = >>-eq-ok (validate_filename seg) _ h in
      let (rest, made, h2) = >>=-eq-ok (encode_rest encode segs) _ h1 in
      let (all_valid, joined) = encode_rest-join (encode segment_reserved seg) segs rest made in
      (
        (validate_filename-IsFilename seg valid, all_valid),
        let whole : b'/' ∷ (encode segment_reserved seg ++ rest) ≡ body = ground arith in
            ap (λ t. first ++ b'/' ∷ t) joined ∙ ap (λ t. first ++ t) whole,
      )

  -- a code that no encoded name holds
  abbrev Absent : ℕ → List Text → Type 0
  Absent c segs = All (λ v. contains c v ≡ false) (encoded segs)

  encoded-Absent :
      (c : ℕ) (segs : List Text)
      → segment_reserved c ≡ true
      → c < 128
      → in_escape c ≡ false
      → Absent c segs
  encoded-Absent c [] reserved ascii other = tt
  encoded-Absent c (seg ∷ segs) reserved ascii other = (
    law.removes segment_reserved c seg reserved ascii other,
    encoded-Absent c segs reserved ascii other,
  )

  encoded-slash : (segs : List Text) → All IsFilename segs → Absent b'/' segs
  encoded-slash [] valid = tt
  encoded-slash (seg ∷ segs) (h, hs) =
      (law.no_slash segment_reserved seg (h.3), encoded-slash segs hs)

  -- Split at its slashes, an encoded path gives back the encoded names, and it has neither a query nor
  -- a fragment.
  abbrev pub Request : List Text → Text → Type 0
  Request segs body =
      All IsFilename segs
      × (split b'/' body ≡ encoded segs)
      × (contains b'?' body ≡ false)
      × (contains b'#' body ≡ false)

  -- A path that `encode_path` accepts has valid file names; split at its slashes,
  -- its encoding gives the encoded names, one for one, and has no question mark and no number sign.
  pub encode_path-Request :
      (segs : List Text) (body : Text) → encode_path encode segs ≡ ok body → Request segs body
  unfolding encode_path
  encode_path-Request [] body h = cc
  encode_path-Request (seg ∷ segs) body h =
      let (valid, h1) = >>-eq-ok (validate_filename seg) _ h in
      let (rest, made, h2) = >>=-eq-ok (encode_rest encode segs) _ h1 in
      let whole : encode segment_reserved seg ++ rest ≡ body = ground arith in
      let first = encode segment_reserved seg in
      let (all_valid, joined) = encode_rest-join first segs rest made in
      let slashes =
        encoded-slash (seg ∷ segs) (validate_filename-IsFilename seg valid, all_valid) in
      let request : Request (seg ∷ segs) (join b'/' (first ∷ encoded segs)) = (
        (validate_filename-IsFilename seg valid, all_valid),
        split-join b'/' first (encoded segs) slashes.0 slashes.1,
        contains-join b'?' first (encoded segs) (omega arith)
            (encoded-Absent b'?' (seg ∷ segs) refl (omega arith) refl),
        contains-join b'#' first (encoded segs) (omega arith)
            (encoded-Absent b'#' (seg ∷ segs) refl (omega arith) refl),
      ) in
      subst (Request (seg ∷ segs)) (joined ∙ whole) request

  -- The root itself, or the names between the slashes of the given root.
  abbrev pub RootRequest : Text → Text → Type 0
  RootRequest root path =
      (path ≡ codes "/")
      ⊎ ((body : Text) × (path ≡ b'/' ∷ body) × Request (split b'/' (trim_matches b'/' root)) body)

  -- A remote root that is accepted is encoded as the root itself, or as a slash and the encoded names
  -- between the slashes of the given text, each a valid file name; no question mark and no number sign
  -- is left in it. For a percent encoding that does what its crate documents.
  pub encode_remote_root-RootRequest :
      (root path : Text) → encode_remote_root encode root ≡ ok path → RootRequest root path
  unfolding encode_remote_root
  encode_remote_root-RootRequest root path h = elim (Bool-cases (is_nil (trim_matches b'/' root))) [
    | inl bare ↦ inl (ground arith)
    | inr full ↦
        let trimmed = trim_matches b'/' root in
        let runs : encode_remote_root encode root
            ≡ (encode_path encode (split b'/' trimmed) >>= λ body. ok (b'/' ∷ body)) =
          rw (full, encode_remote_root) refl in
        let (body, made, h1) =
          >>=-eq-ok (encode_path encode (split b'/' trimmed)) _ (sym runs ∙ h) in
        let whole : path ≡ b'/' ∷ body = ground arith in
        inr (body, whole, encode_path-Request (split b'/' trimmed) body made)
  ]
