-- ===== src/Providers/GoogleDrive.antt =====
-- core/src/providers/google_drive: errors.rs and the helpers of rest.rs.
pub mod Client
pub mod Construct
pub mod Upload
pub mod Listing
pub mod Escape
use zz_drop.Prelude.{
  ℕ, ◌+◌, ◌-◌, ◌/◌, ◌%◌, ◌^◌, Text, Bytes, codes, Bool, true, false, ◌&&◌, ◌||◌, not, Option, none,
  some, List, [], ◌∷◌, ◌++◌, ◌==◌, leb, ltb, any, text_eq, is_nil, contains, Result, ok, err,
  if◌then◌else◌,
}
use zz_drop.Profile.{GoogleDriveAuth}
use zz_drop.Providers.Oauth.{DeviceFlowError, TokenResponse}

pub data GoogleDriveError : Type 0 where
  oauth : DeviceFlowError → GoogleDriveError
  bad_root token_expired unauthorized not_found conflict rate_limited network local_io decode :
      GoogleDriveError
  server_error : (status : ℕ) → GoogleDriveError
  tls_trust_failed : (hint : Text) → GoogleDriveError

abbrev pub or_old : Option Text → Text → Text
or_old none old = old
or_old (some new) old = new

unfoldable pub apply_refresh : (now : ℕ) → TokenResponse → GoogleDriveAuth → GoogleDriveAuth
apply_refresh now tokens auth = record {
  access_token = tokens.access_token;
  refresh_token = or_old tokens.refresh_token auth.refresh_token;
  token_type = tokens.token_type;
  expires_at = (now + tokens.expires_in) % 2 ^ 64;
  scope = or_old tokens.scope auth.scope;
}

unfoldable pub map_oauth : DeviceFlowError → GoogleDriveError
map_oauth DeviceFlowError.network = GoogleDriveError.network
map_oauth DeviceFlowError.decode = GoogleDriveError.decode
map_oauth (DeviceFlowError.server_error status) = GoogleDriveError.server_error status
map_oauth DeviceFlowError.invalid_client = GoogleDriveError.token_expired
map_oauth DeviceFlowError.invalid_grant = GoogleDriveError.token_expired
map_oauth DeviceFlowError.access_denied = GoogleDriveError.token_expired
map_oauth DeviceFlowError.expired = GoogleDriveError.token_expired
map_oauth e = GoogleDriveError.oauth e

unfoldable pub is_success : ℕ → Bool
is_success status = leb 200 status && ltb status 300

-- `str::from_utf8`: the ranges of the bytes that must follow a leading byte
abbrev lead : ℕ → Option (List (ℕ × ℕ))
lead b =
    let next : ℕ × ℕ = (128, 191) in
    if ltb b 128
    then some []
    else if ltb b 194
    then none
    else if ltb b 224
    then some (next ∷ [])
    else if b == 224
    then some ((160, 191) ∷ next ∷ [])
    else if b == 237
    then some ((128, 159) ∷ next ∷ [])
    else if ltb b 240
    then some (next ∷ next ∷ [])
    else if b == 240
    then some ((144, 191) ∷ next ∷ next ∷ [])
    else if ltb b 244
    then some (next ∷ next ∷ next ∷ [])
    else if b == 244
    then some ((128, 143) ∷ next ∷ next ∷ [])
    else none

unfoldable pub is_utf8 : (due : List (ℕ × ℕ)) → Bytes → Bool
is_utf8 [] [] = true
is_utf8 (r ∷ rs) [] = false
is_utf8 [] (b ∷ bs) = elim (lead b) [ none ↦ false | some due ↦ is_utf8 due bs ]
is_utf8 ((low, high) ∷ rs) (b ∷ bs) = leb low b && leb b high && is_utf8 rs bs

abbrev starts_with : Bytes → Bytes → Bool
starts_with _ [] = true
starts_with [] (p ∷ ps) = false
starts_with (b ∷ bs) (p ∷ ps) = b == p && starts_with bs ps

-- `str::contains` on encoded text
unfoldable pub contains_text : (pattern : Bytes) → Bytes → Bool
contains_text pattern [] = is_nil pattern
contains_text pattern (b ∷ bs) = starts_with (b ∷ bs) pattern || contains_text pattern bs

unfoldable pub body_mentions_rate_limit : Bytes → Bool
body_mentions_rate_limit body =
    let s = if is_utf8 [] body then body else [] in
    contains_text (codes "userRateLimitExceeded") s || contains_text (codes "rateLimitExceeded") s

unfoldable pub classify_status : ℕ → Bytes → GoogleDriveError
classify_status status body =
    if status == 401
    then GoogleDriveError.unauthorized
    else if status == 403
    then (if body_mentions_rate_limit body
        then GoogleDriveError.rate_limited
        else GoogleDriveError.unauthorized)
    else if status == 404
    then GoogleDriveError.not_found
    else if status == 409
    then GoogleDriveError.conflict
    else if status == 429
    then GoogleDriveError.rate_limited
    else GoogleDriveError.server_error status

abbrev hex_digit : ℕ → ℕ
hex_digit d = if ltb d 10 then b'0' + d else b'a' + (d - 10)

abbrev hex : Bytes → Text
hex [] = []
hex (b ∷ bs) = hex_digit (b / 16) ∷ hex_digit (b % 16) ∷ hex bs

-- `bytes` are the twelve random ones
unfoldable pub make_boundary : (bytes : Bytes) → Text
make_boundary bytes = codes "zzdrop_" ++ hex bytes

unfoldable pub validate_filename : Text → Result GoogleDriveError (Unit {0})
validate_filename name =
    if is_nil name || text_eq name (codes ".") || text_eq name (codes "..")
    then err GoogleDriveError.bad_root
    else if contains b'/' name || contains 0 name
    then err GoogleDriveError.bad_root
    else ok tt

unfoldable pub write_part : (boundary content_type content : Bytes) → Bytes
write_part boundary content_type content =
    codes "--"
    ++ boundary
    ++ codes "\r\nContent-Type: "
    ++ content_type
    ++ codes "\r\n\r\n"
    ++ content
    ++ codes "\r\n"

unfoldable pub build_multipart_related : (metadata file_bytes file_mime boundary : Bytes) → Bytes
build_multipart_related metadata file_bytes file_mime boundary =
    write_part boundary (codes "application/json; charset=UTF-8") metadata
    ++ write_part boundary file_mime file_bytes
    ++ codes "--"
    ++ boundary
    ++ codes "--\r\n"

-- `replace(c, with)` for one character
unfoldable pub replace : ℕ → Text → Text → Text
replace c new [] = []
replace c new (x ∷ xs) = let rest = replace c new xs in if x == c then new ++ rest else x ∷ rest

unfoldable pub escape_q_literal : Text → Text
escape_q_literal s = replace b'\'' (codes "\\'") (replace b'\\' (codes "\\\\") s)

-- the set of `url_query_escape`
abbrev pub query_reserved : ℕ → Bool
query_reserved c = ltb c 32 || c == 127 || any (λ r. c == r) (codes " \"#<>%&+/?='")
