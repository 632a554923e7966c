-- ===== src/Providers/GoogleDrive/Client.antt =====
-- core/src/providers/google_drive/rest.rs: `GoogleDriveClient`. The servers are one argument, a
-- function of their own state; the requests that were sent are kept, the newest first. The JSON
-- texts, the percent encoding and the random boundary are arguments as well.
pub mod Sends
use zz_drop.Prelude.{
  ℕ, zero, suc, ◌+◌, ◌%◌, ◌^◌, Text, Bytes, codes, Bool, true, false, not, Option, none, some, List,
  [], ◌∷◌, ◌++◌, leb, ltb, length, is_some, if◌then◌else◌, Result, ok, err, map_err, ok_or,
}
use zz_drop.Profile.{GoogleDriveAuth, GoogleDriveProfile}
use zz_drop.Providers.Oauth
use zz_drop.Providers.Oauth.{DeviceFlowError, DeviceFlowConfig, TokenResponse, Codecs, Reply}
use zz_drop.Providers.GoogleDrive.{
  GoogleDriveError, apply_refresh, map_oauth, is_success, classify_status, validate_filename,
  escape_q_literal, query_reserved, build_multipart_related,
}

pub data Method : Type 0 where
  get post patch delete : Method

pub record Request : Type 0 where
  pub method : Method
  pub url : Text
  pub authorization : Option Text
  pub content_type : Option Text
  pub body : Bytes

pub record DriveFile : Type 0 where
  pub id : Text
  pub name : Text
  pub size : Option Text
  pub mime_type : Option Text

abbrev pub folder_mime : Text
folder_mime = codes "application/vnd.google-apps.folder"

abbrev pub default_file_mime : Text
default_file_mime = codes "application/octet-stream"

abbrev pub drive_api_base : Text
drive_api_base = codes "https://www.googleapis.com/drive/v3"

abbrev pub drive_upload_base : Text
drive_upload_base = codes "https://www.googleapis.com/upload/drive/v3"

abbrev pub root_parent : Text
root_parent = codes "root"

abbrev pub expiry_skew_secs : ℕ
expiry_skew_secs = 60

-- the first file of a `DriveFileList`, and the id of a `CreatedFile`
pub record Outside (W : Type 0) : Type 0 where
  pub config : DeviceFlowConfig
  pub oauth : Codecs
  pub unix_now : W → ℕ
  pub send : Request → W → Reply × W
  pub folder_json : (name parent_id : Text) → Bytes
  pub file_json : (name parent_id : Text) → Bytes
  pub first_from_slice : Bytes → Option (Option DriveFile)
  pub created_from_slice : Bytes → Option Text
  pub percent_encode : (ℕ → Bool) → Text → Text
  pub fill_bytes : W → Bytes

pub record DriveClient (W : Type 0) : Type 0 where
  pub profile : GoogleDriveProfile
  pub profile_dirty : Bool
  pub world : W
  pub sent : List Request

abbrev pub Op : Type 0 → Type 0 → Type 0
Op W A = DriveClient W → Result GoogleDriveError A × DriveClient W

module _ {W : Type 0} where
  abbrev pub pure : {A : Type 0} → A → Op W A
  pure a c = (ok a, c)

  abbrev pub fail : {A : Type 0} → GoogleDriveError → Op W A
  fail e c = (err e, c)

  abbrev pub continue :
      {A B : Type 0}
      → (A → Op W B)
      → Result GoogleDriveError A × DriveClient W
      → Result GoogleDriveError B × DriveClient W
  continue k (ok a, c) = k a c
  continue k (err e, c) = (err e, c)

  -- `?`: the changes that were made before an error stay
  infixl 5 ◌>>=◌
  abbrev pub ◌>>=◌ : {A B : Type 0} → Op W A → (A → Op W B) → Op W B
  op >>= k = λ c. continue k (op c)

  infixl 5 ◌>>◌
  abbrev pub ◌>>◌ : {A B : Type 0} → Op W A → Op W B → Op W B
  op >> next = op >>= (λ _. next)

  abbrev pub lift : {A : Type 0} → Result GoogleDriveError A → Op W A
  lift r c = (r, c)

module _ {W : Type 0} (o : Outside W) where
  abbrev pub after : Request → DriveClient W → Reply × W → Reply × DriveClient W
  after request c (reply, w) = (reply, record c { world = w; sent = request ∷ c.sent })

  -- `Agent::run`
  unfoldable pub transmit : Request → DriveClient W → Reply × DriveClient W
  transmit request c = after request c (o.send request c.world)

  abbrev pub transport_error : Option Text → GoogleDriveError
  transport_error none = GoogleDriveError.network
  transport_error (some hint) = GoogleDriveError.tls_trust_failed hint

  unfoldable pub read_reply : Reply → Result GoogleDriveError (ℕ × Bytes)
  read_reply Reply.not_built = err GoogleDriveError.network
  read_reply (Reply.failed hint) = err (transport_error hint)
  read_reply (Reply.answered status none) = err GoogleDriveError.decode
  read_reply (Reply.answered status (some bytes)) = ok (status, bytes)

  abbrev pub auth_header : DriveClient W → Text
  auth_header c = codes "Bearer " ++ c.profile.auth.access_token

  -- `json_request` and `binary_request`, which differ in the header `Accept` only
  unfoldable pub json_request : Method → Text → Option Text → Bytes → Op W (ℕ × Bytes)
  json_request method url content_type body c =
      let (reply, c') =
        transmit
          (record {
            method = method;
            url = url;
            authorization = some (auth_header c);
            content_type = content_type;
            body = body;
          })
          c in
      (read_reply reply, c')

  -- `if !is_success(status) { return Err(classify_status(..)) }`
  unfoldable pub successful : ℕ × Bytes → Result GoogleDriveError Bytes
  successful (status, bytes) =
      if is_success status then ok bytes else err (classify_status status bytes)

  abbrev pub refreshed : DriveClient W → TokenResponse → DriveClient W
  refreshed c tokens = record c {
    profile = record c.profile { auth = apply_refresh (o.unix_now c.world) tokens c.profile.auth };
    profile_dirty = true;
  }

  abbrev pub store_tokens :
      DriveClient W
      → Result DeviceFlowError TokenResponse
      → Result GoogleDriveError (Unit {0}) × DriveClient W
  store_tokens c (ok tokens) = (ok tt, refreshed c tokens)
  store_tokens c (err e) = (err (map_oauth e), c)

  unfoldable pub refresh_token_now : Op W (Unit {0})
  refresh_token_now c =
      let (reply, c') =
        transmit
          (record {
            method = post;
            url = o.config.token_endpoint;
            authorization = none;
            content_type = some (codes "application/x-www-form-urlencoded");
            body = Oauth.refresh_form o.oauth o.config c.profile.auth.refresh_token;
          })
          c in
      store_tokens c' (Oauth.refresh o.oauth reply)

  unfoldable pub ensure_fresh_token : Op W (Unit {0})
  ensure_fresh_token c =
      let refresh = refresh_token_now c in
      if leb c.profile.auth.expires_at (o.unix_now c.world + expiry_skew_secs)
      then refresh
      else (ok tt, c)

  abbrev pub mime_filter : Option Text → Text
  mime_filter none = []
  mime_filter (some m) = codes " and mimeType = '" ++ escape_q_literal m ++ codes "'"

  unfoldable pub find_query : (parent_id name : Text) → Option Text → Text
  find_query parent_id name mime =
      codes "'"
      ++ escape_q_literal parent_id
      ++ codes "' in parents and name = '"
      ++ escape_q_literal name
      ++ codes "' and trashed = false"
      ++ mime_filter mime

  unfoldable pub find_in_folder : (parent_id name : Text) → Option Text → Op W (Option DriveFile)
  find_in_folder parent_id name mime = do
    ensure_fresh_token
    answer ←
        json_request get
          (drive_api_base
            ++ codes "/files?q="
            ++ o.percent_encode query_reserved (find_query parent_id name mime)
            ++ codes "&fields=files(id,name,size,mimeType)&pageSize=2&spaces=drive")
          none []
    bytes ← lift (successful answer)
    lift (ok_or GoogleDriveError.decode (o.first_from_slice bytes))

  unfoldable pub create_folder_under : (parent_id name : Text) → Op W Text
  create_folder_under parent_id name = do
    ensure_fresh_token
    answer ←
        json_request post (drive_api_base ++ codes "/files?fields=id")
          (some (codes "application/json")) (o.folder_json name parent_id)
    bytes ← lift (successful answer)
    lift (ok_or GoogleDriveError.decode (o.created_from_slice bytes))

  abbrev pub id_or_create : (parent_id name : Text) → Option DriveFile → Op W Text
  id_or_create parent_id name (some file) = pure file.id
  id_or_create parent_id name none = create_folder_under parent_id name

  unfoldable pub find_or_create_folder_under : (parent_id name : Text) → Op W Text
  find_or_create_folder_under parent_id name = do
    found ← find_in_folder parent_id name (some folder_mime)
    id_or_create parent_id name found

  unfoldable pub cache_root : Text → Op W Text
  cache_root id c = (
    ok id,
    record c { profile = record c.profile { root_folder_id = some id }; profile_dirty = true },
  )

  unfoldable pub create_root : Op W Text
  create_root = do
    ensure_fresh_token
    id ← λ c. find_or_create_folder_under root_parent c.profile.root_folder c
    cache_root id

  unfoldable pub ensure_root_folder : Op W Text
  ensure_root_folder c = elim c.profile.root_folder_id [
    | some id ↦ (ok id, c)
    | none ↦ create_root c
  ]

  unfoldable pub validate_all : List Text → Op W (Unit {0})
  validate_all [] = pure tt
  validate_all (s ∷ rest) = lift (validate_filename s) >> validate_all rest

  unfoldable pub descend_or_create : Text → List Text → Op W Text
  descend_or_create current [] = pure current
  descend_or_create current (seg ∷ segs) =
      find_or_create_folder_under current seg >>= (λ id. descend_or_create id segs)

  unfoldable pub ensure_dir_segments : List Text → Op W Text
  ensure_dir_segments segments = do
    validate_all segments
    root ← ensure_root_folder
    descend_or_create root segments
