-- ===== src/Providers/GoogleDrive/Listing.antt =====
-- core/src/providers/google_drive/rest.rs: the listing of a folder, which comes in pages, and the
-- address of the user. The pages are fetched on fuel: `none` when it runs out. The decoders of the two
-- answers are arguments.
pub mod Pages
use zz_drop.Prelude.{
  ℕ, zero, suc, ◌+◌, ◌-◌, ◌*◌, ◌^◌, Text, Bytes, codes, Bool, true, false, ◌&&◌, Option, none, some,
  List, [], ◌∷◌, ◌++◌, ◌==◌, map, is_nil, leb, ltb, if◌then◌else◌, text_eq, Result, ok, err, ok_or,
}
use zz_drop.Agent.State.{RemoteEntry}
use zz_drop.Providers.GoogleDrive.{GoogleDriveError, escape_q_literal, query_reserved}
use zz_drop.Providers.GoogleDrive.Client.{
  Method, DriveFile, Outside, DriveClient, Op, ◌>>=◌, ◌>>◌, lift, folder_mime, drive_api_base,
  json_request, successful, ensure_fresh_token, ensure_root_folder,
}
use zz_drop.Providers.GoogleDrive.Upload.{resolve_dir_segments}

pub record DriveFileList : Type 0 where
  pub files : List DriveFile
  pub next_page_token : Option Text

-- `str::parse::<u64>`: the digits behind an optional plus
unfoldable pub digits_u64 : ℕ → Text → Option ℕ
digits_u64 n [] = some n
digits_u64 n (d ∷ ds) =
    let n' = n * 10 + (d - b'0') in
    let rest = digits_u64 n' ds in
    if leb b'0' d && leb d b'9' && ltb n' (2 ^ 64) then rest else none

unfoldable pub parse_u64 : Text → Option ℕ
parse_u64 [] = none
parse_u64 (c ∷ cs) =
    if c == b'+' then (if is_nil cs then none else digits_u64 0 cs) else digits_u64 0 (c ∷ cs)

abbrev pub parsed_size : Option Text → Option ℕ
parsed_size none = none
parsed_size (some s) = parse_u64 s

unfoldable pub size_as_u64 : DriveFile → Option ℕ
size_as_u64 f = parsed_size f.size

abbrev pub is_folder : Option Text → Bool
is_folder none = false
is_folder (some mime) = text_eq mime folder_mime

unfoldable pub entry_of : DriveFile → RemoteEntry
entry_of f = record { name = f.name; size = size_as_u64 f; is_directory = is_folder f.mime_type }

abbrev pub page_size : Text
page_size = codes "200"

module _ {W : Type 0} (o : Outside W) (page_from_slice : Bytes → Option DriveFileList)
    (email_from_slice : Bytes → Option Text) where
  abbrev pub page_parameter : Option Text → Text
  page_parameter none = []
  page_parameter (some token) = codes "&pageToken=" ++ o.percent_encode query_reserved token

  unfoldable pub page_url : (parent_id : Text) → Option Text → Text
  page_url parent_id token =
      drive_api_base
      ++ codes "/files?q="
      ++ o.percent_encode query_reserved
          (codes "'" ++ escape_q_literal parent_id ++ codes "' in parents and trashed = false")
      ++ codes "&fields=nextPageToken,files(id,name,size,mimeType)&pageSize="
      ++ page_size
      ++ codes "&spaces=drive"
      ++ page_parameter token

  unfoldable pub fetch_page : (parent_id : Text) → Option Text → Op W DriveFileList
  fetch_page parent_id token = do
    answer ← json_request o Method.get (page_url parent_id token) none []
    bytes ← lift (successful o answer)
    lift (ok_or GoogleDriveError.decode (page_from_slice bytes))

  abbrev pub Outcome : Type 0
  Outcome = Option (Result GoogleDriveError (List RemoteEntry) × DriveClient W)

  abbrev pub next_page :
      (Option Text → List RemoteEntry → DriveClient W → Outcome)
      → List RemoteEntry
      → Option Text
      → DriveClient W
      → Outcome
  next_page loop entries none c = some (ok entries, c)
  next_page loop entries (some token) c = loop (some token) entries c

  abbrev pub after_page :
      (Option Text → List RemoteEntry → DriveClient W → Outcome)
      → List RemoteEntry
      → Result GoogleDriveError DriveFileList × DriveClient W
      → Outcome
  after_page loop entries (err e, c) = some (err e, c)
  after_page loop entries (ok page, c) =
      next_page loop (entries ++ map entry_of page.files) page.next_page_token c

  unfoldable pub list_pages :
      (fuel : ℕ) → (parent_id : Text) → Option Text → List RemoteEntry → DriveClient W → Outcome
  list_pages zero parent_id token entries c = none
  list_pages (suc fuel) parent_id token entries c =
      after_page (list_pages fuel parent_id) entries (fetch_page parent_id token c)

  unfoldable pub folder_to_list : List Text → Op W Text
  folder_to_list segments = do
    ensure_fresh_token o
    if is_nil segments then ensure_root_folder o else resolve_dir_segments o segments

  abbrev pub list_from : (fuel : ℕ) → Result GoogleDriveError Text × DriveClient W → Outcome
  list_from fuel (err e, c) = some (err e, c)
  list_from fuel (ok parent_id, c) = list_pages fuel parent_id none [] c

  unfoldable pub list_at : (fuel : ℕ) → List Text → DriveClient W → Outcome
  list_at fuel segments c = list_from fuel (folder_to_list segments c)

  unfoldable pub fetch_user_email : Op W Text
  fetch_user_email = do
    ensure_fresh_token o
    answer ←
        json_request o Method.get (drive_api_base ++ codes "/about?fields=user(emailAddress)") none
          []
    bytes ← lift (successful o answer)
    lift (ok_or GoogleDriveError.decode (email_from_slice bytes))
