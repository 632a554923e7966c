-- ===== src/Tests/Drive.antt =====
-- The Google Drive client: a run of it, and the theorems at a concrete server.
use zz_drop.Prelude.{
  ℕ, suc, Bytes, Option, ◌==◌, if◌then◌else◌, ◌≡◌, ◌≢◌, refl, codes, false, none, some, List, [],
  ◌∷◌, ◌++◌, All, ok, arith, text_eq, split_last, contains,
}
use zz_drop.Profile.{CollisionPolicy}
use zz_drop.Providers.Oauth.{Reply}
use zz_drop.Agent.State.{RemoteEntry}
use zz_drop.Providers.GoogleDrive.Listing.{
  DriveFileList, fetch_page, entry_of, size_as_u64, parse_u64, digits_u64, folder_to_list, list_at,
}
use zz_drop.Providers.GoogleDrive.Listing.Pages.{Served, last, more, list_at-Served}
use zz_drop.Providers.GoogleDrive.{
  GoogleDriveError, classify_status, body_mentions_rate_limit, contains_text, is_utf8,
  make_boundary, escape_q_literal, is_success, validate_filename,
}
use zz_drop.Providers.GoogleDrive.Escape.{read_string, read_string-escape_q_literal}
use zz_drop.Providers.GoogleDrive.Client.{
  Method, Request, Outside, DriveClient, transmit, read_reply, json_request, ensure_fresh_token,
  find_in_folder, ensure_root_folder, validate_all, successful,
}
use zz_drop.Providers.GoogleDrive.Client.Sends.{KeepsFiles}
use zz_drop.Providers.GoogleDrive.Upload.{post_file, create_file, store_file, parent_of, upload_to}
use zz_drop.Providers.GoogleDrive.Upload.Keeps.{upload_to-OnlyAdds}

-- A server that is always content and has no file; its state is the time.
abbrev empty_drive : Outside ℕ
empty_drive = record {
  config = record {
    device_code_endpoint = codes "https://d";
    token_endpoint = codes "https://t";
    client_id = codes "c";
    client_secret = none;
    scope = codes "s";
  };
  oauth = record {
    form = λ pairs. [];
    code_from_slice = λ body. none;
    token_from_slice = λ body. none;
    error_from_slice = λ body. none;
  };
  unix_now = λ now. now;
  send = λ request now. (Reply.answered 200 (some (codes "{}")), now);
  folder_json = λ name parent_id. name;
  file_json = λ name parent_id. name;
  first_from_slice = λ body. some none;
  created_from_slice = λ body. some (codes "id");
  percent_encode = λ set t. t;
  fill_bytes = λ now. 0 ∷ 1 ∷ 2 ∷ 3 ∷ 4 ∷ 5 ∷ 6 ∷ 7 ∷ 8 ∷ 9 ∷ 10 ∷ 255 ∷ [];
}

abbrev fresh : DriveClient ℕ
fresh = record {
  profile = record {
    root_folder = codes "zz-drop";
    user_email = [];
    root_folder_id = some (codes "root-id");
    auth = record {
      access_token = codes "A";
      refresh_token = codes "R";
      token_type = codes "Bearer";
      expires_at = 5000;
      scope = [];
    };
  };
  profile_dirty = false;
  world = 1000;
  sent = [];
}

abbrev methods : List Request → List Method
methods [] = []
methods (r ∷ rs) = r.method ∷ methods rs

-- one search, then one new file
uploaded :
    (upload_to empty_drive (some (codes "hi")) (codes "a.md" ∷ []) CollisionPolicy.fail fresh).0
    ≡ ok (record { final_name = codes "a.md"; size = 2; renamed = false })
unfolding upload_to split_last validate_all validate_filename text_eq contains parent_of
    ensure_root_folder store_file find_in_folder ensure_fresh_token json_request transmit read_reply
    successful is_success create_file post_file make_boundary
uploaded = refl

not_overwrite : CollisionPolicy.fail ≢ CollisionPolicy.overwrite
not_overwrite h = absurd (ground arith)

upload_to-OnlyAdds_example :
    All KeepsFiles
      (upload_to empty_drive
        (some (codes "hi"))
        (codes "a.md" ∷ [])
        CollisionPolicy.fail
        fresh).1.sent
upload_to-OnlyAdds_example =
    upload_to-OnlyAdds empty_drive (some (codes "hi")) (codes "a.md" ∷ []) CollisionPolicy.fail
      not_overwrite fresh tt

read_string-escape_q_literal_example :
    read_string false (escape_q_literal (codes "it's") ++ codes "' and trashed = false")
    ≡ some (codes "it's", codes " and trashed = false")
read_string-escape_q_literal_example =
    read_string-escape_q_literal (codes "it's") (codes " and trashed = false")

-- an answer of 403 that names the limit
limited :
    classify_status 403 (codes "{\"reason\": \"rateLimitExceeded\"}")
    ≡ GoogleDriveError.rate_limited
unfolding classify_status body_mentions_rate_limit contains_text is_utf8
limited = refl

-- The server of two pages: the first answer names a token, the others none.
abbrev two_pages : Bytes → Option DriveFileList
two_pages [] = none
two_pages (b ∷ bs) = some (record {
  files = record { id = codes "i"; name = b ∷ []; size = some (codes "12"); mime_type = none } ∷ [];
  next_page_token = if b == b'1' then some (codes "t") else none;
})

-- It counts the requests.
abbrev paged_drive : Outside ℕ
paged_drive = record empty_drive {
  send =
      λ request n. (Reply.answered 200 (some (if n == 1000 then codes "1" else codes "2")), suc n);
}

abbrev listed : List RemoteEntry
listed =
    record { name = codes "1"; size = some 12; is_directory = false }
    ∷ record { name = codes "2"; size = some 12; is_directory = false }
    ∷ []

served :
    (c₂ : DriveClient ℕ) × Served paged_drive two_pages
      (λ body. none)
      (codes "root-id")
      none
      fresh
      listed
      c₂
      2
unfolding fetch_page json_request transmit read_reply successful is_success entry_of size_as_u64
    parse_u64 digits_u64
served = (_, more refl refl (last refl refl))

resolved :
    folder_to_list paged_drive two_pages (λ body. none) [] fresh ≡ (ok (codes "root-id"), fresh)
unfolding folder_to_list ensure_fresh_token ensure_root_folder
resolved = refl

list_at-Served_example :
    list_at paged_drive two_pages (λ body. none) 5 [] fresh ≡ some (ok listed, served.0)
list_at-Served_example =
    list_at-Served paged_drive two_pages (λ body. none) 5 2 [] (codes "root-id") fresh fresh
      served.0 listed resolved served.1 (ground arith)
