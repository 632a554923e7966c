-- ===== src/Providers/GoogleDrive/Upload.antt =====
-- core/src/providers/google_drive/rest.rs: upload, with the three policies on a name that is taken,
-- download and deletion.
pub mod Keeps
use zz_drop.Prelude.{
  ℕ, zero, suc, ◌+◌, ◌-◌, Text, Bytes, codes, Bool, true, false, Option, none, some, List, [], ◌∷◌,
  ◌++◌, ◌==◌, length, is_some, is_nil, ltb, if◌then◌else◌, Result, ok, err, ok_or, split_last,
}
use zz_drop.Profile.{CollisionPolicy}
use zz_drop.Providers.Nextcloud.Collision.{rename_with_suffix_at}
use zz_drop.Providers.GoogleDrive.{
  make_boundary, GoogleDriveError, build_multipart_related, validate_filename,
}
use zz_drop.Providers.GoogleDrive.Client.{
  Method, DriveFile, Outside, DriveClient, Op, ◌>>=◌, ◌>>◌, pure, fail, lift, folder_mime,
  default_file_mime, drive_upload_base, drive_api_base, json_request, successful,
  ensure_fresh_token, find_in_folder, ensure_root_folder, validate_all, ensure_dir_segments,
}

abbrev pub rename_max_tries : ℕ
rename_max_tries = 100

pub record UploadOutcome : Type 0 where
  pub final_name : Text
  pub size : ℕ
  pub renamed : Bool

module _ {W : Type 0} (o : Outside W) where
  -- the request of `create_file`
  unfoldable pub post_file : (parent_id name : Text) → Bytes → Op W (ℕ × Bytes)
  post_file parent_id name bytes c =
      let boundary = make_boundary (o.fill_bytes c.world) in
      json_request o Method.post
        (drive_upload_base ++ codes "/files?uploadType=multipart&fields=id")
        (some (codes "multipart/related; boundary=" ++ boundary))
        (build_multipart_related (o.file_json name parent_id) bytes default_file_mime boundary) c

  unfoldable pub create_file : (parent_id name : Text) → Bytes → Op W Text
  create_file parent_id name bytes = do
    ensure_fresh_token o
    answer ← post_file parent_id name bytes
    body ← lift (successful o answer)
    lift (ok_or GoogleDriveError.decode (o.created_from_slice body))

  unfoldable pub update_file_content : (file_id : Text) → Bytes → Op W (Unit {0})
  update_file_content file_id bytes = do
    ensure_fresh_token o
    answer ←
        json_request o Method.patch
          (drive_upload_base ++ codes "/files/" ++ file_id ++ codes "?uploadType=media")
          (some default_file_mime) bytes
    lift (successful o answer)
    pure tt

  abbrev pub outcome : Text → Bytes → Bool → UploadOutcome
  outcome name body renamed = record { final_name = name; size = length body; renamed = renamed }

  abbrev pub create_as : (parent_id name : Text) → Bytes → Bool → Op W UploadOutcome
  create_as parent_id name body renamed =
      create_file parent_id name body >> pure (outcome name body renamed)

  abbrev pub overwrite_found :
      (parent_id leaf : Text) → Bytes → Option DriveFile → Op W UploadOutcome
  overwrite_found parent_id leaf body (some existing) =
      update_file_content existing.id body >> pure (outcome leaf body false)
  overwrite_found parent_id leaf body none = create_as parent_id leaf body false

  abbrev pub fail_found : (parent_id leaf : Text) → Bytes → Option DriveFile → Op W UploadOutcome
  fail_found parent_id leaf body (some existing) = fail GoogleDriveError.conflict
  fail_found parent_id leaf body none = create_as parent_id leaf body false

  abbrev pub rename_found :
      (parent_id candidate : Text)
      → Bytes
      → (n : ℕ) → Op W UploadOutcome
      → Option DriveFile
      → Op W UploadOutcome
  rename_found parent_id candidate body n next (some existing) = next
  rename_found parent_id candidate body n next none = create_as parent_id candidate body (ltb 0 n)

  -- the loop from attempt `n` on, with `left` attempts
  unfoldable pub rename_attempts :
      (left n : ℕ) → (parent_id leaf : Text) → Bytes → Op W UploadOutcome
  rename_attempts zero n parent_id leaf body c = (err GoogleDriveError.conflict, c)
  rename_attempts (suc left) n parent_id leaf body c =
      let candidate = rename_with_suffix_at leaf n (o.unix_now c.world) in
      let next = rename_attempts left (suc n) parent_id leaf body in
      (find_in_folder o parent_id candidate none >>= rename_found parent_id candidate body n next) c

  unfoldable pub store_file : CollisionPolicy → (parent_id leaf : Text) → Bytes → Op W UploadOutcome
  store_file CollisionPolicy.overwrite parent_id leaf body =
      find_in_folder o parent_id leaf none >>= overwrite_found parent_id leaf body
  store_file CollisionPolicy.fail parent_id leaf body =
      find_in_folder o parent_id leaf none >>= fail_found parent_id leaf body
  store_file CollisionPolicy.rename parent_id leaf body =
      rename_attempts (suc rename_max_tries) 0 parent_id leaf body

  -- the parent of the last segment
  unfoldable pub parent_of : List Text → Op W Text
  parent_of front = if is_nil front then ensure_root_folder o else ensure_dir_segments o front

  -- `local` is what `fs::read` answers
  unfoldable pub upload_to :
      (local : Option Bytes) → List Text → CollisionPolicy → Op W UploadOutcome
  upload_to local segments policy = elim (split_last segments) [
    | none ↦ fail GoogleDriveError.bad_root
    | some (front, leaf) ↦ validate_all o segments >> parent_of front >>= λ parent_id.
        lift (ok_or GoogleDriveError.local_io local) >>= λ body.
        store_file policy parent_id leaf body
  ]

  abbrev pub id_of_found : Option DriveFile → Op W Text
  id_of_found (some f) = pure f.id
  id_of_found none = fail GoogleDriveError.not_found

  unfoldable pub descend : Text → List Text → Op W Text
  descend current [] = pure current
  descend current (seg ∷ segs) =
      find_in_folder o current seg (some folder_mime) >>= id_of_found >>= λ id. descend id segs

  unfoldable pub resolve_dir_segments : List Text → Op W Text
  resolve_dir_segments segments = ensure_root_folder o >>= λ root. descend root segments

  unfoldable pub resolve_file_path : List Text → Op W (Option DriveFile)
  resolve_file_path segments = elim (split_last segments) [
    | none ↦ fail GoogleDriveError.not_found
    | some (front, leaf) ↦
        validate_all o segments
        >> (if is_nil front then ensure_root_folder o else resolve_dir_segments front)
        >>= λ parent_id. find_in_folder o parent_id leaf none
  ]

  unfoldable pub delete_at : List Text → (hard : Bool) → Op W (Unit {0})
  delete_at segments hard = do
    found ← resolve_file_path segments
    id ← id_of_found found
    ensure_fresh_token o
    let url = drive_api_base ++ codes "/files/" ++ id
    answer ←
        if hard
        then json_request o Method.delete url none []
        else json_request o Method.patch url (some (codes "application/json"))
            (codes "{\"trashed\":true}")
    lift (successful o answer)
    pure tt

  -- `written` is whether `fs::write` works
  unfoldable pub download_from : List Text → (written : Bool) → Op W ℕ
  download_from segments written = do
    found ← resolve_file_path segments
    id ← id_of_found found
    ensure_fresh_token o
    answer ←
        json_request o Method.get (drive_api_base ++ codes "/files/" ++ id ++ codes "?alt=media")
          none []
    body ← lift (successful o answer)
    if written then pure (length body) else fail GoogleDriveError.local_io
