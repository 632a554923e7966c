-- ===== src/Providers/GoogleDrive/Upload/Keeps.antt =====
-- An upload that must not overwrite does not.
use zz_drop.Prelude.{
  ℕ, zero, suc, ◌≢◌, refl, Text, Bytes, codes, Bool, false, Option, none, some, List, [], ◌∷◌, ◌++◌,
  ok, ok_or, ltb, split_last, Option-cases, inl, inr,
}
use zz_drop.Profile.{CollisionPolicy}
use zz_drop.Providers.Nextcloud.Collision.{rename_with_suffix_at}
use zz_drop.Providers.GoogleDrive.{make_boundary, GoogleDriveError, build_multipart_related}
use zz_drop.Providers.GoogleDrive.Client.{
  Method, DriveFile, Outside, Op, ◌>>=◌, ◌>>◌, lift, successful, ensure_fresh_token, find_in_folder,
  validate_all, default_file_mime, drive_upload_base,
}
use zz_drop.Providers.GoogleDrive.Client.Sends.{
  OnlyAdds, >>=-OnlyAdds, lift-OnlyAdds, json_request-OnlyAdds, ensure_fresh_token-OnlyAdds,
  find_in_folder-OnlyAdds, ensure_root_folder-OnlyAdds, validate_all-OnlyAdds,
  ensure_dir_segments-OnlyAdds,
}
use zz_drop.Providers.GoogleDrive.Upload.{
  UploadOutcome, rename_max_tries, post_file, create_file, create_as, outcome, fail_found,
  rename_found, rename_attempts, store_file, parent_of, upload_to,
}

module _ {W : Type 0} (o : Outside W) where
  post_file-OnlyAdds :
      (parent_id name : Text) (bytes : Bytes) → OnlyAdds (post_file o parent_id name bytes)
  unfolding post_file
  post_file-OnlyAdds parent_id name bytes c h =
      let boundary = make_boundary (o.fill_bytes c.world) in
      json_request-OnlyAdds o Method.post
        (drive_upload_base ++ codes "/files?uploadType=multipart&fields=id")
        (some (codes "multipart/related; boundary=" ++ boundary))
        (build_multipart_related (o.file_json name parent_id) bytes default_file_mime boundary) refl
        c h

  -- what is made of the answer to it
  abbrev created : ℕ × Bytes → Op W Text
  created answer = lift (successful o answer) >>= λ body.
      lift (ok_or GoogleDriveError.decode (o.created_from_slice body))

  created-OnlyAdds : (answer : ℕ × Bytes) → OnlyAdds (created answer)
  created-OnlyAdds answer =
      >>=-OnlyAdds (lift (successful o answer))
        (λ body. lift (ok_or GoogleDriveError.decode (o.created_from_slice body)))
        (lift-OnlyAdds (successful o answer))
        (λ body. lift-OnlyAdds (ok_or GoogleDriveError.decode (o.created_from_slice body)))

  create_file-OnlyAdds :
      (parent_id name : Text) (bytes : Bytes) → OnlyAdds (create_file o parent_id name bytes)
  unfolding create_file
  create_file-OnlyAdds parent_id name bytes =
      >>=-OnlyAdds (ensure_fresh_token o) (λ _. post_file o parent_id name bytes >>= created)
        (ensure_fresh_token-OnlyAdds o)
        (λ _.
          >>=-OnlyAdds (post_file o parent_id name bytes) created
            (post_file-OnlyAdds parent_id name bytes) created-OnlyAdds)

  create_as-OnlyAdds :
      (parent_id name : Text) (body : Bytes) (renamed : Bool)
      → OnlyAdds (create_as o parent_id name body renamed)
  create_as-OnlyAdds parent_id name body renamed =
      >>=-OnlyAdds (create_file o parent_id name body) _ (create_file-OnlyAdds parent_id name body)
        (λ _. lift-OnlyAdds (ok (outcome o name body renamed)))

  fail_found-OnlyAdds :
      (parent_id leaf : Text) (body : Bytes) (found : Option DriveFile)
      → OnlyAdds (fail_found o parent_id leaf body found)
  fail_found-OnlyAdds parent_id leaf body (some existing) c h = h
  fail_found-OnlyAdds parent_id leaf body none c h =
      create_as-OnlyAdds parent_id leaf body false c h

  rename_found-OnlyAdds :
      (parent_id candidate : Text) (body : Bytes) (n : ℕ) (next : Op W UploadOutcome)
      (found : Option DriveFile)
      → OnlyAdds next
      → OnlyAdds (rename_found o parent_id candidate body n next found)
  rename_found-OnlyAdds parent_id candidate body n next (some existing) hn c h = hn c h
  rename_found-OnlyAdds parent_id candidate body n next none hn c h =
      create_as-OnlyAdds parent_id candidate body (ltb 0 n) c h

  rename_attempts-OnlyAdds :
      (left n : ℕ) (parent_id leaf : Text) (body : Bytes)
      → OnlyAdds (rename_attempts o left n parent_id leaf body)
  unfolding rename_attempts
  rename_attempts-OnlyAdds zero n parent_id leaf body c h = h
  rename_attempts-OnlyAdds (suc left) n parent_id leaf body c h =
      let candidate = rename_with_suffix_at leaf n (o.unix_now c.world) in
      let next = rename_attempts o left (suc n) parent_id leaf body in
      >>=-OnlyAdds (find_in_folder o parent_id candidate none)
        (rename_found o parent_id candidate body n next)
        (find_in_folder-OnlyAdds o parent_id candidate none)
        (λ found.
          rename_found-OnlyAdds parent_id candidate body n next found
            (rename_attempts-OnlyAdds left (suc n) parent_id leaf body))
        c h

  store_file-OnlyAdds :
      (policy : CollisionPolicy) (parent_id leaf : Text) (body : Bytes)
      → policy ≢ CollisionPolicy.overwrite
      → OnlyAdds (store_file o policy parent_id leaf body)
  unfolding store_file
  store_file-OnlyAdds CollisionPolicy.overwrite parent_id leaf body other c h = absurd (other refl)
  store_file-OnlyAdds CollisionPolicy.fail parent_id leaf body other c h =
      >>=-OnlyAdds (find_in_folder o parent_id leaf none) (fail_found o parent_id leaf body)
        (find_in_folder-OnlyAdds o parent_id leaf none) (fail_found-OnlyAdds parent_id leaf body) c
        h
  store_file-OnlyAdds CollisionPolicy.rename parent_id leaf body other c h =
      rename_attempts-OnlyAdds (suc rename_max_tries) 0 parent_id leaf body c h

  parent_of-OnlyAdds : (front : List Text) → OnlyAdds (parent_of o front)
  unfolding parent_of
  parent_of-OnlyAdds [] = ensure_root_folder-OnlyAdds o
  parent_of-OnlyAdds (s ∷ segs) = ensure_dir_segments-OnlyAdds o (s ∷ segs)

  -- Under the policies `Fail` and `Rename`, whatever the servers answer, an upload sends no request
  -- that changes or removes a file of the Drive: if none of the requests that a client has sent does so,
  -- then none of those that it has sent after the upload does.
  pub upload_to-OnlyAdds :
      (local : Option Bytes) (segments : List Text) (policy : CollisionPolicy)
      → policy ≢ CollisionPolicy.overwrite
      → OnlyAdds (upload_to o local segments policy)
  unfolding upload_to
  upload_to-OnlyAdds local segments policy other c h = elim (Option-cases (split_last segments)) [
    | inl bare ↦ rw (bare, upload_to) h
    | inr ((front, leaf), parted) ↦
        rw (parted, upload_to)
          (>>=-OnlyAdds (validate_all o segments >> parent_of o front) _
            (>>=-OnlyAdds (validate_all o segments) _ (validate_all-OnlyAdds o segments)
              (λ _. parent_of-OnlyAdds front))
            (λ parent_id.
              >>=-OnlyAdds (lift (ok_or GoogleDriveError.local_io local)) _
                (lift-OnlyAdds (ok_or GoogleDriveError.local_io local))
                (λ body. store_file-OnlyAdds policy parent_id leaf body other))
            c h)
  ]
