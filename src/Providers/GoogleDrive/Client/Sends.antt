-- ===== src/Providers/GoogleDrive/Client/Sends.antt =====
-- The requests of an upload.
use zz_drop.Prelude.{
  ◌≡◌, refl, Text, Bytes, codes, Bool, true, false, Option, none, some, List, [], ◌∷◌, leb, ◌+◌,
  Result, ok, err, ok_or, All, Bool-cases, Option-cases, inl, inr,
}
use zz_drop.Providers.Oauth
use zz_drop.Providers.Oauth.{DeviceFlowError, TokenResponse, Reply}
use zz_drop.Providers.GoogleDrive.{GoogleDriveError, validate_filename}
use zz_drop.Providers.GoogleDrive.Client.{
  Method, Request, DriveFile, Outside, DriveClient, Op, ◌>>=◌, continue, lift, folder_mime,
  transmit, json_request, store_tokens, refresh_token_now, ensure_fresh_token, find_in_folder,
  create_folder_under, id_or_create, find_or_create_folder_under, cache_root, create_root,
  root_parent, ensure_root_folder, validate_all, descend_or_create, ensure_dir_segments, successful,
  expiry_skew_secs,
}

-- a request that changes or removes a file that is there
abbrev pub changes_file : Method → Bool
changes_file Method.patch = true
changes_file Method.delete = true
changes_file _ = false

abbrev pub KeepsFiles : Request → Type 0
KeepsFiles request = changes_file request.method ≡ false

module _ {W : Type 0} where
  -- An operation before and after which all requests that were sent keep the files.
  abbrev pub OnlyAdds : {A : Type 0} → Op W A → Type 0
  OnlyAdds op = (c : DriveClient W) → All KeepsFiles c.sent → All KeepsFiles (op c).1.sent

  continue-OnlyAdds :
      {A B : Type 0} (k : A → Op W B) (r : Result GoogleDriveError A × DriveClient W)
      → ((a : A) → OnlyAdds (k a))
      → All KeepsFiles r.1.sent
      → All KeepsFiles (continue k r).1.sent
  continue-OnlyAdds k (ok a, c) hk h = hk a c h
  continue-OnlyAdds k (err e, c) hk h = h

  pub >>=-OnlyAdds :
      {A B : Type 0} (op : Op W A) (k : A → Op W B)
      → OnlyAdds op
      → ((a : A) → OnlyAdds (k a))
      → OnlyAdds (op >>= k)
  >>=-OnlyAdds op k ho hk c h = continue-OnlyAdds k (op c) hk (ho c h)

  pub lift-OnlyAdds : {A : Type 0} (r : Result GoogleDriveError A) → OnlyAdds (lift r)
  lift-OnlyAdds r c h = h

module _ {W : Type 0} (o : Outside W) where
  pub json_request-OnlyAdds :
      (method : Method) (url : Text) (content_type : Option Text) (body : Bytes)
      → changes_file method ≡ false
      → OnlyAdds (json_request o method url content_type body)
  unfolding json_request transmit
  json_request-OnlyAdds method url content_type body keeps c h = (keeps, h)

  store_tokens-OnlyAdds :
      (c : DriveClient W) (answer : Result DeviceFlowError TokenResponse)
      → All KeepsFiles c.sent
      → All KeepsFiles (store_tokens o c answer).1.sent
  store_tokens-OnlyAdds c (ok tokens) h = h
  store_tokens-OnlyAdds c (err e) h = h

  refresh_token_now-OnlyAdds : OnlyAdds (refresh_token_now o)
  unfolding refresh_token_now transmit
  refresh_token_now-OnlyAdds c h = store_tokens-OnlyAdds _ (Oauth.refresh o.oauth _) (refl, h)

  pub ensure_fresh_token-OnlyAdds : OnlyAdds (ensure_fresh_token o)
  unfolding ensure_fresh_token
  ensure_fresh_token-OnlyAdds c h =
      elim (Bool-cases (leb c.profile.auth.expires_at (o.unix_now c.world + expiry_skew_secs))) [
        | inl late ↦ rw (late, ensure_fresh_token) (refresh_token_now-OnlyAdds c h)
        | inr early ↦ rw (early, ensure_fresh_token) h
      ]

  -- A request, its status, and what is read from its body.
  pub request-OnlyAdds :
      {A : Type 0} (method : Method) (url : Text) (content_type : Option Text) (body : Bytes)
      (read : Bytes → Result GoogleDriveError A)
      → changes_file method ≡ false
      → OnlyAdds (
          json_request o method url content_type body >>= λ answer.
          lift (successful o answer) >>= λ bytes. lift (read bytes))
  request-OnlyAdds method url content_type body read keeps =
      >>=-OnlyAdds (json_request o method url content_type body) _
        (json_request-OnlyAdds method url content_type body keeps)
        (λ answer.
          >>=-OnlyAdds (lift (successful o answer)) _ (lift-OnlyAdds (successful o answer))
            (λ bytes. lift-OnlyAdds (read bytes)))

  pub find_in_folder-OnlyAdds :
      (parent_id name : Text) (mime : Option Text) → OnlyAdds (find_in_folder o parent_id name mime)
  unfolding find_in_folder
  find_in_folder-OnlyAdds parent_id name mime =
      >>=-OnlyAdds (ensure_fresh_token o) _ ensure_fresh_token-OnlyAdds (λ _.
        request-OnlyAdds Method.get _ none []
          (λ bytes. ok_or GoogleDriveError.decode (o.first_from_slice bytes)) refl)

  create_folder_under-OnlyAdds :
      (parent_id name : Text) → OnlyAdds (create_folder_under o parent_id name)
  unfolding create_folder_under
  create_folder_under-OnlyAdds parent_id name =
      >>=-OnlyAdds (ensure_fresh_token o) _ ensure_fresh_token-OnlyAdds (λ _.
        request-OnlyAdds Method.post _ (some (codes "application/json"))
          (o.folder_json name parent_id)
          (λ bytes. ok_or GoogleDriveError.decode (o.created_from_slice bytes)) refl)

  id_or_create-OnlyAdds :
      (parent_id name : Text) (found : Option DriveFile)
      → OnlyAdds (id_or_create o parent_id name found)
  id_or_create-OnlyAdds parent_id name (some file) c h = h
  id_or_create-OnlyAdds parent_id name none c h = create_folder_under-OnlyAdds parent_id name c h

  find_or_create-OnlyAdds :
      (parent_id name : Text) → OnlyAdds (find_or_create_folder_under o parent_id name)
  unfolding find_or_create_folder_under
  find_or_create-OnlyAdds parent_id name =
      >>=-OnlyAdds (find_in_folder o parent_id name (some folder_mime)) _
        (find_in_folder-OnlyAdds parent_id name (some folder_mime))
        (id_or_create-OnlyAdds parent_id name)

  cache_root-OnlyAdds : (id : Text) → OnlyAdds (cache_root o id)
  unfolding cache_root
  cache_root-OnlyAdds id c h = h

  create_root-OnlyAdds : OnlyAdds (create_root o)
  unfolding create_root
  create_root-OnlyAdds = >>=-OnlyAdds (ensure_fresh_token o) _ ensure_fresh_token-OnlyAdds (λ _.
      >>=-OnlyAdds (λ c. find_or_create_folder_under o root_parent c.profile.root_folder c) _
        (λ c h. find_or_create-OnlyAdds root_parent c.profile.root_folder c h) cache_root-OnlyAdds)

  pub ensure_root_folder-OnlyAdds : OnlyAdds (ensure_root_folder o)
  unfolding ensure_root_folder
  ensure_root_folder-OnlyAdds c h = elim (Option-cases c.profile.root_folder_id) [
    | inl unknown ↦ rw (unknown, ensure_root_folder) (create_root-OnlyAdds c h)
    | inr (id, known) ↦ rw (known, ensure_root_folder) h
  ]

  pub validate_all-OnlyAdds : (segments : List Text) → OnlyAdds (validate_all o segments)
  unfolding validate_all
  validate_all-OnlyAdds [] c h = h
  validate_all-OnlyAdds (s ∷ rest) c h =
      >>=-OnlyAdds (lift (validate_filename s)) _ (lift-OnlyAdds (validate_filename s))
        (λ _. validate_all-OnlyAdds rest) c h

  descend_or_create-OnlyAdds :
      (current : Text) (segments : List Text) → OnlyAdds (descend_or_create o current segments)
  unfolding descend_or_create
  descend_or_create-OnlyAdds current [] c h = h
  descend_or_create-OnlyAdds current (seg ∷ segs) c h =
      >>=-OnlyAdds (find_or_create_folder_under o current seg) _
        (find_or_create-OnlyAdds current seg) (λ id. descend_or_create-OnlyAdds id segs) c h

  pub ensure_dir_segments-OnlyAdds :
      (segments : List Text) → OnlyAdds (ensure_dir_segments o segments)
  unfolding ensure_dir_segments
  ensure_dir_segments-OnlyAdds segments =
      >>=-OnlyAdds (validate_all o segments) _ (validate_all-OnlyAdds segments) (λ _.
        >>=-OnlyAdds (ensure_root_folder o) _ ensure_root_folder-OnlyAdds
          (λ root. descend_or_create-OnlyAdds root segments))
