-- ===== src/Providers/GoogleDrive/Listing/Pages.antt =====
-- A listing is made of all its pages.
use zz_drop.Prelude.{
  ℕ, zero, suc, ◌≤◌, ◌≡◌, refl, Text, Bytes, Option, none, some, List, [], ◌++◌, map, append_assoc,
  ok, arith,
}
use zz_drop.Agent.State.{RemoteEntry}
use zz_drop.Providers.GoogleDrive.Client.{Outside, DriveClient}
use zz_drop.Providers.GoogleDrive.Listing.{
  DriveFileList, entry_of, fetch_page, list_pages, folder_to_list, list_at,
}

module _ {W : Type 0} (o : Outside W) (page_from_slice : Bytes → Option DriveFileList)
    (email_from_slice : Bytes → Option Text) where
  -- What the servers tell of a folder from a page on: the entries of the pages one after the other, and
  -- the client behind the last; with the number of pages.
  pub data Served (parent_id : Text)
      : Option Text → DriveClient W → List RemoteEntry → DriveClient W → ℕ → Type 0 where
    last :
        {token : Option Text} {c c' : DriveClient W} {page : DriveFileList}
        → fetch_page o page_from_slice email_from_slice parent_id token c ≡ (ok page, c')
        → page.next_page_token ≡ none
        → Served parent_id token c (map entry_of page.files) c' 1
    more :
        {token : Option Text} {next : Text} {c c' c'' : DriveClient W} {page : DriveFileList}
        {rest : List RemoteEntry} {n : ℕ}
        → fetch_page o page_from_slice email_from_slice parent_id token c ≡ (ok page, c')
        → page.next_page_token ≡ some next
        → Served parent_id (some next) c' rest c'' n
        → Served parent_id token c (map entry_of page.files ++ rest) c'' (suc n)

  list_pages-Served :
      (fuel : ℕ) {n : ℕ} {parent_id : Text} {token : Option Text} {c c' : DriveClient W}
      {entries : List RemoteEntry} (before : List RemoteEntry)
      → Served parent_id token c entries c' n
      → n ≤ fuel
      → list_pages o page_from_slice email_from_slice fuel parent_id token before c
        ≡ some (ok (before ++ entries), c')
  unfolding list_pages
  list_pages-Served zero before (last answer end) small = absurd (omega arith)
  list_pages-Served zero before (more answer next served) small = absurd (omega arith)
  list_pages-Served (suc fuel) before (last answer end) small = rw (answer, end, list_pages) refl
  list_pages-Served (suc fuel) before (more {page = page} {rest = rest} answer next served) small =
      rw
        (
          answer,
          next,
          list_pages-Served fuel (before ++ map entry_of page.files) served (omega arith),
          append_assoc,
        )
        refl

  -- If the path resolves to a folder and the servers tell of that folder in `n` pages, then a listing
  -- with fuel for `n` rounds ends, and returns the entries of all these pages in their order.
  pub list_at-Served :
      (fuel n : ℕ) (segments : List Text) (parent_id : Text) (c c₁ c₂ : DriveClient W)
      (entries : List RemoteEntry)
      → folder_to_list o page_from_slice email_from_slice segments c ≡ (ok parent_id, c₁)
      → Served parent_id none c₁ entries c₂ n
      → n ≤ fuel
      → list_at o page_from_slice email_from_slice fuel segments c ≡ some (ok entries, c₂)
  unfolding list_at
  list_at-Served fuel n segments parent_id c c₁ c₂ entries resolved served enough =
      rw (resolved) (list_pages-Served fuel [] served enough)
