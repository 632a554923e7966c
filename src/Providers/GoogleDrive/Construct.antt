-- ===== src/Providers/GoogleDrive/Construct.antt =====
-- core/src/providers/google_drive/rest.rs: how a client is made, and what it tells of itself.
use zz_drop.Prelude.{
  ℕ, Text, Bool, false, ◌||◌, ◌&&◌, [], ◌∷◌, ◌==◌, leb, any, is_nil, contains, if◌then◌else◌,
  Result, ok, err,
}
use zz_drop.Profile.{GoogleDriveProfile}
use zz_drop.Providers.GoogleDrive.{GoogleDriveError}
use zz_drop.Providers.GoogleDrive.Client.{DriveClient}

-- `char::is_whitespace`
abbrev is_whitespace : ℕ → Bool
is_whitespace c =
    (leb 9 c && leb c 13)
    || (leb 8192 c && leb c 8202)
    || any (λ w. c == w) (32 ∷ 133 ∷ 160 ∷ 5760 ∷ 8232 ∷ 8233 ∷ 8239 ∷ 8287 ∷ 12288 ∷ [])

-- `str::trim`
unfoldable pub trim_left : Text → Text
trim_left [] = []
trim_left (c ∷ cs) = if is_whitespace c then trim_left cs else c ∷ cs

unfoldable pub trim_right : Text → Text
trim_right [] = []
trim_right (c ∷ cs) =
    let rest = trim_right cs in if is_nil rest && is_whitespace c then [] else c ∷ rest

unfoldable pub from_profile :
    {W : Type 0} → GoogleDriveProfile → (world : W) → Result GoogleDriveError (DriveClient W)
from_profile profile world =
    let trimmed = trim_right (trim_left profile.root_folder) in
    if is_nil trimmed || contains b'/' trimmed || contains 0 trimmed
    then err GoogleDriveError.bad_root
    else ok (record { profile = profile; profile_dirty = false; world = world; sent = [] })

abbrev current_profile : {W : Type 0} → DriveClient W → GoogleDriveProfile
current_profile c = c.profile

abbrev dirty : {W : Type 0} → DriveClient W → Bool
dirty c = c.profile_dirty
