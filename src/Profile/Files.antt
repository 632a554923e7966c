-- ===== src/Profile/Files.antt =====
-- core/src/profile/format.rs, on disk (Unix): writing an envelope with mode 0600 and reading it back.
-- The answers of the operating system are arguments.
pub mod Kept
use zz_drop.Prelude.{
  ℕ, Text, Bytes, Bool, true, false, not, ◌&&◌, Option, none, some, Result, ok, err, if◌then◌else◌,
  ◌>>=◌,
}
use zz_drop.Profile.{PlainProfile}
use zz_drop.Profile.Container.{ProfileSet}
use zz_drop.Profile.Kdf
use zz_drop.Profile.Kdf.{Argon2idConfig, ProfileKek}
use zz_drop.Profile.Crypto.{ProfileCryptoError, Libraries}
use zz_drop.Profile.Format.{
  encrypt_profile_with_config, decrypt_profile, encrypt_set_with_config, decrypt_set,
}

-- 0o600
abbrev pub private_mode : ℕ
private_mode = 384

pub record StoredFile : Type 0 where
  pub content : Text
  pub mode : ℕ

-- the file at `path`, and the one at `<path>.tmp`
pub record Target : Type 0 where
  pub file : Option StoredFile
  pub tmp : Option StoredFile

-- `has_parent` is whether `path.parent()` is some directory; then which calls succeed, what a failed
-- `write_all` leaves, and the mode that `fs::write` gives to a file it creates.
pub record FsAnswers : Type 0 where
  pub has_parent : Bool
  pub create_dir_all : Bool
  pub open_ : Bool
  pub write_all : Bool
  pub set_permissions : Bool
  pub rename : Bool
  pub remove_file : Bool
  pub read_to_string : Bool
  pub partial : Text
  pub default_mode : ℕ

-- `.mode(0o600)` counts for a file that is created
abbrev pub opened_mode : Option StoredFile → ℕ
opened_mode none = private_mode
opened_mode (some f) = f.mode

unfoldable pub write_private :
    FsAnswers → Text → Target → Result ProfileCryptoError (Unit {0}) × Target
write_private os data_ s =
    let mode = opened_mode s.file in
    if not os.open_
    then (err ProfileCryptoError.io, s)
    else if not os.write_all
    then (
      err ProfileCryptoError.io,
      record s { file = some (record { content = os.partial; mode = mode }) },
    )
    else if not os.set_permissions
    then (
      err ProfileCryptoError.io,
      record s { file = some (record { content = data_; mode = mode }) },
    )
    else (ok tt, record s { file = some (record { content = data_; mode = private_mode }) })

-- `if let Some(parent) = path.parent() { create_dir_all(parent)? }` fails
abbrev pub no_directory : FsAnswers → Bool
no_directory os = os.has_parent && not os.create_dir_all

unfoldable pub write_envelope :
    FsAnswers → Text → Target → Result ProfileCryptoError (Unit {0}) × Target
write_envelope os envelope s =
    if no_directory os then (err ProfileCryptoError.io, s) else write_private os envelope s

-- `Ok(answer)` after a write that succeeded
abbrev pub answering {ℓ} :
    {A : Type ℓ}
    → A
    → Result ProfileCryptoError (Unit {0}) × Target
    → Result ProfileCryptoError A × Target
answering a (ok _, s) = (ok a, s)
answering a (err e, s) = (err e, s)

-- `fs::read_to_string(path)`
unfoldable pub read_file : FsAnswers → Target → Result ProfileCryptoError Text
read_file os s = elim s.file [
  | none ↦ err ProfileCryptoError.io
  | some f ↦ if os.read_to_string then ok f.content else err ProfileCryptoError.io
]

module _ (l : Libraries) (os : FsAnswers) where
  unfoldable pub save_profile_zz_with_config :
      (salt nonce : Bytes)
      → PlainProfile
      → (passphrase : Text) → Argon2idConfig
      → Target
      → Result ProfileCryptoError (Unit {0}) × Target
  save_profile_zz_with_config salt nonce profile passphrase config s =
      elim (encrypt_profile_with_config l salt nonce profile passphrase config) [
        | err e ↦ (err e, s)
        | ok envelope ↦ write_envelope os envelope s
      ]

  unfoldable pub save_profile_zz :
      (salt nonce : Bytes)
      → PlainProfile
      → (passphrase : Text) → Target
      → Result ProfileCryptoError (Unit {0}) × Target
  save_profile_zz salt nonce profile passphrase =
      save_profile_zz_with_config salt nonce profile passphrase Kdf.default

  unfoldable pub load_profile_zz :
      (passphrase : Text) → Target → Result ProfileCryptoError PlainProfile
  load_profile_zz passphrase s = do envelope ← read_file os s; decrypt_profile l envelope passphrase

  unfoldable pub save_set_zz_with_config :
      (salt nonce : Bytes)
      → ProfileSet
      → (passphrase : Text) → Argon2idConfig
      → Target
      → Result ProfileCryptoError ProfileKek × Target
  save_set_zz_with_config salt nonce set passphrase config s =
      elim (encrypt_set_with_config l salt nonce set passphrase config) [
        | err e ↦ (err e, s)
        | ok (envelope, kek) ↦ answering kek (write_envelope os envelope s)
      ]

  unfoldable pub save_set_zz :
      (salt nonce : Bytes)
      → ProfileSet
      → (passphrase : Text) → Target
      → Result ProfileCryptoError ProfileKek × Target
  save_set_zz salt nonce set passphrase =
      save_set_zz_with_config salt nonce set passphrase Kdf.default

  unfoldable pub load_set_zz :
      (passphrase : Text) → Target → Result ProfileCryptoError (ProfileSet × ProfileKek)
  load_set_zz passphrase s = do envelope ← read_file os s; decrypt_set l envelope passphrase
