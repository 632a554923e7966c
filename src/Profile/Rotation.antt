-- ===== src/Profile/Rotation.antt =====
-- core/src/profile/rotation.rs: re-encrypting a container whose key derivation is weaker than the
-- policy, and replacing the file. On a Unix system.
pub mod Replaces
use zz_drop.Prelude.{
  ℕ, Text, Bytes, Bool, true, false, not, Option, none, some, Result, ok, err, if◌then◌else◌,
}
use zz_drop.Profile.Container.{ProfileSet}
use zz_drop.Profile.Kdf.{Argon2idConfig, ProfileKek, needs_rotation}
use zz_drop.Profile.Crypto.{ProfileCryptoError, Libraries}
use zz_drop.Profile.Format.{encrypt_set_with_config}
use zz_drop.Profile.Files.{Target, FsAnswers, StoredFile, private_mode, no_directory, answering}

-- the mode of the file that `fs::write` writes to
abbrev pub written_mode : FsAnswers → Option StoredFile → ℕ
written_mode os none = os.default_mode
written_mode os (some f) = f.mode

-- An `fs::write` that fails may leave a part in the temporary file.
unfoldable pub atomic_write_0600 :
    FsAnswers → Text → Target → Result ProfileCryptoError (Unit {0}) × Target
atomic_write_0600 os bytes s =
    let mode = written_mode os s.tmp in
    let whole : StoredFile = record { content = bytes; mode = private_mode } in
    if no_directory os
    then (err ProfileCryptoError.io, s)
    else if not os.write_all
    then (
      err ProfileCryptoError.io,
      record s { tmp = some (record { content = os.partial; mode = mode }) },
    )
    else if not os.set_permissions
    then (
      err ProfileCryptoError.io,
      record s { tmp = some (record { content = bytes; mode = mode }) },
    )
    else if not os.rename
    then (err ProfileCryptoError.io, record s { tmp = if os.remove_file then none else some whole })
    else (ok tt, record { file = some whole; tmp = none })

module _ (l : Libraries) (os : FsAnswers) where
  unfoldable pub rotate_set_if_needed :
      (salt nonce : Bytes)
      → ProfileSet
      → (current_kek : ProfileKek) → (passphrase : Text) → (policy : Argon2idConfig) → Target
      → Result ProfileCryptoError (Option ProfileKek) × Target
  rotate_set_if_needed salt nonce set current_kek passphrase policy s =
      if not (needs_rotation current_kek.kdf_config policy)
      then (ok none, s)
      else elim (encrypt_set_with_config l salt nonce set passphrase policy) [
        | err e ↦ (err e, s)
        | ok (envelope, new_kek) ↦ answering (some new_kek) (atomic_write_0600 os envelope s)
      ]
