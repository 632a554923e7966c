-- ===== src/Profile/Rotation/Replaces.antt =====
-- What a rotation leaves on disk.
use zz_drop.Prelude.{
  Text, Bytes, ◌≡◌, ◌≤◌, refl, true, false, Option, none, some, Result, ok, err, length, arith,
  Result-cases, Bool-cases, inl, inr, >>=-eq-ok,
}
use zz_drop.Profile.Container.{ProfileSet, profile_set_schema_v2}
use zz_drop.Profile.Kdf.{Argon2idConfig, ProfileKek, AtPolicy, needs_rotation, needs_rotation_iff}
use zz_drop.Profile.Crypto.{ProfileCryptoError, Libraries, nonce_len, salt_len, derive_key}
use zz_drop.Profile.Crypto.Lawful.{Lawful}
use zz_drop.Profile.Foreign.{set_holds_unknown_provider}
use zz_drop.Profile.Format.{encrypt_set_with_config, encrypt_set_with_kek}
use zz_drop.Profile.Files.{Target, FsAnswers, answering, load_set_zz}
use zz_drop.Profile.Files.Kept.{PrivateWith, load_set_zz-PrivateWith}
use zz_drop.Profile.Rotation.{atomic_write_0600, rotate_set_if_needed}

atomic_write_0600-ok :
    (os : FsAnswers) (bytes : Text) (s s' : Target)
    → atomic_write_0600 os bytes s ≡ (ok tt, s')
    → PrivateWith bytes s'
unfolding atomic_write_0600
atomic_write_0600-ok os bytes s s' h = ground arith

atomic_write_0600-err :
    (os : FsAnswers) (bytes : Text) (e : ProfileCryptoError) (s s' : Target)
    → atomic_write_0600 os bytes s ≡ (err e, s')
    → s'.file ≡ s.file
unfolding atomic_write_0600
atomic_write_0600-err os bytes e s s' h = ground arith

encrypt_set_with_config-kdf_config :
    (l : Libraries) (salt nonce : Bytes) (set : ProfileSet) (passphrase : Text)
    (config : Argon2idConfig) (t : Text) (kek : ProfileKek)
    → encrypt_set_with_config l salt nonce set passphrase config ≡ ok (t, kek)
    → kek.kdf_config ≡ config
unfolding encrypt_set_with_config
encrypt_set_with_config-kdf_config l salt nonce set passphrase config t kek h =
    let (key, derived, h1) = >>=-eq-ok (derive_key l passphrase salt config) _ h in
    let made : ProfileKek = record { key = key; salt = salt; kdf_config = config } in
    let (t', sealed, h2) = >>=-eq-ok (encrypt_set_with_kek l nonce set made) _ h1 in ground arith

module _ (l : Libraries) (laws : Lawful l) (os os' : FsAnswers) (passphrase : Text) where
  -- The three outcomes: left alone, since it is at the policy; replaced by a container that loads
  -- with the new key; or failed, with the container file as it was.
  abbrev pub Rotated :
      ProfileSet
      → (current_kek : ProfileKek) → (policy : Argon2idConfig) → Target
      → Result ProfileCryptoError (Option ProfileKek) × Target
      → Type 0
  Rotated set current_kek policy s (ok none, s') = AtPolicy current_kek.kdf_config policy × (s' ≡ s)
  Rotated set current_kek policy s (ok (some kek), s') =
      (kek.kdf_config ≡ policy) × (load_set_zz l os' passphrase s' ≡ ok (set, kek))
  Rotated set current_kek policy s (err _, s') = s'.file ≡ s.file

  module _ (salt nonce : Bytes) (set : ProfileSet) (policy : Argon2idConfig)
      (n : length salt ≡ salt_len) (m : length nonce ≡ nonce_len)
      (known : set_holds_unknown_provider set ≡ false)
      (schema : profile_set_schema_v2 ≤ set.schema_version)
      (readable : os'.read_to_string ≡ true) where
    replaced :
        (current_kek kek : ProfileKek) (envelope : Text) (s : Target)
        (outcome : Result ProfileCryptoError (Unit {0}) × Target)
        → encrypt_set_with_config l salt nonce set passphrase policy ≡ ok (envelope, kek)
        → atomic_write_0600 os envelope s ≡ outcome
        → Rotated set current_kek policy s (answering (some kek) outcome)
    replaced current_kek kek envelope s (err e, s') made wrote =
        atomic_write_0600-err os envelope e s s' wrote
    replaced current_kek kek envelope s (ok tt, s') made wrote = (
      encrypt_set_with_config-kdf_config l salt nonce set passphrase policy envelope kek made,
      load_set_zz-PrivateWith l laws os' salt nonce set passphrase policy envelope kek s' n m known
          schema readable made (atomic_write_0600-ok os envelope s s' wrote),
    )

  -- A rotation that answers nothing found the key at the policy and changed no file; one that answers
  -- a new key has the policy's parameters, and the file loads under the passphrase to the same set
  -- and that key; one that fails leaves the container file as it was. For a set of known providers at
  -- the current schema, a salt and a nonce of their lengths, crates that keep their laws and a
  -- readable file.
  pub rotate_set_if_needed-Rotated :
      (salt nonce : Bytes) (set : ProfileSet) (current_kek : ProfileKek) (policy : Argon2idConfig)
      (s : Target)
      → length salt ≡ salt_len
      → length nonce ≡ nonce_len
      → set_holds_unknown_provider set ≡ false
      → profile_set_schema_v2 ≤ set.schema_version
      → os'.read_to_string ≡ true
      → Rotated set current_kek policy s
          (rotate_set_if_needed l os salt nonce set current_kek passphrase policy s)
  unfolding rotate_set_if_needed
  rotate_set_if_needed-Rotated salt nonce set current_kek policy s n m known schema readable =
      elim (Bool-cases (needs_rotation current_kek.kdf_config policy)) [
        | inr at ↦ rw (at, Rotated) ((needs_rotation_iff current_kek.kdf_config policy).0 at, refl)
        | inl weak ↦
            elim (Result-cases (encrypt_set_with_config l salt nonce set passphrase policy)) [
              | inr (e, failed) ↦ rw (weak, failed, Rotated) refl
              | inl ((envelope, kek), made) ↦
                  rw (weak, made)
                    (replaced salt nonce set policy n m known schema readable current_kek kek
                      envelope s (atomic_write_0600 os envelope s) made refl)
            ]
      ]
