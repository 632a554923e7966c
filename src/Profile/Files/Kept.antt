-- ===== src/Profile/Files/Kept.antt =====
-- What a save leaves on disk, and what a load finds there.
use zz_drop.Prelude.{
  Text, Bytes, ◌≡◌, ◌≤◌, refl, subst, sym, true, false, some, Result, ok, err, length, arith,
  Result-cases, inl, inr, ◌∙◌,
}
use zz_drop.Profile.Container.{ProfileSet, profile_set_schema_v2}
use zz_drop.Profile.Kdf.{Argon2idConfig, ProfileKek}
use zz_drop.Profile.Crypto.{ProfileCryptoError, Libraries, nonce_len, salt_len}
use zz_drop.Profile.Crypto.Lawful.{Lawful}
use zz_drop.Profile.Foreign.{set_holds_unknown_provider}
use zz_drop.Profile.Format.{encrypt_set_with_config}
use zz_drop.Profile.Format.Opens.{decrypt_set-encrypt_set_with_config}
use zz_drop.Profile.Files.{
  Target, FsAnswers, private_mode, write_private, write_envelope, answering, read_file,
  save_set_zz_with_config, load_set_zz,
}

-- The file holds `data_`, readable by its owner only.
abbrev pub PrivateWith : Text → Target → Type 0
PrivateWith data_ s = s.file ≡ some (record { content = data_; mode = private_mode })

write_envelope-PrivateWith :
    (os : FsAnswers) (envelope : Text) (s s' : Target)
    → write_envelope os envelope s ≡ (ok tt, s')
    → PrivateWith envelope s'
unfolding write_envelope write_private
write_envelope-PrivateWith os envelope s s' h = ground arith

pub answering-eq-ok {ℓ} :
    {A : Type ℓ} (a b : A) (r : Result ProfileCryptoError (Unit {0}) × Target) (s : Target)
    → answering a r ≡ (ok b, s)
    → (r ≡ (ok tt, s)) × (a ≡ b)
answering-eq-ok a b (ok tt, s') s h = ground arith
answering-eq-ok a b (err e, s') s h = ground arith

pub read_file-PrivateWith :
    (os : FsAnswers) (data_ : Text) (s : Target)
    → os.read_to_string ≡ true
    → PrivateWith data_ s
    → read_file os s ≡ ok data_
unfolding read_file
read_file-PrivateWith os data_ s readable there = rw (there, readable) refl

module _ (l : Libraries) (laws : Lawful l) where
  -- A container file that holds what `encrypt_set_with_config` made, loads.
  pub load_set_zz-PrivateWith :
      (os : FsAnswers) (salt nonce : Bytes) (set : ProfileSet) (passphrase : Text)
      (config : Argon2idConfig) (envelope : Text) (kek : ProfileKek) (s : Target)
      → length salt ≡ salt_len
      → length nonce ≡ nonce_len
      → set_holds_unknown_provider set ≡ false
      → profile_set_schema_v2 ≤ set.schema_version
      → os.read_to_string ≡ true
      → encrypt_set_with_config l salt nonce set passphrase config ≡ ok (envelope, kek)
      → PrivateWith envelope s
      → load_set_zz l os passphrase s ≡ ok (set, kek)
  unfolding load_set_zz
  load_set_zz-PrivateWith os salt nonce set passphrase config envelope kek s n m known schema
        readable made there =
      rw
        (
          read_file-PrivateWith os envelope s readable there,
          decrypt_set-encrypt_set_with_config l laws salt nonce set passphrase config envelope kek n
              m known schema made,
        )
        refl

  -- What `save_set_zz_with_config` saves with success, `load_set_zz` loads under the same passphrase,
  -- to the same set and key, and the file has mode 0600: for a set of known providers at the current
  -- schema, a salt and a nonce of their lengths, crates that keep their laws and a readable file.
  pub load_set_zz-save_set_zz_with_config :
      (os os' : FsAnswers) (salt nonce : Bytes) (set : ProfileSet) (passphrase : Text)
      (config : Argon2idConfig) (kek : ProfileKek) (s s' : Target)
      → length salt ≡ salt_len
      → length nonce ≡ nonce_len
      → set_holds_unknown_provider set ≡ false
      → profile_set_schema_v2 ≤ set.schema_version
      → os'.read_to_string ≡ true
      → save_set_zz_with_config l os salt nonce set passphrase config s ≡ (ok kek, s')
      → (load_set_zz l os' passphrase s' ≡ ok (set, kek))
        × ((envelope : Text) × PrivateWith envelope s')
  unfolding save_set_zz_with_config
  load_set_zz-save_set_zz_with_config os os' salt nonce set passphrase config kek s s' n m known
        schema readable h =
      elim (Result-cases (encrypt_set_with_config l salt nonce set passphrase config)) [
        | inl ((envelope, made_kek), made) ↦
            let saves : save_set_zz_with_config l os salt nonce set passphrase config s
                ≡ answering made_kek (write_envelope os envelope s) =
              rw (made, save_set_zz_with_config) refl in
            let saved : answering made_kek (write_envelope os envelope s) ≡ (ok kek, s') =
              sym saves ∙ h in
            let (wrote, same) =
              answering-eq-ok made_kek kek (write_envelope os envelope s) s' saved in
            let there = write_envelope-PrivateWith os envelope s s' wrote in
            let made' =
              subst
                (λ k. encrypt_set_with_config l salt nonce set passphrase config ≡ ok (envelope, k))
                same made in
            (
              load_set_zz-PrivateWith os' salt nonce set passphrase config envelope kek s' n m known
                  schema readable made' there,
              (envelope, there),
            )
        | inr (e, failed) ↦
            let fails : save_set_zz_with_config l os salt nonce set passphrase config s
                ≡ (err e, s) =
              rw (failed, save_set_zz_with_config) refl in
            ground arith
      ]
