-- ===== src/Profile/Format/Opens.antt =====
-- What is sealed under a passphrase opens under it.
use zz_drop.Prelude.{
  ℕ, Text, Bytes, ◌≡◌, ◌≤◌, refl, subst, false, Option, none, some, ok, err, length, arith,
  text_eq_refl, >>=-eq-ok, if◌then◌else◌, ◌>>=◌,
}
use zz_drop.Profile.{PlainProfile}
use zz_drop.Profile.Container.{ProfileSet, profile_set_schema_v2}
use zz_drop.Profile.Kdf.{Argon2idConfig, ProfileKek}
use zz_drop.Profile.Crypto.{
  ProfileCryptoError, Libraries, fails_as, try_into, nonce_len, salt_len, aead_encrypt,
  aead_decrypt, derive_key, kdf_name_argon2id, cipher_name_xchacha20poly1305, payload_format_cbor,
}
use zz_drop.Profile.Crypto.Lawful.{Lawful}
use zz_drop.Profile.Foreign.{set_holds_unknown_provider}
use zz_drop.Profile.Format.{
  check_header, envelope_of, seal, encrypt_profile_with_config, decrypt_profile, base64_field,
  write_set, write_restored, read_shielded, encrypt_set_with_kek, encrypt_set_with_config, read_set,
  decrypt_set,
}

pub fails_as-ok {ℓ} :
    {A : Type ℓ} (e : ProfileCryptoError) (o : Option A) (a : A) → fails_as e o ≡ ok a → o ≡ some a
fails_as-ok e (some b) a h = ground arith
fails_as-ok e none a h = cc

pub try_into_lem : (n : ℕ) (bytes : Bytes) → length bytes ≡ n → try_into n bytes ≡ ok bytes
unfolding try_into
try_into_lem n bytes h = ground arith

module _ (l : Libraries) (laws : Lawful l) where
  base64_field_lem : (bytes : Bytes) → base64_field l (l.base64_encode bytes) ≡ ok bytes
  unfolding base64_field
  base64_field_lem bytes = rw (laws.base64 bytes) refl

  check_header-envelope_of :
      (config : Argon2idConfig) (salt nonce ciphertext : Bytes)
      → check_header (envelope_of l config salt nonce ciphertext) ≡ ok tt
  unfolding check_header envelope_of
  check_header-envelope_of config salt nonce ciphertext =
      rw
        (
          text_eq_refl kdf_name_argon2id,
          text_eq_refl cipher_name_xchacha20poly1305,
          text_eq_refl payload_format_cbor,
        )
        refl

  -- What `seal` writes parses as its envelope, and its ciphertext opens under the key.
  seal-eq-ok :
      (config : Argon2idConfig) (salt nonce key plaintext : Bytes) (t : Text)
      → seal l config salt nonce key plaintext ≡ ok t
      → (ciphertext : Bytes) × (l.json_from_str t
          ≡ some (envelope_of l config salt nonce ciphertext))
        × (aead_decrypt l key nonce ciphertext ≡ ok plaintext)
  unfolding seal aead_encrypt aead_decrypt
  seal-eq-ok config salt nonce key plaintext t h =
      let (c, sealed, printed) = >>=-eq-ok (aead_encrypt l key nonce plaintext) _ h in
      (
        c,
        laws.json _ t (fails_as-ok _ _ t printed),
        rw (laws.aead key nonce plaintext c (fails_as-ok _ _ c sealed)) refl,
      )

  -- An envelope is opened by the passphrase that gives its key, whatever its content turns out to be.
  pub decrypt_set-seal :
      (passphrase : Text) (kek : ProfileKek) (nonce plaintext : Bytes) (t : Text)
      → length nonce ≡ nonce_len
      → length kek.salt ≡ salt_len
      → derive_key l passphrase kek.salt kek.kdf_config ≡ ok kek.key
      → seal l kek.kdf_config kek.salt nonce kek.key plaintext ≡ ok t
      → decrypt_set l t passphrase ≡ (read_set l plaintext >>= (λ set. ok (set, kek)))
  unfolding decrypt_set envelope_of
  decrypt_set-seal passphrase kek nonce plaintext t n s derived sealed =
      let (c, parsed, opened) =
        seal-eq-ok kek.kdf_config kek.salt nonce kek.key plaintext t sealed in
      rw
        (
          parsed,
          check_header-envelope_of kek.kdf_config kek.salt nonce c,
          base64_field_lem kek.salt,
          try_into_lem salt_len kek.salt s,
          base64_field_lem nonce,
          try_into_lem nonce_len nonce n,
          base64_field_lem c,
          derived,
          opened,
        )
        refl

  write_set-known :
      (set : ProfileSet) (plaintext : Bytes)
      → set_holds_unknown_provider set ≡ false
      → profile_set_schema_v2 ≤ set.schema_version
      → write_set l set ≡ ok plaintext
      → read_set l plaintext ≡ ok set
  unfolding write_set read_set
  write_set-known set plaintext known schema written =
      let e : (if false
            then write_restored l set
            else fails_as ProfileCryptoError.payload_encode (l.cbor_set.into_writer set))
          ≡ ok plaintext =
        subst
          (λ b.
            (if b
              then write_restored l set
              else fails_as ProfileCryptoError.payload_encode (l.cbor_set.into_writer set))
            ≡ ok plaintext)
          known written in
      let back =
        laws.sets set plaintext (fails_as-ok ProfileCryptoError.payload_encode _ plaintext e) in
      rw (back, read_set) (ground arith)

  -- A container of known providers that is sealed under a session's key is opened by the passphrase
  -- that gives the key, to the same set and the same key.
  pub decrypt_set-encrypt_set_with_kek :
      (passphrase : Text) (set : ProfileSet) (kek : ProfileKek) (nonce : Bytes) (t : Text)
      → length nonce ≡ nonce_len
      → length kek.salt ≡ salt_len
      → derive_key l passphrase kek.salt kek.kdf_config ≡ ok kek.key
      → set_holds_unknown_provider set ≡ false
      → profile_set_schema_v2 ≤ set.schema_version
      → encrypt_set_with_kek l nonce set kek ≡ ok t
      → decrypt_set l t passphrase ≡ ok (set, kek)
  unfolding encrypt_set_with_kek
  decrypt_set-encrypt_set_with_kek passphrase set kek nonce t n s derived known schema h =
      let (plaintext, written, sealed) = >>=-eq-ok (write_set l set) _ h in
      rw
        (
          decrypt_set-seal passphrase kek nonce plaintext t n s derived sealed,
          write_set-known set plaintext known schema written,
        )
        refl

  -- A container of known providers at the current schema that `encrypt_set_with_config` seals is opened
  -- by `decrypt_set` under the same passphrase, to the same set and the same key, where the third-party
  -- crates keep their laws and the salt and the nonce have their lengths.
  pub decrypt_set-encrypt_set_with_config :
      (salt nonce : Bytes) (set : ProfileSet) (passphrase : Text) (config : Argon2idConfig)
      (t : Text) (kek : ProfileKek)
      → length salt ≡ salt_len
      → length nonce ≡ nonce_len
      → set_holds_unknown_provider set ≡ false
      → profile_set_schema_v2 ≤ set.schema_version
      → encrypt_set_with_config l salt nonce set passphrase config ≡ ok (t, kek)
      → decrypt_set l t passphrase ≡ ok (set, kek)
  unfolding encrypt_set_with_config
  decrypt_set-encrypt_set_with_config salt nonce set passphrase config t kek s n known schema h =
      let (key, derived, h1) = >>=-eq-ok (derive_key l passphrase salt config) _ h in
      let made : ProfileKek = record { key = key; salt = salt; kdf_config = config } in
      let (t', sealed, h2) = >>=-eq-ok (encrypt_set_with_kek l nonce set made) _ h1 in
      let same_t : t' ≡ t = ground arith in
      let same_kek : made ≡ kek = ground arith in
      let opened =
        decrypt_set-encrypt_set_with_kek passphrase set made nonce t' n s derived known schema
          sealed in
      subst (λ k. decrypt_set l t passphrase ≡ ok (set, k)) same_kek
        (subst (λ u. decrypt_set l u passphrase ≡ ok (set, made)) same_t opened)

  -- A single profile that `encrypt_profile_with_config` seals is opened by `decrypt_profile` under the
  -- same passphrase, where the crates keep their laws and the nonce has its length.
  pub decrypt_profile-encrypt_profile_with_config :
      (salt nonce : Bytes) (profile : PlainProfile) (passphrase : Text) (config : Argon2idConfig)
      (t : Text)
      → length nonce ≡ nonce_len
      → encrypt_profile_with_config l salt nonce profile passphrase config ≡ ok t
      → decrypt_profile l t passphrase ≡ ok profile
  unfolding encrypt_profile_with_config decrypt_profile envelope_of
  decrypt_profile-encrypt_profile_with_config salt nonce profile passphrase config t n h =
      let (key, derived, h1) = >>=-eq-ok (derive_key l passphrase salt config) _ h in
      let (plaintext, written, sealed) =
        >>=-eq-ok (fails_as ProfileCryptoError.payload_encode (l.cbor_profile.into_writer profile))
          _ h1 in
      let (c, parsed, opened) = seal-eq-ok config salt nonce key plaintext t sealed in
      rw
        (
          parsed,
          check_header-envelope_of config salt nonce c,
          base64_field_lem salt,
          base64_field_lem nonce,
          base64_field_lem c,
          try_into_lem nonce_len nonce n,
          derived,
          opened,
          laws.profiles profile plaintext
              (fails_as-ok ProfileCryptoError.payload_encode _ plaintext written),
        )
        refl

  -- A single profile that `encrypt_profile_with_config` seals is answered by `decrypt_set` with the
  -- error for the legacy format, where its CBOR form reads neither as a set nor, shielded, as one.
  pub decrypt_set-encrypt_profile_with_config :
      (salt nonce : Bytes) (profile : PlainProfile) (passphrase : Text) (config : Argon2idConfig)
      (t : Text)
      → length salt ≡ salt_len
      → length nonce ≡ nonce_len
      → ((bytes : Bytes)
          → l.cbor_profile.into_writer profile ≡ some bytes
          → (l.cbor_set.from_reader bytes ≡ none) × (read_shielded l bytes ≡ none))
      → encrypt_profile_with_config l salt nonce profile passphrase config ≡ ok t
      → decrypt_set l t passphrase ≡ err ProfileCryptoError.legacy_format
  unfolding encrypt_profile_with_config read_set
  decrypt_set-encrypt_profile_with_config salt nonce profile passphrase config t s n not_set h =
      let (key, derived, h1) = >>=-eq-ok (derive_key l passphrase salt config) _ h in
      let (plaintext, written, sealed) =
        >>=-eq-ok (fails_as ProfileCryptoError.payload_encode (l.cbor_profile.into_writer profile))
          _ h1 in
      let wrote = fails_as-ok ProfileCryptoError.payload_encode _ plaintext written in
      let (direct, shielded) = not_set plaintext wrote in
      let read : read_set l plaintext ≡ err ProfileCryptoError.legacy_format =
        rw (direct, shielded, laws.profiles profile plaintext wrote, read_set) refl in
      rw
        (
          decrypt_set-seal passphrase (record { key = key; salt = salt; kdf_config = config }) nonce
              plaintext t n s derived sealed,
          read,
        )
        refl
