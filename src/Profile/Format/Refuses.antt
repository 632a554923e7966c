-- ===== src/Profile/Format/Refuses.antt =====
-- What `decrypt_set` never accepts, and what it never computes on.
use zz_drop.Prelude.{
  ℕ, Text, Bytes, ◌≡◌, ◌≢◌, ◌≤◌, refl, subst, true, false, Option, none, some, ok, length, arith,
  text_eq_iff, Bool-cases, inl, inr, >>=-eq-ok, >>-eq-ok, leb→le, leb,
}
use zz_drop.Profile.Container.{ProfileSet, profile_set_schema_v2}
use zz_drop.Profile.Kdf.{Argon2idConfig, ProfileKek, validate}
use zz_drop.Profile.Crypto.{
  ProfileCryptoError, ProfileEnvelope, Libraries, fails_as, try_into, nonce_len, salt_len,
  aead_decrypt, derive_key, envelope_version_v1, kdf_name_argon2id, cipher_name_xchacha20poly1305,
  payload_format_cbor,
}
use zz_drop.Profile.Format.{
  check_header, base64_field, current, read_shielded, read_set, decrypt_set, config_of,
}
use zz_drop.Profile.Format.Opens.{fails_as-ok}

-- A header that names what this program writes.
abbrev pub OwnHeader : ProfileEnvelope → Type 0
OwnHeader e =
    (e.version ≡ envelope_version_v1)
    × (e.kdf.name ≡ kdf_name_argon2id)
    × (e.cipher.name ≡ cipher_name_xchacha20poly1305)
    × (e.payload.format ≡ payload_format_cbor)

check_header-OwnHeader : (e : ProfileEnvelope) → check_header e ≡ ok tt → OwnHeader e
unfolding check_header
check_header-OwnHeader e h = ground (
  arith,
  text_eq_iff e.kdf.name kdf_name_argon2id,
  text_eq_iff e.cipher.name cipher_name_xchacha20poly1305,
  text_eq_iff e.payload.format payload_format_cbor,
)

try_into-eq-ok : (n : ℕ) (bytes array : Bytes) → try_into n bytes ≡ ok array → length array ≡ n
unfolding try_into
try_into-eq-ok n bytes array h = ground arith

current-eq-some :
    (o : Option ProfileSet) (set : ProfileSet)
    → current o ≡ some set
    → profile_set_schema_v2 ≤ set.schema_version
current-eq-some none set h = cc
current-eq-some (some s) set h = elim (Bool-cases (leb profile_set_schema_v2 s.schema_version)) [
  | inl new ↦ ground (arith, leb→le profile_set_schema_v2 s.schema_version)
  | inr old ↦ ground (arith, leb→le profile_set_schema_v2 s.schema_version)
]

module _ (l : Libraries) where
  derive_key-validate :
      (passphrase : Text) (salt key : Bytes) (config : Argon2idConfig)
      → derive_key l passphrase salt config ≡ ok key
      → validate config ≡ true
  unfolding derive_key
  derive_key-validate passphrase salt key config h = ground arith

  read_set-schema :
      (plaintext : Bytes) (set : ProfileSet)
      → read_set l plaintext ≡ ok set
      → profile_set_schema_v2 ≤ set.schema_version
  unfolding read_set
  read_set-schema plaintext set h = ground (
    arith,
    current-eq-some (l.cbor_set.from_reader plaintext) set,
    current-eq-some (read_shielded l plaintext) set,
  )

  -- What an opened container is.
  abbrev pub Opened : Text → Text → ProfileSet → ProfileKek → Type 0
  Opened t passphrase set kek =
      (e : ProfileEnvelope) × (l.json_from_str t ≡ some e)
      × OwnHeader e
      × (kek.kdf_config ≡ config_of e)
      × (validate kek.kdf_config ≡ true)
      × (length kek.salt ≡ salt_len)
      × (derive_key l passphrase kek.salt kek.kdf_config ≡ ok kek.key)
      × (profile_set_schema_v2 ≤ set.schema_version)

  -- Whatever `decrypt_set` opens has an envelope of version 1 that names Argon2id,
  -- XChaCha20-Poly1305 and CBOR, parameters inside the band, which are the key's, a salt of 16 bytes,
  -- the key that the passphrase gives, and a set of schema 2 or later.
  pub decrypt_set-Opened :
      (t passphrase : Text) (set : ProfileSet) (kek : ProfileKek)
      → decrypt_set l t passphrase ≡ ok (set, kek)
      → Opened t passphrase set kek
  unfolding decrypt_set
  decrypt_set-Opened t passphrase set kek h =
      let (e, parsed, h1) =
        >>=-eq-ok (fails_as ProfileCryptoError.invalid_envelope (l.json_from_str t)) _ h in
      let (owned, h2) = >>-eq-ok (check_header e) _ h1 in
      let (salt_bytes, _, h3) = >>=-eq-ok (base64_field l e.kdf.salt) _ h2 in
      let (salt, fits, h4) = >>=-eq-ok (try_into salt_len salt_bytes) _ h3 in
      let (nonce_bytes, _, h5) = >>=-eq-ok (base64_field l e.cipher.nonce) _ h4 in
      let (nonce, _, h6) = >>=-eq-ok (try_into nonce_len nonce_bytes) _ h5 in
      let (c, _, h7) = >>=-eq-ok (base64_field l e.payload.ciphertext) _ h6 in
      let (key, derived, h8) = >>=-eq-ok (derive_key l passphrase salt (config_of e)) _ h7 in
      let (plaintext, _, h9) = >>=-eq-ok (aead_decrypt l key nonce c) _ h8 in
      let (set', read, h10) = >>=-eq-ok (read_set l plaintext) _ h9 in
      let made : ProfileKek = record { key = key; salt = salt; kdf_config = config_of e } in
      let same : made ≡ kek = ground arith in
      let same_set : set' ≡ set = ground arith in
      let opened : Opened t passphrase set' made = (
        e,
        fails_as-ok ProfileCryptoError.invalid_envelope _ e parsed,
        check_header-OwnHeader e owned,
        refl,
        derive_key-validate passphrase salt key (config_of e) derived,
        try_into-eq-ok salt_len salt_bytes salt fits,
        derived,
        read_set-schema plaintext set' read,
      ) in
      subst (λ k. Opened t passphrase set k) same
        (subst (λ s. Opened t passphrase s made) same_set opened)

  refuses_hostile :
      (t passphrase : Text) (e : ProfileEnvelope)
      → l.json_from_str t ≡ some e
      → validate (config_of e) ≡ false
      → (opened : ProfileSet × ProfileKek) → decrypt_set l t passphrase ≢ ok opened
  refuses_hostile t passphrase e parsed hostile (set, kek) h =
      let (e', parsed', _, of_e', valid, _, _, _) = decrypt_set-Opened t passphrase set kek h in
      let same : e' ≡ e = ground arith in
      let valid_e : validate (config_of e) ≡ true =
        subst (λ x. validate (config_of x) ≡ true) same
          (subst (λ c. validate c ≡ true) of_e' valid) in
      cc

  -- An envelope whose parameters are out of the band is not opened, and the answer is the same
  -- whatever Argon2 would do: no key is derived.
  pub decrypt_set-hostile :
      (t passphrase : Text) (e : ProfileEnvelope) (new : Argon2idConfig → Option Text)
      (hash : Argon2idConfig → Text → Bytes → Option Bytes)
      → l.json_from_str t ≡ some e
      → validate (config_of e) ≡ false
      → (decrypt_set (record l { params_new = new; hash_password_into = hash }) t passphrase
          ≡ decrypt_set l t passphrase)
        × ((opened : ProfileSet × ProfileKek) → decrypt_set l t passphrase ≢ ok opened)
  unfolding decrypt_set derive_key aead_decrypt base64_field
  decrypt_set-hostile t passphrase e new hash parsed hostile =
      (rw (parsed, hostile) refl, refuses_hostile t passphrase e parsed hostile)
