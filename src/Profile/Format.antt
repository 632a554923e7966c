-- ===== src/Profile/Format.antt =====
-- core/src/profile/format.rs: sealing a profile or a container under a passphrase, and opening it.
-- The random bytes that `OsRng` draws are arguments, in the order in which the code draws them.
pub mod Opens
pub mod Refuses
use zz_drop.Prelude.{
  Text, Bytes, Bool, true, false, not, ◌&&◌, Option, none, some, Result, ok, err, ◌==◌, leb,
  text_eq, is_some, if◌then◌else◌, ◌>>=◌, ◌>>◌,
}
use zz_drop.Profile.{PlainProfile}
use zz_drop.Profile.Container.{ProfileSet, profile_set_schema_v2}
use zz_drop.Profile.Kdf
use zz_drop.Profile.Kdf.{Argon2idConfig, ProfileKek}
use zz_drop.Profile.Crypto.{
  ProfileCryptoError, ProfileEnvelope, Libraries, envelope_version_v1, kdf_name_argon2id,
  cipher_name_xchacha20poly1305, payload_format_cbor, fails_as, try_into, nonce_len, salt_len,
  aead_encrypt, aead_decrypt, derive_key,
}
use zz_drop.Profile.Foreign.{
  set_holds_unknown_provider, shield_unknown_providers, restore_unknown_providers, value_from,
  value_to,
}

-- `return Err(e)` unless the test holds
abbrev pub require : Bool → ProfileCryptoError → Result ProfileCryptoError (Unit {0})
require test e = if test then ok tt else err e

-- the four comparisons at the head of `decrypt_profile` and of `decrypt_set`
unfoldable pub check_header : ProfileEnvelope → Result ProfileCryptoError (Unit {0})
check_header e =
    require (e.version == envelope_version_v1)
      (ProfileCryptoError.unsupported_version e.version envelope_version_v1)
    >> require (text_eq e.kdf.name kdf_name_argon2id)
        (ProfileCryptoError.unsupported_kdf e.kdf.name)
    >> require (text_eq e.cipher.name cipher_name_xchacha20poly1305)
        (ProfileCryptoError.unsupported_cipher e.cipher.name)
    >> require (text_eq e.payload.format payload_format_cbor)
        (ProfileCryptoError.unsupported_payload_format e.payload.format)

abbrev pub config_of : ProfileEnvelope → Argon2idConfig
config_of e = record {
  memory_kib = e.kdf.memory_kib;
  iterations = e.kdf.iterations;
  parallelism = e.kdf.parallelism;
}

-- `if set.schema_version >= PROFILE_SET_SCHEMA_V2`
abbrev pub current : Option ProfileSet → Option ProfileSet
current none = none
current (some set) = if leb profile_set_schema_v2 set.schema_version then some set else none

abbrev pub accepted : Result ProfileCryptoError ProfileSet → Option ProfileSet
accepted (ok set) = some set
accepted (err _) = none

module _ (l : Libraries) where
  unfoldable pub envelope_of : Argon2idConfig → (salt nonce ciphertext : Bytes) → ProfileEnvelope
  envelope_of config salt nonce ciphertext = record {
    version = envelope_version_v1;
    kdf = record {
      name = kdf_name_argon2id;
      memory_kib = config.memory_kib;
      iterations = config.iterations;
      parallelism = config.parallelism;
      salt = l.base64_encode salt;
    };
    cipher = record { name = cipher_name_xchacha20poly1305; nonce = l.base64_encode nonce };
    payload = record { format = payload_format_cbor; ciphertext = l.base64_encode ciphertext };
  }

  -- from `aead_encrypt` to `serde_json::to_string`
  unfoldable pub seal :
      Argon2idConfig → (salt nonce key plaintext : Bytes) → Result ProfileCryptoError Text
  seal config salt nonce key plaintext = do
    ciphertext ← aead_encrypt l key nonce plaintext
    fails_as ProfileCryptoError.invalid_envelope
        (l.json_to_string (envelope_of config salt nonce ciphertext))

  unfoldable pub encrypt_profile_with_config :
      (salt nonce : Bytes)
      → PlainProfile
      → (passphrase : Text) → Argon2idConfig
      → Result ProfileCryptoError Text
  encrypt_profile_with_config salt nonce profile passphrase config = do
    key ← derive_key l passphrase salt config
    plaintext ← fails_as ProfileCryptoError.payload_encode (l.cbor_profile.into_writer profile)
    seal config salt nonce key plaintext

  unfoldable pub encrypt_profile :
      (salt nonce : Bytes) → PlainProfile → (passphrase : Text) → Result ProfileCryptoError Text
  encrypt_profile salt nonce profile passphrase =
      encrypt_profile_with_config salt nonce profile passphrase Kdf.default

  unfoldable pub base64_field : Text → Result ProfileCryptoError Bytes
  base64_field field = fails_as ProfileCryptoError.base64_decode (l.base64_decode field)

  unfoldable pub decrypt_profile :
      Text → (passphrase : Text) → Result ProfileCryptoError PlainProfile
  decrypt_profile profile_zz passphrase = do
    envelope ← fails_as ProfileCryptoError.invalid_envelope (l.json_from_str profile_zz)
    check_header envelope
    salt ← base64_field envelope.kdf.salt
    nonce_bytes ← base64_field envelope.cipher.nonce
    ciphertext ← base64_field envelope.payload.ciphertext
    nonce ← try_into nonce_len nonce_bytes
    key ← derive_key l passphrase salt (config_of envelope)
    plaintext ← aead_decrypt l key nonce ciphertext
    fails_as ProfileCryptoError.payload_decode (l.cbor_profile.from_reader plaintext)

  -- the CBOR tree of a set with carriers, each put back under its own tag
  unfoldable pub write_restored : ProfileSet → Result ProfileCryptoError Bytes
  write_restored set = do
    value ← value_from l l.cbor_set set
    restored ← restore_unknown_providers l value
    fails_as ProfileCryptoError.payload_encode (l.cbor_value.into_writer restored)

  unfoldable pub write_set : ProfileSet → Result ProfileCryptoError Bytes
  write_set set =
      if set_holds_unknown_provider set
      then write_restored set
      else fails_as ProfileCryptoError.payload_encode (l.cbor_set.into_writer set)

  unfoldable pub encrypt_set_with_kek :
      (nonce : Bytes) → ProfileSet → ProfileKek → Result ProfileCryptoError Text
  encrypt_set_with_kek nonce set kek = do
    plaintext ← write_set set
    seal kek.kdf_config kek.salt nonce kek.key plaintext

  unfoldable pub encrypt_set_with_config :
      (salt nonce : Bytes)
      → ProfileSet
      → (passphrase : Text) → Argon2idConfig
      → Result ProfileCryptoError (Text × ProfileKek)
  encrypt_set_with_config salt nonce set passphrase config = do
    key ← derive_key l passphrase salt config
    let kek : ProfileKek = record { key = key; salt = salt; kdf_config = config }
    envelope ← encrypt_set_with_kek nonce set kek
    ok (envelope, kek)

  unfoldable pub encrypt_set :
      (salt nonce : Bytes)
      → ProfileSet
      → (passphrase : Text) → Result ProfileCryptoError (Text × ProfileKek)
  encrypt_set salt nonce set passphrase =
      encrypt_set_with_config salt nonce set passphrase Kdf.default

  -- the second attempt: through a CBOR tree whose foreign entries are shielded
  unfoldable pub read_shielded : Bytes → Option ProfileSet
  read_shielded plaintext = accepted (do
    value ← fails_as ProfileCryptoError.payload_decode (l.cbor_value.from_reader plaintext)
    shielded ← shield_unknown_providers l value
    value_to l l.cbor_set shielded)

  -- the attempts that follow decryption, in their order
  unfoldable pub read_set : Bytes → Result ProfileCryptoError ProfileSet
  read_set plaintext = elim (current (l.cbor_set.from_reader plaintext)) [
    | some set ↦ ok set
    | none ↦ elim (current (read_shielded plaintext)) [
      | some set ↦ ok set
      | none ↦
          if is_some (l.cbor_profile.from_reader plaintext)
          then err ProfileCryptoError.legacy_format
          else err ProfileCryptoError.payload_decode
    ]
  ]

  unfoldable pub decrypt_set :
      Text → (passphrase : Text) → Result ProfileCryptoError (ProfileSet × ProfileKek)
  decrypt_set envelope passphrase = do
    parsed ← fails_as ProfileCryptoError.invalid_envelope (l.json_from_str envelope)
    check_header parsed
    salt_bytes ← base64_field parsed.kdf.salt
    salt ← try_into salt_len salt_bytes
    nonce_bytes ← base64_field parsed.cipher.nonce
    nonce ← try_into nonce_len nonce_bytes
    ciphertext ← base64_field parsed.payload.ciphertext
    let config = config_of parsed
    key ← derive_key l passphrase salt config
    plaintext ← aead_decrypt l key nonce ciphertext
    set ← read_set plaintext
    ok (set, record { key = key; salt = salt; kdf_config = config })
