-- ===== src/Profile/Crypto.antt =====
-- core/src/crypto: aead.rs, kdf.rs (`derive_key`), profile_envelope.rs, and the error type of
-- core/src/profile/format.rs. base64, serde_json, ciborium, argon2 and chacha20poly1305 are not part
-- of the repository: `Libraries` holds the calls of them, and `Crypto.Lawful` what their
-- documentation promises.
pub mod CborTree
pub mod Lawful
use zz_drop.Prelude.{
  ℕ, Text, Bytes, codes, Bool, Option, none, some, Result, ok, err, ok_or, length, ◌==◌,
  if◌then◌else◌, ◌>>=◌, ◌>>◌,
}
use zz_drop.Profile.{PlainProfile, ProviderProfile}
use zz_drop.Profile.Container.{ProfileSet}
use zz_drop.Profile.Crypto.CborTree.{Value}
use zz_drop.Profile.Kdf.{Argon2idConfig, validate}

abbrev pub key_len : ℕ
key_len = 32

abbrev pub nonce_len : ℕ
nonce_len = 24

abbrev pub salt_len : ℕ
salt_len = 16

pub data ProfileCryptoError : Type 0 where
  unsupported_version : (got expected : ℕ) → ProfileCryptoError
  unsupported_kdf unsupported_cipher unsupported_payload_format : (name : Text) → ProfileCryptoError
  invalid_envelope base64_decode : ProfileCryptoError
  kdf : Text → ProfileCryptoError
  aead payload_decode payload_encode invalid_length io legacy_format : ProfileCryptoError

abbrev pub envelope_version_v1 : ℕ
envelope_version_v1 = 1

abbrev pub kdf_name_argon2id : Text
kdf_name_argon2id = codes "argon2id"

abbrev pub cipher_name_xchacha20poly1305 : Text
cipher_name_xchacha20poly1305 = codes "xchacha20poly1305"

abbrev pub payload_format_cbor : Text
payload_format_cbor = codes "cbor"

pub record KdfParams : Type 0 where
  pub name : Text
  pub memory_kib : ℕ
  pub iterations : ℕ
  pub parallelism : ℕ
  pub salt : Text

pub record CipherParams : Type 0 where
  pub name : Text
  pub nonce : Text

pub record PayloadParams : Type 0 where
  pub format : Text
  pub ciphertext : Text

pub record ProfileEnvelope : Type 0 where
  pub version : ℕ
  pub kdf : KdfParams
  pub cipher : CipherParams
  pub payload : PayloadParams

-- One serde type and its CBOR form: `ciborium::into_writer` and `ciborium::from_reader`.
pub record Cbor {ℓ} (A : Type ℓ) : Type ℓ where
  pub into_writer : A → Option Bytes
  pub from_reader : Bytes → Option A

-- `encrypt` and `decrypt` take the key, the nonce and the text, and cover `new_from_slice`;
-- `params_new` answers with the message of its error; `out_of_range` is the text that `format!`
-- makes of the parameters.
pub record Libraries : Type 0 where
  pub base64_encode : Bytes → Text
  pub base64_decode : Text → Option Bytes
  pub json_to_string : ProfileEnvelope → Option Text
  pub json_from_str : Text → Option ProfileEnvelope
  pub out_of_range : Argon2idConfig → Text
  pub params_new : Argon2idConfig → Option Text
  pub hash_password_into : Argon2idConfig → Text → Bytes → Option Bytes
  pub encrypt : Bytes → Bytes → Bytes → Option Bytes
  pub decrypt : Bytes → Bytes → Bytes → Option Bytes
  pub cbor_set : Cbor ProfileSet
  pub cbor_profile : Cbor PlainProfile
  pub cbor_provider : Cbor ProviderProfile
  pub cbor_value : Cbor Value

-- `map_err` of a third-party error onto one of the crate's
abbrev pub fails_as {ℓ} : {A : Type ℓ} → ProfileCryptoError → Option A → Result ProfileCryptoError A
fails_as = ok_or

-- `as_slice().try_into()` to an array of `n` bytes
unfoldable pub try_into : ℕ → Bytes → Result ProfileCryptoError Bytes
try_into n bytes = if length bytes == n then ok bytes else err invalid_length

module _ (l : Libraries) where
  unfoldable pub aead_encrypt : (key nonce plaintext : Bytes) → Result ProfileCryptoError Bytes
  aead_encrypt key nonce plaintext = fails_as aead (l.encrypt key nonce plaintext)

  unfoldable pub aead_decrypt : (key nonce ciphertext : Bytes) → Result ProfileCryptoError Bytes
  aead_decrypt key nonce ciphertext = fails_as aead (l.decrypt key nonce ciphertext)

  -- `Params::new(…)`, then `hash_password_into`
  unfoldable pub hash_password : Argon2idConfig → Text → Bytes → Result ProfileCryptoError Bytes
  hash_password config passphrase salt = elim (l.params_new config) [
    | some message ↦ err (kdf message)
    | none ↦
        fails_as (kdf (codes "hash_password_into failed"))
          (l.hash_password_into config passphrase salt)
  ]

  unfoldable pub derive_key : Text → Bytes → Argon2idConfig → Result ProfileCryptoError Bytes
  derive_key passphrase salt config =
      if validate config
      then hash_password config passphrase salt
      else err (kdf (l.out_of_range config))
