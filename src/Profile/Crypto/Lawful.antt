-- ===== src/Profile/Crypto/Lawful.antt =====
-- What the documentation of the third-party crates promises: each decoder undoes its encoder, a
-- cipher opens what it has sealed under the same key and nonce, and an enum of serde is a map with
-- one entry, the name of the variant.
use zz_drop.Prelude.{Text, Bytes, codes, ◌≡◌, some}
use zz_drop.Profile.{ProviderProfile, UnknownProvider}
use zz_drop.Profile.Crypto.{Libraries, Cbor, ProfileEnvelope}
use zz_drop.Profile.Crypto.CborTree.{Value, tagged}

abbrev pub RoundTrips {ℓ} : {A : Type ℓ} → Cbor A → Type ℓ
RoundTrips {A = A} c =
    (a : A) (bytes : Bytes) → c.into_writer a ≡ some bytes → c.from_reader bytes ≡ some a

-- The CBOR form of the carrier of an unknown provider: `{"unknown": …}`, which reads back as itself.
abbrev pub CarrierForm : Libraries → UnknownProvider → Type 0
CarrierForm l carrier =
    (inner : Value) × ((bytes again : Bytes) × (l.cbor_provider.into_writer
          (ProviderProfile.unknown carrier)
        ≡ some bytes)
      × (l.cbor_value.from_reader bytes ≡ some (tagged (codes "unknown") inner))
      × (l.cbor_value.into_writer (tagged (codes "unknown") inner) ≡ some again)
      × (l.cbor_provider.from_reader again ≡ some (ProviderProfile.unknown carrier)))

-- `json` is a law of the envelope only; the cipher's law says nothing of other keys.
pub record Lawful (l : Libraries) : Type 0 where
  pub base64 : (bytes : Bytes) → l.base64_decode (l.base64_encode bytes) ≡ some bytes
  pub json :
      (envelope : ProfileEnvelope) (t : Text)
      → l.json_to_string envelope ≡ some t
      → l.json_from_str t ≡ some envelope
  pub aead :
      (key nonce plaintext ciphertext : Bytes)
      → l.encrypt key nonce plaintext ≡ some ciphertext
      → l.decrypt key nonce ciphertext ≡ some plaintext
  pub sets : RoundTrips l.cbor_set
  pub profiles : RoundTrips l.cbor_profile
  pub values : RoundTrips l.cbor_value
  pub carriers : (carrier : UnknownProvider) → CarrierForm l carrier
