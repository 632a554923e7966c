-- ===== src/Tests/Vaults.antt =====
-- Containers and their files: runs of the model, and the theorems at a concrete container.
use zz_drop.Prelude.{
  ◌≡◌, ◌≢◌, refl, Text, Bytes, codes, true, false, none, some, [], ◌∷◌, ◌++◌, ok, text_eq, arith,
}
use zz_drop.Profile.Container.{ProfileSet}
use zz_drop.Profile.Kdf.{Argon2idConfig, ProfileKek, validate}
use zz_drop.Profile.Crypto.{ProfileEnvelope, derive_key, hash_password, aead_encrypt}
use zz_drop.Profile.Crypto.CborTree.{Value, Values, tagged}
use zz_drop.Profile.Foreign.{
  set_holds_unknown_provider, restore_unknown_providers, shield_unknown_providers,
  for_each_provider_entry, in_map, in_array, each_entry, each_value, value_to, shield_entry,
  restore_entry, taken_tag, to_carrier, value_from,
}
use zz_drop.Profile.Foreign.Kept.{restore-shield}
use zz_drop.Profile.Format.{
  encrypt_set_with_config, encrypt_set_with_kek, write_set, seal, envelope_of, decrypt_set,
  config_of, encrypt_profile_with_config, read_shielded,
}
use zz_drop.Profile.Format.Opens.{decrypt_set-encrypt_set_with_config}
use zz_drop.Profile.Format.Refuses.{Opened, decrypt_set-Opened, decrypt_set-hostile}
use zz_drop.Profile.Files.{
  FsAnswers, Target, save_set_zz_with_config, load_set_zz, write_envelope, write_private,
}
use zz_drop.Profile.Files.Kept.{PrivateWith, load_set_zz-save_set_zz_with_config}
use zz_drop.Profile.Rotation.{rotate_set_if_needed}
use zz_drop.Profile.Rotation.Replaces.{Rotated, rotate_set_if_needed-Rotated}
use zz_drop.Tests.Data.{profile_of, beta, only_beta}
use zz_drop.Tests.Codec.{toy, toy-Lawful, puts, gets}

abbrev pub salt : Bytes
salt = codes "0123456789abcdef"

abbrev pub nonce : Bytes
nonce = codes "0123456789abcdefghijklmn"

abbrev pub passphrase : Text
passphrase = codes "pw"

abbrev weak : Argon2idConfig
weak = record { memory_kib = 1024; iterations = 1; parallelism = 1 }

abbrev policy : Argon2idConfig
policy = record { memory_kib = 2048; iterations = 2; parallelism = 1 }

abbrev pub vault_kek : ProfileKek
vault_kek = record { key = passphrase ++ salt; salt = salt; kdf_config = weak }

abbrev profile_bytes : Bytes
profile_bytes =
    1
    ∷ 600
    ∷ 300
    ∷ puts (
        beta
        ∷ beta
        ∷ codes "t"
        ∷ []
        ∷ []
        ∷ codes "https://x"
        ∷ codes "u"
        ∷ codes "s"
        ∷ codes "/"
        ∷ [])

abbrev envelope_with : Bytes → Text
envelope_with plaintext =
    1
    ∷ 1024
    ∷ 1
    ∷ 1
    ∷ puts (
        codes "argon2id"
        ∷ salt
        ∷ codes "xchacha20poly1305"
        ∷ nonce
        ∷ codes "cbor"
        ∷ puts ((passphrase ++ salt) ∷ plaintext ∷ [])
        ∷ [])

abbrev pub vault : Text
vault = envelope_with (9 ∷ 2 ∷ profile_bytes)

sealed_vault :
    encrypt_set_with_config toy salt nonce only_beta passphrase weak ≡ ok (vault, vault_kek)
unfolding encrypt_set_with_config encrypt_set_with_kek write_set seal envelope_of derive_key
    hash_password validate aead_encrypt set_holds_unknown_provider
sealed_vault = refl

all_known : set_holds_unknown_provider only_beta ≡ false
unfolding set_holds_unknown_provider
all_known = refl

decrypt_set-encrypt_set_with_config_example :
    decrypt_set toy vault passphrase ≡ ok (only_beta, vault_kek)
decrypt_set-encrypt_set_with_config_example =
    decrypt_set-encrypt_set_with_config toy toy-Lawful salt nonce only_beta passphrase weak vault
      vault_kek refl refl all_known (omega arith) sealed_vault

pub opens_vault : decrypt_set toy vault passphrase ≡ ok (only_beta, vault_kek)
opens_vault =
    decrypt_set-encrypt_set_with_config toy toy-Lawful salt nonce only_beta passphrase weak vault
      vault_kek refl refl all_known (omega arith) sealed_vault

decrypt_set-Opened_example : Opened toy vault passphrase only_beta vault_kek
decrypt_set-Opened_example = decrypt_set-Opened toy vault passphrase only_beta vault_kek opens_vault

-- a header that asks for 4 GiB
abbrev hostile_envelope : ProfileEnvelope
hostile_envelope = record {
  version = 1;
  kdf = record {
    name = codes "argon2id";
    memory_kib = 4194304;
    iterations = 1;
    parallelism = 1;
    salt = salt;
  };
  cipher = record { name = codes "xchacha20poly1305"; nonce = nonce };
  payload = record { format = codes "cbor"; ciphertext = [] };
}

abbrev hostile : Text
hostile =
    1
    ∷ 4194304
    ∷ 1
    ∷ 1
    ∷ puts (codes "argon2id" ∷ salt ∷ codes "xchacha20poly1305" ∷ nonce ∷ codes "cbor" ∷ [] ∷ [])

parsed_hostile : toy.json_from_str hostile ≡ some hostile_envelope
unfolding gets puts
parsed_hostile = refl

out_of_band : validate (config_of hostile_envelope) ≡ false
unfolding validate
out_of_band = refl

decrypt_set-hostile_example :
    (decrypt_set
        (record toy { params_new = λ c. none; hash_password_into = λ c p s. none })
        hostile
        passphrase
      ≡ decrypt_set toy hostile passphrase)
    × ((opened : ProfileSet × ProfileKek) → decrypt_set toy hostile passphrase ≢ ok opened)
decrypt_set-hostile_example =
    decrypt_set-hostile toy hostile passphrase hostile_envelope (λ c. none) (λ c p s. none)
      parsed_hostile out_of_band

sealed_profile :
    encrypt_profile_with_config toy salt nonce (profile_of beta) passphrase weak
    ≡ ok (envelope_with profile_bytes)
unfolding encrypt_profile_with_config seal envelope_of derive_key hash_password validate
    aead_encrypt
sealed_profile = refl

NotSet : Bytes → Type 0
NotSet bytes = (toy.cbor_set.from_reader bytes ≡ none) × (read_shielded toy bytes ≡ none)

no_set : NotSet profile_bytes
unfolding NotSet read_shielded shield_unknown_providers for_each_provider_entry in_map value_to
no_set = (refl, refl)

abbrev working : FsAnswers
working = record {
  has_parent = true;
  create_dir_all = true;
  open_ = true;
  write_all = true;
  set_permissions = true;
  rename = true;
  remove_file = true;
  read_to_string = true;
  partial = [];
  default_mode = 420;
}

abbrev no_files : Target
no_files = record { file = none; tmp = none }

abbrev vault_file : Target
vault_file = record { file = some (record { content = vault; mode = 384 }); tmp = none }

saved :
    save_set_zz_with_config toy working salt nonce only_beta passphrase weak no_files
    ≡ (ok vault_kek, vault_file)
unfolding save_set_zz_with_config write_envelope write_private encrypt_set_with_config
    encrypt_set_with_kek write_set seal envelope_of derive_key hash_password validate aead_encrypt
    set_holds_unknown_provider
saved = refl

load_set_zz-save_set_zz_with_config_example :
    (load_set_zz toy working passphrase vault_file ≡ ok (only_beta, vault_kek))
    × ((envelope : Text) × PrivateWith envelope vault_file)
load_set_zz-save_set_zz_with_config_example =
    load_set_zz-save_set_zz_with_config toy toy-Lawful working working salt nonce only_beta
      passphrase weak vault_kek no_files vault_file refl refl all_known (omega arith) refl saved

rotate_set_if_needed-Rotated_example :
    Rotated toy toy-Lawful working working passphrase only_beta vault_kek policy vault_file
      (rotate_set_if_needed toy working salt nonce only_beta vault_kek passphrase policy vault_file)
rotate_set_if_needed-Rotated_example =
    rotate_set_if_needed-Rotated toy toy-Lawful working working passphrase salt nonce only_beta
      vault_kek policy vault_file refl refl all_known (omega arith) refl

abbrev container_with : Value → Value
container_with provider = tagged (codes "profiles") (
    Value.array (
      Values.cons (tagged (codes "providers") (Value.array (Values.cons provider Values.nil)))
        Values.nil))

abbrev foreign_entry : Value
foreign_entry = tagged (codes "s3") (Value.text (codes "bucket"))

abbrev carrier_entry : Value
carrier_entry =
    tagged (codes "unknown") (Value.text (puts (codes "s3" ∷ (1 ∷ codes "bucket") ∷ [])))

no_carrier :
    restore_unknown_providers toy (container_with foreign_entry) ≡ ok (container_with foreign_entry)
unfolding restore_unknown_providers for_each_provider_entry in_map in_array each_entry each_value
    restore_entry text_eq
no_carrier = refl

shielded :
    shield_unknown_providers toy (container_with foreign_entry) ≡ ok (container_with carrier_entry)
unfolding shield_unknown_providers for_each_provider_entry in_map in_array each_entry each_value
    shield_entry taken_tag to_carrier value_from text_eq
shielded = refl

restore-shield_example :
    restore_unknown_providers toy (container_with carrier_entry) ≡ ok (container_with foreign_entry)
restore-shield_example =
    restore-shield toy toy-Lawful.values toy-Lawful.carriers (container_with foreign_entry)
      (container_with carrier_entry) no_carrier shielded
