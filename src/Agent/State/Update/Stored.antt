-- ===== src/Agent/State/Update/Stored.antt =====
-- The agent and the container file together: `sealed` is `encrypt_set_with_kek` of
-- core/src/profile/format.rs, and what an update leaves on disk is read back by `decrypt_set`.
use zz_drop.Prelude.{
  ◌≡◌, ◌≤◌, subst, Text, Bytes, false, Option, none, some, Result, ok, err, length, arith, ◌∙◌,
}
use zz_drop.Profile.Container.{ProfileSet, profile_set_schema_v2}
use zz_drop.Profile.Kdf.{ProfileKek}
use zz_drop.Profile.Crypto.{Libraries, nonce_len, salt_len, derive_key}
use zz_drop.Profile.Crypto.Lawful.{Lawful}
use zz_drop.Profile.Foreign.{set_holds_unknown_provider}
use zz_drop.Profile.Format.{encrypt_set_with_kek, decrypt_set}
use zz_drop.Profile.Format.Opens.{decrypt_set-encrypt_set_with_kek}
use zz_drop.Agent.Disk.{Disk, StoredFile}
use zz_drop.Agent.State.{AgentState, UpdateError, Env}
use zz_drop.Agent.State.Update.{update_profile_set}
use zz_drop.Agent.State.Update.Written.{Persisted, update_profile_set-Persisted}

abbrev pub to_option {ℓ κ} : {E : Type ℓ} {A : Type κ} → Result E A → Option A
to_option (ok a) = some a
to_option (err _) = none

to_option-eq-some {ℓ κ} :
    {E : Type ℓ} {A : Type κ} (r : Result E A) (a : A) → to_option r ≡ some a → r ≡ ok a
to_option-eq-some (ok b) a h = ground arith
to_option-eq-some (err e) a h = cc

-- the set that the container counts as holding after an update
abbrev pub outcome {ℓ} : {E : Type ℓ} → Result E (Unit {0}) → ProfileSet → ProfileSet → ProfileSet
outcome (ok _) new old = new
outcome (err _) new old = old

-- The abstract view of the container file: the set that the passphrase reads from it.
abbrev pub Stored : Libraries → (passphrase : Text) → Disk → ProfileSet → Type 0
Stored l passphrase disk set =
    (f : StoredFile) × (kek : ProfileKek) × (disk.container ≡ some f)
    × (decrypt_set l f.content passphrase ≡ ok (set, kek))

module _ {Client : Type 0} (l : Libraries) (nonce : Bytes) (passphrase : Text) where
  -- the surroundings, with the container's own cryptography
  abbrev pub sealing : Env Client → Env Client
  sealing env = record env { sealed = λ set kek. to_option (encrypt_set_with_kek l nonce set kek) }

  Persisted-Stored :
      (laws : Lawful l) (env : Env Client) (old set : ProfileSet) (k : ProfileKek) (disk : Disk)
      (after : Result UpdateError (Unit {0}) × AgentState Client)
      → length nonce ≡ nonce_len
      → length k.salt ≡ salt_len
      → derive_key l passphrase k.salt k.kdf_config ≡ ok k.key
      → set_holds_unknown_provider set ≡ false
      → profile_set_schema_v2 ≤ set.schema_version
      → Stored l passphrase disk old
      → Persisted (sealing env) set (some k) disk.container after
      → Stored l passphrase after.1.disk (outcome after.0 set old)
  Persisted-Stored laws env old set k disk (err e, s) n m derived known schema
        (f, kek, there, opens) same =
      (f, kek, same ∙ there, opens)
  Persisted-Stored laws env old set k disk (ok _, s) n m derived known schema stored
        (k', (envelope, same, sealed, there)) =
      let same_k : k' ≡ k = ground arith in
      let sealed_k : to_option (encrypt_set_with_kek l nonce set k) ≡ some envelope =
        subst (λ x. to_option (encrypt_set_with_kek l nonce set x) ≡ some envelope) same_k sealed in
      (
        record { content = envelope; mtime = env.os.stamp },
        k,
        there,
        decrypt_set-encrypt_set_with_kek l laws passphrase set k nonce envelope n m derived known
            schema (to_option-eq-some _ envelope sealed_k),
      )

  -- On an unlocked agent whose key is the one that the passphrase gives, `update_profile_set`
  -- implements an assignment: if the passphrase reads a set from the container file, then afterwards
  -- it reads the new set where the update succeeded, and the old one where it failed. For a new set of
  -- known providers at the current schema, and crates that keep their laws.
  pub update_profile_set-Stored :
      (laws : Lawful l) (env : Env Client) (old held set : ProfileSet) (k : ProfileKek)
      (s : AgentState Client)
      → length nonce ≡ nonce_len
      → length k.salt ≡ salt_len
      → derive_key l passphrase k.salt k.kdf_config ≡ ok k.key
      → set_holds_unknown_provider set ≡ false
      → profile_set_schema_v2 ≤ set.schema_version
      → s.inner.profile_set ≡ some held
      → s.inner.kek ≡ some k
      → Stored l passphrase s.disk old
      → Stored l passphrase
          (update_profile_set (sealing env) set s).1.disk
          (outcome (update_profile_set (sealing env) set s).0 set old)
  update_profile_set-Stored laws env old held set k s n m derived known schema open_ keyed stored =
      Persisted-Stored laws env old set k s.disk (update_profile_set (sealing env) set s) n m
        derived known schema stored
        (subst
          (λ o.
            Persisted (sealing env) set o s.disk.container (update_profile_set (sealing env) set s))
          keyed (update_profile_set-Persisted (sealing env) held set s open_))
