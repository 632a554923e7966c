-- ===== src/Tests/Stored.antt =====
-- The agent over a container that it can seal: the theorem at a concrete session.
use zz_drop.Prelude.{ℕ, ◌≡◌, refl, some, ok, [], ◌∷◌, arith, none, false}
use zz_drop.Profile.Container.{ProfileSet}
use zz_drop.Profile.Crypto.{derive_key, hash_password}
use zz_drop.Profile.Kdf.{validate}
use zz_drop.Profile.Foreign.{set_holds_unknown_provider}
use zz_drop.Agent.Disk.{Disk}
use zz_drop.Agent.State.{AgentState, unlock}
use zz_drop.Agent.State.Update.{update_profile_set}
use zz_drop.Agent.State.Update.Stored.{Stored, sealing, outcome, update_profile_set-Stored}
use zz_drop.Tests.Data.{profile_of, alpha, beta, only_beta, at, locked}
use zz_drop.Tests.Codec.{toy, toy-Lawful}
use zz_drop.Tests.Vaults.{nonce, passphrase, vault, vault_kek, opens_vault}

abbrev only_alpha : ProfileSet
only_alpha = record { schema_version = 2; profiles = profile_of alpha ∷ [] }

abbrev vault_disk : Disk
vault_disk = record { container = some (record { content = vault; mtime = 1 }); tmp = none }

unfoldable session : AgentState ℕ
unfolding unlock
session = unlock (at 5) only_beta vault_kek beta none (record locked { disk = vault_disk })

keyed : derive_key toy passphrase vault_kek.salt vault_kek.kdf_config ≡ ok vault_kek.key
unfolding derive_key hash_password validate
keyed = refl

known : set_holds_unknown_provider only_alpha ≡ false
unfolding set_holds_unknown_provider
known = refl

update_profile_set-Stored_example :
    Stored toy passphrase
      (update_profile_set (sealing toy nonce passphrase (at 6)) only_alpha session).1.disk
      (outcome
        (update_profile_set (sealing toy nonce passphrase (at 6)) only_alpha session).0
        only_alpha
        only_beta)
unfolding session
update_profile_set-Stored_example =
    update_profile_set-Stored toy nonce passphrase toy-Lawful (at 6) only_beta only_beta only_alpha
      vault_kek session refl refl keyed known (omega arith) refl refl
      (record { content = vault; mtime = 1 }, vault_kek, refl, opens_vault)
