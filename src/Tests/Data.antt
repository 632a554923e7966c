-- ===== src/Tests/Data.antt =====
-- Concrete profiles, surroundings and states for the other modules.
use zz_drop.Prelude.{ℕ, Text, codes, true, false, none, some, List, [], ◌∷◌, ok}
use zz_drop.Profile.{CollisionPolicy, NextcloudAuth, ProviderProfile, PlainProfile}
use zz_drop.Profile.Container.{ProfileSet}
use zz_drop.Profile.Kdf
use zz_drop.Profile.Kdf.{ProfileKek}
use zz_drop.Proto.{KekPayload, from_kek}
use zz_drop.Agent.Disk.{Disk, DiskAnswers}
use zz_drop.Agent.ListCache.{secs}
use zz_drop.Agent.State.{AgentState, Env, RemoteEntry, new}

abbrev pub profile_of : Text → PlainProfile
profile_of alias = record {
  profile_version = 1;
  profile_id = alias;
  alias = alias;
  default_target = codes "t";
  providers =
      ProviderProfile.nextcloud (record {
        server_url = codes "https://x";
        username = codes "u";
        auth = NextcloudAuth.app_password (codes "s");
        remote_root = codes "/";
      })
      ∷ [];
  collision_policy = CollisionPolicy.rename;
  settings = record { unlock_ttl_secs = 600; agent_idle_exit_secs = 300 };
  created_at = [];
  updated_at = [];
}

abbrev pub alpha : Text
alpha = codes "alpha"

abbrev pub beta : Text
beta = codes "beta"

abbrev pub two_profiles : ProfileSet
two_profiles = record { schema_version = 2; profiles = profile_of alpha ∷ profile_of beta ∷ [] }

abbrev pub only_beta : ProfileSet
only_beta = record { schema_version = 2; profiles = profile_of beta ∷ [] }

abbrev pub kek : ProfileKek
kek = record { key = 1 ∷ []; salt = 2 ∷ []; kdf_config = Kdf.default }

abbrev pub answers : DiskAnswers
answers = record {
  stat_before = true;
  create_dir_all = none;
  write = none;
  set_permissions = none;
  rename = none;
  stat_after = true;
  partial = [];
  stamp = 7;
}

abbrev pub full_disk : DiskAnswers
full_disk = record answers { write = some (codes "no space left") }

abbrev pub remote_entries : List RemoteEntry
remote_entries =
    record { name = codes "a.md"; size = some 3; is_directory = false }
    ∷ record { name = codes "docs"; size = none; is_directory = true }
    ∷ []

-- Both clocks stand at `n` seconds; a client is the number of profiles built so far.
abbrev pub at : ℕ → Env ℕ
at n = record {
  instant = secs n;
  instant_after = secs n;
  wall = secs n;
  wall_after = secs n;
  wall_returned = secs n;
  os = answers;
  sealed = λ set k. some (codes "sealed");
  build = λ p. ok 0;
  answer = λ c path. ok remote_entries;
}

abbrev pub on_full_disk : ℕ → Env ℕ
on_full_disk n = record (at n) { os = full_disk }

abbrev pub disk : Disk
disk = record { container = some (record { content = codes "old"; mtime = 1 }); tmp = none }

abbrev pub locked : AgentState ℕ
locked = new 0 (secs 600) disk

abbrev pub payload : KekPayload
payload = from_kek kek
