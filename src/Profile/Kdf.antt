-- ===== src/Profile/Kdf.antt =====
-- core/src/crypto/kdf.rs (`Argon2idConfig`), core/src/profile/policy.rs, and `ProfileKek` of
-- core/src/profile/set.rs. A `u32` is a number; no operation here overflows one.
use zz_drop.Prelude.{
  ℕ, ◌*◌, ◌≤◌, ◌≡◌, ◌↔◌, Bool, true, false, not, ◌&&◌, ◌||◌, ltb, leb, if◌then◌else◌, arith, Bytes,
}

pub record Argon2idConfig : Type 0 where
  pub memory_kib : ℕ
  pub iterations : ℕ
  pub parallelism : ℕ

abbrev pub default : Argon2idConfig
default = record { memory_kib = 194560; iterations = 3; parallelism = 1 }

abbrev pub max_memory_kib : ℕ
max_memory_kib = 2 * 1024 * 1024

abbrev pub max_iterations : ℕ
max_iterations = 16

abbrev pub max_parallelism : ℕ
max_parallelism = 8

-- `validate`, with `true` for `Ok(())`; the error carries only a message
unfoldable pub validate : Argon2idConfig → Bool
validate c =
    if ltb max_memory_kib c.memory_kib
      || not (leb 1 c.iterations && leb c.iterations max_iterations)
      || not (leb 1 c.parallelism && leb c.parallelism max_parallelism)
    then false
    else true

abbrev pub policy_v1 : Argon2idConfig
policy_v1 = default

unfoldable pub needs_rotation : Argon2idConfig → Argon2idConfig → Bool
needs_rotation current policy =
    ltb current.memory_kib policy.memory_kib
    || ltb current.iterations policy.iterations
    || ltb current.parallelism policy.parallelism

-- The key is 32 bytes and the salt 16; no operation of the agent reads them.
pub record ProfileKek : Type 0 where
  pub key : Bytes
  pub salt : Bytes
  pub kdf_config : Argon2idConfig

-- Each parameter reaches the baseline.
abbrev pub AtPolicy : Argon2idConfig → Argon2idConfig → Type 0
AtPolicy current policy =
    (policy.memory_kib ≤ current.memory_kib)
    × (policy.iterations ≤ current.iterations)
    × (policy.parallelism ≤ current.parallelism)

-- A container is left alone exactly when every parameter reaches the policy's.
pub needs_rotation_iff :
    (current policy : Argon2idConfig)
    → (needs_rotation current policy ≡ false) ↔ AtPolicy current policy
unfolding needs_rotation
needs_rotation_iff c p = (λ h. ground arith, λ h. ground arith)

-- Re-encryption under a policy's own parameters is never asked for again.
pub needs_rotation_self : (policy : Argon2idConfig) → needs_rotation policy policy ≡ false
needs_rotation_self p = (needs_rotation_iff p p).1 (omega arith)

-- The in-tree policy is accepted by the bounds on a header, so a rotated container opens again.
pub policy_v1-validate : validate policy_v1 ≡ true
unfolding validate
policy_v1-validate = ground arith
