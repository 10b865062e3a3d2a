-- ===== src/Auth/Limits.antt =====
-- The life of invitations and resets as the environment configures it.
use triton_control.Prelude.{ℕ, ◌≤◌, String, Option, none, some, arith}
use triton_control.Prelude.Int.{ℤ, pos, negsuc, clamp}
use triton_control.Env.{Env}
use triton_control.Auth.Settings.{env_int, env_entity}

clamp-bounds :
    (lo hi : ℕ) (value : ℤ) → lo ≤ hi → (lo ≤ clamp lo hi value) × (clamp lo hi value ≤ hi)
clamp-bounds lo hi (pos n) p = (omega arith, omega arith)
clamp-bounds lo hi (negsuc n) p = (omega arith, p)

read-bounds :
    (lo hi default : ℕ) (raw : Option ℤ)
    → lo ≤ hi
    → (lo ≤ (elim raw [ none ↦ clamp lo hi (pos default) | some value ↦ clamp lo hi value ]))
      × ((elim raw [ none ↦ clamp lo hi (pos default) | some value ↦ clamp lo hi value ]) ≤ hi)
read-bounds lo hi default none p = clamp-bounds lo hi (pos default) p
read-bounds lo hi default (some value) p = clamp-bounds lo hi value p

module _ ⦃env : Env⦄ where
  env_int-bounds :
      (name : String) (default minimum maximum : ℕ)
      → minimum ≤ maximum
      → (minimum ≤ env_int name default minimum maximum)
        × (env_int name default minimum maximum ≤ maximum)
  unfolding env_int
  env_int-bounds name default minimum maximum p = read-bounds minimum maximum default _ p

  -- Whatever the environment says, an invitation lives between five minutes and seven days, and a reset
  -- between five minutes and one day.
  pub env_entity-bounds :
      ((5 ≤ env_entity.invite_expiry_minutes) × (env_entity.invite_expiry_minutes ≤ 10080))
      × ((5 ≤ env_entity.reset_expiry_minutes) × (env_entity.reset_expiry_minutes ≤ 1440))
  unfolding env_entity
  env_entity-bounds = (
    env_int-bounds "EMAIL_INVITE_EXPIRY_MINUTES" 1440 5 10080 (omega arith),
    env_int-bounds "EMAIL_RESET_EXPIRY_MINUTES" 30 5 1440 (omega arith),
  )
