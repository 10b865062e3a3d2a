-- ===== src/Tests/Passwords.antt =====
-- Passwords, the limit of recovery and the configured expiry at concrete inputs.
use triton_control.Prelude.{ℕ, ◌≡◌, ◌≤◌, refl, String, true, List, [], ◌∷◌, has_char, ◌==◌}
use triton_control.Prelude.Int.{int}
use triton_control.Errors.{ok}
use triton_control.Auth.Settings.{env_entity}
use triton_control.Auth.Limits.{env_entity-bounds}
use triton_control.Auth.Password.{verify_password, encode_hash}
use triton_control.Auth.Password.Hashes.{verify_password-encode_hash}
use triton_control.Auth.Lifecycle.Core.{hour_of}
use triton_control.Auth.Lifecycle.Recovery.{rate_limit}
use triton_control.Auth.Lifecycle.RateLimit.{passed, passed-Bounded, AllIn}
use triton_control.Tests.{test_env, world}

verify_password-encode_hash_example :
    verify_password "secret" (encode_hash "secret" "c2FsdA==") ≡ ("secret" == "secret")
unfolding has_char
verify_password-encode_hash_example =
    verify_password-encode_hash "secret" "secret" "c2FsdA==" refl refl

env_entity-bounds_example :
    ((5 ≤ env_entity.invite_expiry_minutes) × (env_entity.invite_expiry_minutes ≤ 10080))
    × ((5 ≤ env_entity.reset_expiry_minutes) × (env_entity.reset_expiry_minutes ≤ 1440))
env_entity-bounds_example = env_entity-bounds

abbrev requests : List (String × ℕ)
requests = ("127.0.0.1", 20) ∷ ("127.0.0.2", 30) ∷ []

five : rate_limit ≡ ok 5
unfolding rate_limit int
five = refl

one_hour : AllIn (hour_of 10) requests
one_hour = (refl, (refl, tt))

passed-Bounded_example : passed "ada@example.com" requests (world true) ≤ 5
passed-Bounded_example =
    passed-Bounded "ada@example.com" (hour_of 10) 5 requests (world true) five one_hour
