-- ===== src/Auth/Lifecycle/Redeem.antt =====
-- What redeems or withdraws a token in services/auth/account_lifecycle.py.
use triton_control.Prelude.{ℕ, ◌+◌, String, true, false, not, ◌||◌, none, some, or_empty, ◌==◌}
use triton_control.Errors.{AppError, bad_request_error, not_found_error}
use triton_control.Env.{Env}
use triton_control.Store.Data.{UserEntity, AccountLifecycleTokenEntity}
use triton_control.Store.Users
use triton_control.Store.Tokens
use triton_control.Store.Session.{Action, pure, utcnow, raise_if, require, maybe, ◌>>=◌, ◌>>◌}
use triton_control.Access.{Claims, require_admin}
use triton_control.Auth.Password.{validate_password, hash_password}
use triton_control.Auth.Lifecycle.Core.{
  CompleteLifecycleRequest, TokenInspectionResponse, audit, revoke, valid_token,
}

abbrev pub invalid_invitation : AppError
invalid_invitation = bad_request_error "Invitation link is invalid or expired"

abbrev pub invalid_reset : AppError
invalid_reset = bad_request_error "Password reset link is invalid or expired"

unfoldable pub revoke_invitation : ℕ → Claims → Action (Unit {0})
revoke_invitation user_id claims = do
  require_admin claims
  found ← Users.find_by_id user_id
  user ← require found (not_found_error "User not found")
  revoke user_id (some "invite")
  audit "invitation_revoked" "success" user.email (or_empty claims.email) "invite"

-- The token is consumed, and every other open token of the account is revoked.
unfoldable pub consume : AccountLifecycleTokenEntity → UserEntity → Action (Unit {0})
consume entity user = do
  now ← utcnow
  Tokens.save_token (record entity { consumed_at = some now })
  revoke user.id none

module _ ⦃env : Env⦄ where
  unfoldable pub inspect_token : (raw_token purpose : String) → Action TokenInspectionResponse
  inspect_token raw_token purpose = do
    found ← valid_token raw_token purpose
    maybe found (pure (record { valid = false; purpose = none; email = none; expires_at = none }))
        (λ pair. pure (record {
          valid = true;
          purpose = some purpose;
          email = some (pair.1).email;
          expires_at = some (pair.0).expires_at;
        }))

  -- the part of `activate_invitation` behind `_valid_token`
  unfoldable pub activate_account :
      String → AccountLifecycleTokenEntity → UserEntity → Action (Unit {0})
  activate_account password entity user = do
    raise_if (not (user.auth_provider == "local") || user.is_active) invalid_invitation
    hash ← hash_password password
    saved ← Users.save (record user {
      password_hash = some hash;
      is_active = true;
      credential_version = user.credential_version + 1;
    })
    consume entity saved
    audit "invitation_consumed" "success" saved.email "" "invite"

  unfoldable pub activate_invitation : CompleteLifecycleRequest → Action (Unit {0})
  activate_invitation request = do
    validate_password request.password
    found ← valid_token request.token "invite"
    pair ← require found invalid_invitation
    activate_account request.password pair.0 pair.1

  -- the part of `complete_password_reset` behind `_valid_token`
  unfoldable pub reset_account :
      String → AccountLifecycleTokenEntity → UserEntity → Action (Unit {0})
  reset_account password entity user = do
    raise_if (not (user.auth_provider == "local") || not user.is_active) invalid_reset
    hash ← hash_password password
    saved ← Users.save (record user {
      password_hash = some hash;
      credential_version = user.credential_version + 1;
    })
    consume entity saved
    audit "password_reset_consumed" "success" saved.email "" "password_reset"

  unfoldable pub complete_password_reset : CompleteLifecycleRequest → Action (Unit {0})
  complete_password_reset request = do
    validate_password request.password
    found ← valid_token request.token "password_reset"
    pair ← require found invalid_reset
    reset_account request.password pair.0 pair.1
