-- ===== src/Auth/Lifecycle/Recovery.antt =====
-- Self-service password recovery of services/auth/account_lifecycle.py.
use triton_control.Prelude.{
  ℕ, ◌*◌, String, Bool, not, ◌&&◌, ◌||◌, Option, none, some, ltb, truthy, ◌^^◌, ◌==◌, if◌then◌else◌,
}
use triton_control.Prelude.Int.{ℤ, int, at_least}
use triton_control.Errors.{Result, ok, err, not_found_error, uncaught}
use triton_control.Env.{Env, getenv_or}
use triton_control.Store.Data.{UserEntity}
use triton_control.Store.Users
use triton_control.Store.Tokens
use triton_control.Store.Session.{Action, pure, lift, utcnow, raise_if, on_bad_request, ◌>>=◌, ◌>>◌}
use triton_control.Auth.Settings.{get_runtime_config}
use triton_control.Auth.Lifecycle.Core.{neutral_recovery_message, hour_of, audit, issue}
use triton_control.Auth.Lifecycle.Issue.{deliver}

pub record NeutralRecoveryResponse : Type 0 where
  pub message : String

abbrev pub neutral : NeutralRecoveryResponse
neutral = record { message = neutral_recovery_message }

-- the account may recover its password by itself
abbrev pub is_eligible : UserEntity → Bool
is_eligible user = user.auth_provider == "local" && user.is_active && truthy user.password_hash

-- max(1, int(raw)); `int` may raise
abbrev limit_of : Option ℤ → Result ℕ
limit_of none = err (uncaught "ValueError")
limit_of (some n) = ok (at_least 1 n)

module _ ⦃env : Env⦄ where
  unfoldable pub rate_limit : Result ℕ
  rate_limit = limit_of (int (getenv_or "EMAIL_RECOVERY_RATE_LIMIT" "5"))

  -- `_rate_limited`
  unfoldable pub rate_limited : (email client_key : String) → Action Bool
  rate_limited email client_key = do
    limit ← lift rate_limit
    now ← utcnow
    let window = hour_of now
    email_count ← Tokens.increment_rate_bucket ("email:" ^^ env.sha256 email) window
    client_count ← Tokens.increment_rate_bucket ("client:" ^^ env.sha256 client_key) window
    pure (ltb limit email_count || ltb (limit * 5) client_count)

  -- the branch of `forgot_password` on an eligible account
  unfoldable pub send_reset : UserEntity → ℕ → Action (Unit {0})
  send_reset user expires_minutes = do
    issued ← issue user "password_reset" expires_minutes none
    on_bad_request (do answer ← deliver user issued.0 issued.1 "password_reset"; pure tt)
        (λ e. pure tt)

  -- the look-up of `forgot_password`, and what it does for an eligible account
  unfoldable pub reset_if_eligible : Option UserEntity → ℕ → Action (Unit {0})
  reset_if_eligible none expires_minutes = pure tt
  reset_if_eligible (some user) expires_minutes =
      if is_eligible user then send_reset user expires_minutes else pure tt

  unfoldable pub forgot_password : (email client_key : String) → Action NeutralRecoveryResponse
  forgot_password email client_key = do
    config ← get_runtime_config
    raise_if (not (config.delivery_mode == "smtp") || config.smtp_host == "")
        (not_found_error "Self-service password recovery is unavailable")
    throttled ← rate_limited email client_key
    if throttled
        then (do audit "password_reset_requested" "throttled" "" "" "password_reset"; pure neutral)
        else (do
          user ← Users.find_by_email email
          reset_if_eligible user config.reset_expiry_minutes
          audit "password_reset_requested" "accepted" "" "" "password_reset"
          pure neutral)
