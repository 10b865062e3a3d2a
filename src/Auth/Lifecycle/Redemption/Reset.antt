-- ===== src/Auth/Lifecycle/Redemption/Reset.antt =====
-- What `complete_password_reset` does on every branch.
use triton_control.Auth.Lifecycle.Redemption.{
  renewed, eligible_for, redeemable, saved, accepted, resets, Redeemed,
}
use triton_control.Auth.Lifecycle.Redemption.Steps.{valid_token-eq, hash_password-eq, consume-eq}
use triton_control.Prelude.{
  ◌≡◌, refl, String, Bool, true, false, not, ◌&&◌, ◌||◌, Option, none, some, List, inl, inr,
  Bool-cases, ◌==◌, if◌then◌else◌,
}
use triton_control.Errors.{err}
use triton_control.Env.{Env}
use triton_control.Store.Data.{World, UserEntity, AccountLifecycleTokenEntity, SecurityEventEntity}
use triton_control.Store.Users
use triton_control.Store.Users.{has_id}
use triton_control.Store.Tokens
use triton_control.Store.Tokens.{has_hash, same_id, is_active_for}
use triton_control.Store.Session.{require, raise_if, continue_with, ◌>>=◌}
use triton_control.Auth.Password.{validate_password, encode_hash, is_accepted, bad_password}
use triton_control.Auth.Lifecycle.Core.{CompleteLifecycleRequest, audit, valid_token}
use triton_control.Auth.Lifecycle.Redeem.{invalid_reset, reset_account, complete_password_reset}
use triton_control.Auth.Lifecycle.Revocation.{DistinctIds}

module _ ⦃env : Env⦄ where
  reset_account-eq :
      (password : String) (e : AccountLifecycleTokenEntity) (u : UserEntity) (w : World)
      → DistinctIds w.tokens
      → reset_account password e u w ≡ (
          if not (u.auth_provider == "local") || not u.is_active
          then (err invalid_reset, w)
          else audit "password_reset_consumed" "success" u.email "" "password_reset"
              (accepted u.is_active password e u w))
  unfolding reset_account ◌>>=◌ Users.save
  reset_account-eq password e u w d =
      elim (Bool-cases (not (u.auth_provider == "local") || not u.is_active)) [
        | inl h ↦ rw h refl
        | inr h ↦
            rw (h, hash_password-eq password w, ◌>>=◌, continue_with)
              (rw (
                consume-eq e
                    (renewed u.is_active (encode_hash password (env.token_bytes w.drawn)) u)
                    (saved u.is_active password u w) d,
                ◌>>=◌,
                continue_with,
              ))
      ]

  reset_choice :
      (local active : Bool) (password : String) (e : AccountLifecycleTokenEntity) (u : UserEntity)
      (events : List SecurityEventEntity) (w : World)
      → Redeemed
          (λ u. u.is_active)
          password
          w
          (if local && active then some (e, u) else none)
          (if not local || not active
            then (err invalid_reset, record w { events = events })
            else audit "password_reset_consumed" "success" u.email "" "password_reset"
                (accepted u.is_active password e u (record w { events = events })))
  unfolding audit Tokens.add_security_event ◌>>=◌
  reset_choice true true password e u events w = (refl, refl, refl)
  reset_choice true false password e u events w = ((_, refl), refl, refl)
  reset_choice false active password e u events w = ((_, refl), refl, refl)

  reset_found :
      (password : String) (o : Option _) (events : List SecurityEventEntity) (w : World)
      → DistinctIds w.tokens
      → Redeemed
          (λ u. u.is_active)
          password
          w
          (eligible_for (λ u. u.auth_provider == "local" && u.is_active) o)
          (continue_with
            (λ pair. reset_account password pair.0 pair.1)
            (require o invalid_reset (record w { events = events })))
  unfolding ◌>>=◌
  reset_found password none events w d = ((_, refl), refl, refl)
  reset_found password (some (e, u)) events w d =
      rw (reset_account-eq password e u (record w { events = events }) d)
        (reset_choice (u.auth_provider == "local") u.is_active password e u events w)

  reset_checked :
      (ok_password : Bool) (request : CompleteLifecycleRequest) (w : World)
      → DistinctIds w.tokens
      → Redeemed
          (λ u. u.is_active)
          request.password
          w
          (if ok_password
            then eligible_for
                (λ u. u.auth_provider == "local" && u.is_active)
                (redeemable request.token "password_reset" w)
            else none)
          (continue_with
            (λ _. do
              found ← valid_token request.token "password_reset"
              pair ← require found invalid_reset
              reset_account request.password pair.0 pair.1)
            (raise_if (not ok_password) bad_password w))
  unfolding ◌>>=◌
  reset_checked false request w d = ((_, refl), refl, refl)
  reset_checked true request w d =
      rw (valid_token-eq request.token "password_reset" w, ◌>>=◌, continue_with)
        (reset_found request.password (redeemable request.token "password_reset" w) _ w d)

  -- A password reset is accepted exactly when the password passes the policy and the token redeems
  -- an open, unexpired reset of an active local account; then the account has the hash of the
  -- password and the next credential version, the token is consumed and every other open token of
  -- the account is revoked. Otherwise it is a 400 error and no account and no token changes.
  pub complete_password_reset-Redeemed :
      (request : CompleteLifecycleRequest) (w : World)
      → DistinctIds w.tokens
      → Redeemed
          (λ u. u.is_active)
          request.password
          w
          (resets request w)
          (complete_password_reset request w)
  unfolding complete_password_reset ◌>>=◌ validate_password
  complete_password_reset-Redeemed request w d =
      reset_checked (is_accepted request.password) request w d
