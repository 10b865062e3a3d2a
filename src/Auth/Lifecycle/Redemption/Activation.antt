-- ===== src/Auth/Lifecycle/Redemption/Activation.antt =====
-- What `activate_invitation` does on every branch.
use triton_control.Auth.Lifecycle.Redemption.{
  renewed, eligible_for, redeemable, saved, accepted, activates, Redeemed,
}
use triton_control.Auth.Lifecycle.Redemption.Steps.{valid_token-eq, hash_password-eq, consume-eq}
use triton_control.Prelude.{
  ◌≡◌, refl, String, Bool, true, false, not, ◌&&◌, ◌||◌, Option, none, some, List, inl, inr,
  Bool-cases, ◌==◌, if◌then◌else◌,
}
use triton_control.Errors.{err}
use triton_control.Env.{Env}
use triton_control.Store.Data.{World, UserEntity, AccountLifecycleTokenEntity, SecurityEventEntity}
use triton_control.Store.Users
use triton_control.Store.Users.{has_id}
use triton_control.Store.Tokens
use triton_control.Store.Tokens.{has_hash, same_id, is_active_for}
use triton_control.Store.Session.{require, raise_if, continue_with, ◌>>=◌}
use triton_control.Auth.Password.{validate_password, encode_hash, is_accepted, bad_password}
use triton_control.Auth.Lifecycle.Core.{CompleteLifecycleRequest, audit, valid_token}
use triton_control.Auth.Lifecycle.Redeem.{invalid_invitation, activate_account, activate_invitation}
use triton_control.Auth.Lifecycle.Revocation.{DistinctIds}

module _ ⦃env : Env⦄ where
  activate_account-eq :
      (password : String) (e : AccountLifecycleTokenEntity) (u : UserEntity) (w : World)
      → DistinctIds w.tokens
      → activate_account password e u w ≡ (
          if not (u.auth_provider == "local") || u.is_active
          then (err invalid_invitation, w)
          else audit "invitation_consumed" "success" u.email "" "invite"
              (accepted true password e u w))
  unfolding activate_account ◌>>=◌ Users.save
  activate_account-eq password e u w d =
      elim (Bool-cases (not (u.auth_provider == "local") || u.is_active)) [
        | inl h ↦ rw h refl
        | inr h ↦
            rw (h, hash_password-eq password w, ◌>>=◌, continue_with) rw
              (
                consume-eq e (renewed true (encode_hash password (env.token_bytes w.drawn)) u)
                    (saved true password u w) d,
                ◌>>=◌,
                continue_with,
              )
      ]

  activate_choice :
      (local active : Bool) (password : String) (e : AccountLifecycleTokenEntity) (u : UserEntity)
      (events : List SecurityEventEntity) (w : World)
      → Redeemed
          (λ _. true)
          password
          w
          (if local && not active then some (e, u) else none)
          (if not local || active
            then (err invalid_invitation, record w { events = events })
            else audit "invitation_consumed" "success" u.email "" "invite"
                (accepted true password e u (record w { events = events })))
  unfolding audit Tokens.add_security_event ◌>>=◌
  activate_choice true true password e u events w = ((_, refl), refl, refl)
  activate_choice true false password e u events w = (refl, refl, refl)
  activate_choice false active password e u events w = ((_, refl), refl, refl)

  activate_found :
      (password : String) (o : Option _) (events : List SecurityEventEntity) (w : World)
      → DistinctIds w.tokens
      → Redeemed
          (λ _. true)
          password
          w
          (eligible_for (λ u. u.auth_provider == "local" && not u.is_active) o)
          (continue_with
            (λ pair. activate_account password pair.0 pair.1)
            (require o invalid_invitation (record w { events = events })))
  unfolding ◌>>=◌
  activate_found password none events w d = ((_, refl), refl, refl)
  activate_found password (some (e, u)) events w d =
      rw (activate_account-eq password e u (record w { events = events }) d)
        (activate_choice (u.auth_provider == "local") u.is_active password e u events w)

  activate_checked :
      (ok_password : Bool) (request : CompleteLifecycleRequest) (w : World)
      → DistinctIds w.tokens
      → Redeemed
          (λ _. true)
          request.password
          w
          (if ok_password
            then eligible_for
                (λ u. u.auth_provider == "local" && not u.is_active)
                (redeemable request.token "invite" w)
            else none)
          (continue_with
            (λ _. do
              found ← valid_token request.token "invite"
              pair ← require found invalid_invitation
              activate_account request.password pair.0 pair.1)
            (raise_if (not ok_password) bad_password w))
  unfolding ◌>>=◌
  activate_checked false request w d = ((_, refl), refl, refl)
  activate_checked true request w d =
      rw (valid_token-eq request.token "invite" w, ◌>>=◌, continue_with)
        (activate_found request.password (redeemable request.token "invite" w) _ w d)

  -- An activation is accepted exactly when the password passes the policy and the token redeems an
  -- open, unexpired invitation of an inactive local account; then the account is active with the
  -- hash of the password and the next credential version, the token is consumed and every other
  -- open token of the account is revoked. Otherwise it is a 400 error and no account and no token
  -- changes.
  pub activate_invitation-Redeemed :
      (request : CompleteLifecycleRequest) (w : World)
      → DistinctIds w.tokens
      → Redeemed
          (λ _. true)
          request.password
          w
          (activates request w)
          (activate_invitation request w)
  unfolding activate_invitation ◌>>=◌ validate_password
  activate_invitation-Redeemed request w d =
      activate_checked (is_accepted request.password) request w d
