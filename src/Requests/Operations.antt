-- ===== src/Requests/Operations.antt =====
-- A property of the token table that four kinds of writes keep is kept by every request, in any
-- order: one rule for each operation.
use triton_control.Prelude.{ℕ, refl, String, Option, none, some}
use triton_control.Env.{Env}
use triton_control.Store.Data.{World, UserEntity, AccountLifecycleTokenEntity, EmailConfigEntity}
use triton_control.Store.Users
use triton_control.Store.Tokens
use triton_control.Store.Tokens.{is_open}
use triton_control.Store.Keeps.{Keeps, Keeps-bind, keeps_rules}
use triton_control.Access.{Claims}
use triton_control.Auth.Delivery.{RenderedMessage}
use triton_control.Auth.LocalAuth
use triton_control.Auth.LocalAuth.{LoginRequest, RegisterRequest, CreateUserRequest}
use triton_control.Auth.Lifecycle.Core
use triton_control.Auth.Lifecycle.Core.{InviteUserRequest, CompleteLifecycleRequest}
use triton_control.Auth.Lifecycle.Issue
use triton_control.Auth.Lifecycle.Recovery
use triton_control.Auth.Lifecycle.Redeem
use triton_control.Requests.Stable.{
  IsStable, audit-Keeps, save-Keeps, create-Keeps, hash_password-Keeps, validate_password-Keeps,
  require_admin-Keeps, increment_rate_bucket-Keeps, get_runtime_config-Keeps,
  record_delivery_status-Keeps, send_smtp-Keeps, revoke-Keeps,
}

module _ ⦃env : Env⦄ {P : World → Type 0} (stable : IsStable P) where
  pub find_by_id-Keeps : (i : ℕ) → Keeps P (Users.find_by_id i)
  unfolding Users.find_by_id
  find_by_id-Keeps i = search keeps_rules

  pub find_by_email-Keeps : (e : String) → Keeps P (Users.find_by_email e)
  unfolding Users.find_by_email
  find_by_email-Keeps e = search keeps_rules

  actor-Keeps : (claims : Claims) → Keeps P (Core.actor claims)
  unfolding Core.actor
  actor-Keeps claims = search (keeps_rules, find_by_email-Keeps)

  check_token-Keeps :
      (p : String) (e : AccountLifecycleTokenEntity) → Keeps P (Core.check_token p e)
  unfolding Core.check_token Core.audit_expired
  check_token-Keeps p e = search (keeps_rules, find_by_id-Keeps, audit-Keeps stable) depth 8

  valid_token-Keeps : (raw p : String) → Keeps P (Core.valid_token raw p)
  unfolding Core.valid_token Tokens.find_token_by_hash
  valid_token-Keeps raw p = search (keeps_rules, check_token-Keeps)

  issue-Keeps :
      (u : UserEntity) (p : String) (m : ℕ) (by : Option ℕ) → Keeps P (Core.issue u p m by)
  unfolding Core.issue
  issue-Keeps u p m by =
      Keeps-bind _ _ (revoke-Keeps stable u.id (some p)) λ _. stable.creates u.id p m by

  send_recorded-Keeps :
      (c : EmailConfigEntity) (u : UserEntity) (p : String) (m : RenderedMessage)
      → Keeps P (Issue.send_recorded c u p m)
  unfolding Issue.send_recorded
  send_recorded-Keeps c u p m =
      search
        (
          keeps_rules,
          send_smtp-Keeps stable,
          record_delivery_status-Keeps stable,
          audit-Keeps stable,
        )
        depth 8

  deliver-Keeps :
      (u : UserEntity) (raw : String) (e : AccountLifecycleTokenEntity) (p : String)
      → Keeps P (Issue.deliver u raw e p)
  unfolding Issue.deliver
  deliver-Keeps u raw e p = Keeps-bind _ _ (get_runtime_config-Keeps stable) λ config.
      Keeps-bind _ _ (search keeps_rules)
        λ _. search (keeps_rules, audit-Keeps stable, send_recorded-Keeps) depth 10

  issue_and_deliver-Keeps :
      (u : UserEntity) (p : String) (m : ℕ) (by : Option ℕ)
      → Keeps P (Issue.issue_and_deliver u p m by)
  unfolding Issue.issue_and_deliver
  issue_and_deliver-Keeps u p m by = search (keeps_rules, issue-Keeps, deliver-Keeps)

  pub ensure_local_auth_allowed-Keeps : Keeps P LocalAuth.ensure_local_auth_allowed
  unfolding LocalAuth.ensure_local_auth_allowed
  ensure_local_auth_allowed-Keeps = search keeps_rules

  pub invite_user-Keeps :
      (r : InviteUserRequest) (claims : Claims) → Keeps P (Issue.invite_user r claims)
  unfolding Issue.invite_user
  invite_user-Keeps r claims = Keeps-bind _ _ (require_admin-Keeps stable claims) λ _.
      Keeps-bind _ _ ensure_local_auth_allowed-Keeps λ _.
        Keeps-bind _ _ (find_by_email-Keeps r.email) λ existing.
          Keeps-bind _ _ (search keeps_rules) λ _. Keeps-bind _ _ (search keeps_rules) λ _.
            Keeps-bind _ _ (get_runtime_config-Keeps stable) λ config.
              Keeps-bind _ _ (search keeps_rules) λ _. Keeps-bind _ _ (actor-Keeps claims) λ by.
                search
                  (keeps_rules, create-Keeps stable, issue_and_deliver-Keeps, audit-Keeps stable)
                  depth 8

  pub reissue_invitation-Keeps :
      (i : ℕ) (claims : Claims) → Keeps P (Issue.reissue_invitation i claims)
  unfolding Issue.reissue_invitation
  reissue_invitation-Keeps i claims = Keeps-bind _ _ (require_admin-Keeps stable claims) λ _.
      Keeps-bind _ _ ensure_local_auth_allowed-Keeps λ _.
        Keeps-bind _ _ (find_by_id-Keeps i) λ found. Keeps-bind _ _ (search keeps_rules) λ user.
          Keeps-bind _ _ (search keeps_rules) λ _.
            Keeps-bind _ _ (get_runtime_config-Keeps stable) λ config.
              Keeps-bind _ _ (actor-Keeps claims)
                λ by. search (keeps_rules, issue_and_deliver-Keeps, audit-Keeps stable) depth 8

  pub issue_admin_reset-Keeps :
      (i : ℕ) (claims : Claims) → Keeps P (Issue.issue_admin_reset i claims)
  unfolding Issue.issue_admin_reset
  issue_admin_reset-Keeps i claims = Keeps-bind _ _ (require_admin-Keeps stable claims) λ _.
      Keeps-bind _ _ (find_by_id-Keeps i) λ found. Keeps-bind _ _ (search keeps_rules) λ user.
        Keeps-bind _ _ (search keeps_rules) λ _. Keeps-bind _ _ (search keeps_rules) λ _.
          Keeps-bind _ _ (get_runtime_config-Keeps stable) λ config.
            Keeps-bind _ _ (search keeps_rules) λ _.
              Keeps-bind _ _ (actor-Keeps claims)
                λ by. search (keeps_rules, issue_and_deliver-Keeps, audit-Keeps stable) depth 8

  send_reset-Keeps : (u : UserEntity) (m : ℕ) → Keeps P (Recovery.send_reset u m)
  unfolding Recovery.send_reset
  send_reset-Keeps u m = search (keeps_rules, issue-Keeps, deliver-Keeps) depth 8

  reset_if_eligible-Keeps :
      (o : Option UserEntity) (m : ℕ) → Keeps P (Recovery.reset_if_eligible o m)
  unfolding Recovery.reset_if_eligible
  reset_if_eligible-Keeps none m = search keeps_rules
  reset_if_eligible-Keeps (some u) m = search (keeps_rules, send_reset-Keeps)

  rate_limited-Keeps : (e k : String) → Keeps P (Recovery.rate_limited e k)
  unfolding Recovery.rate_limited
  rate_limited-Keeps e k = search (keeps_rules, increment_rate_bucket-Keeps stable) depth 8

  pub forgot_password-Keeps : (e k : String) → Keeps P (Recovery.forgot_password e k)
  unfolding Recovery.forgot_password
  forgot_password-Keeps e k = Keeps-bind _ _ (get_runtime_config-Keeps stable) λ config.
      Keeps-bind _ _ (search keeps_rules) λ _. Keeps-bind _ _ (rate_limited-Keeps e k) λ throttled.
        search (keeps_rules, find_by_email-Keeps, reset_if_eligible-Keeps, audit-Keeps stable) depth
          10

  pub revoke_invitation-Keeps :
      (i : ℕ) (claims : Claims) → Keeps P (Redeem.revoke_invitation i claims)
  unfolding Redeem.revoke_invitation
  revoke_invitation-Keeps i claims =
      Keeps-bind _ _ (require_admin-Keeps stable claims)
        λ _. search (keeps_rules, find_by_id-Keeps, revoke-Keeps stable, audit-Keeps stable) depth 8

  pub inspect_token-Keeps : (raw p : String) → Keeps P (Redeem.inspect_token raw p)
  unfolding Redeem.inspect_token
  inspect_token-Keeps raw p = search (keeps_rules, valid_token-Keeps)

  -- A consumed row is closed, so it may be written.
  consume-Keeps : (e : AccountLifecycleTokenEntity) (u : UserEntity) → Keeps P (Redeem.consume e u)
  unfolding Redeem.consume
  consume-Keeps e u =
      Keeps-bind _ _ (search keeps_rules)
        λ now. Keeps-bind _ _ (stable.closes _ refl) λ _. revoke-Keeps stable u.id none

  activate_account-Keeps :
      (s : String) (e : AccountLifecycleTokenEntity) (u : UserEntity)
      → Keeps P (Redeem.activate_account s e u)
  unfolding Redeem.activate_account
  activate_account-Keeps s e u =
      search
        (
          keeps_rules,
          hash_password-Keeps stable,
          save-Keeps stable,
          consume-Keeps,
          audit-Keeps stable,
        )
        depth 10

  reset_account-Keeps :
      (s : String) (e : AccountLifecycleTokenEntity) (u : UserEntity)
      → Keeps P (Redeem.reset_account s e u)
  unfolding Redeem.reset_account
  reset_account-Keeps s e u =
      search
        (
          keeps_rules,
          hash_password-Keeps stable,
          save-Keeps stable,
          consume-Keeps,
          audit-Keeps stable,
        )
        depth 10

  pub activate_invitation-Keeps :
      (r : CompleteLifecycleRequest) → Keeps P (Redeem.activate_invitation r)
  unfolding Redeem.activate_invitation
  activate_invitation-Keeps r =
      search
        (keeps_rules, validate_password-Keeps stable, valid_token-Keeps, activate_account-Keeps)
        depth 8

  pub complete_password_reset-Keeps :
      (r : CompleteLifecycleRequest) → Keeps P (Redeem.complete_password_reset r)
  unfolding Redeem.complete_password_reset
  complete_password_reset-Keeps r =
      search (keeps_rules, validate_password-Keeps stable, valid_token-Keeps, reset_account-Keeps)
        depth 8
