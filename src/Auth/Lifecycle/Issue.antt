-- ===== src/Auth/Lifecycle/Issue.antt =====
-- The operations of services/auth/account_lifecycle.py that issue a token and deliver its link.
use triton_control.Prelude.{
  ℕ, String, true, false, not, ◌||◌, Option, none, some, [], ◌∷◌, is_some, or_empty, one_of, strip,
  normal, ◌==◌, if◌then◌else◌,
}
use triton_control.Prelude.Int.{decimal}
use triton_control.Errors.{bad_request_error, conflict_error, not_found_error}
use triton_control.Env.{Env}
use triton_control.Store.Data.{UserEntity, AccountLifecycleTokenEntity, EmailConfigEntity}
use triton_control.Store.Users
use triton_control.Store.Session.{
  Action, pure, raise, lift, raise_if, require, on_bad_request, ◌>>=◌, ◌>>◌,
}
use triton_control.Access.{Claims, require_admin}
use triton_control.Auth.Settings.{get_runtime_config, record_delivery_status}
use triton_control.Auth.Delivery.{RenderedMessage, render_message, send_smtp}
use triton_control.Auth.LocalAuth.{ensure_local_auth_allowed}
use triton_control.Auth.Lifecycle.Core.{
  InviteUserRequest, LifecycleIssueResponse, audit, actor, id_of, issue, link,
}

abbrev pub response : UserEntity → String → AccountLifecycleTokenEntity → LifecycleIssueResponse
response user mode entity = record {
  user_id = user.id;
  delivery_mode = mode;
  expires_at = entity.expires_at;
  delivered = false;
  manual_link = none;
}

module _ ⦃env : Env⦄ where
  -- the `try` of `_deliver`, and its handler
  unfoldable pub send_recorded :
      EmailConfigEntity → UserEntity → String → RenderedMessage → Action (Unit {0})
  send_recorded config user purpose message =
      on_bad_request
        (do
          send_smtp config user.email message
          record_delivery_status "accepted" "SMTP server accepted the message"
          audit "lifecycle_delivery" "accepted" user.email "" purpose)
        (λ e. do
          record_delivery_status "failed" "SMTP delivery failed"
          audit "lifecycle_delivery" "failed" user.email "" purpose
          raise e)

  -- `_deliver`
  unfoldable pub deliver :
      UserEntity → String → AccountLifecycleTokenEntity → String → Action LifecycleIssueResponse
  deliver user raw_token entity purpose = do
    config ← get_runtime_config
    raise_if (config.delivery_mode == "disabled")
        (bad_request_error "Account email lifecycle is disabled")
    let url = link config.public_app_url purpose raw_token
    if config.delivery_mode == "manual-link"
        then (do
          audit "lifecycle_delivery" "manual_link_issued" user.email "" purpose
          pure (record (response user "manual-link" entity) { manual_link = some url }))
        else (do
          let expiry =
              if purpose == "invite"
              then config.invite_expiry_minutes
              else config.reset_expiry_minutes
          message ← lift (render_message config purpose user.name url (decimal expiry))
          send_recorded config user purpose message
          pure (record (response user "smtp" entity) { delivered = true }))

  -- `_issue` and `_deliver`, as the operations chain them
  unfoldable pub issue_and_deliver :
      UserEntity → String → ℕ → Option ℕ → Action LifecycleIssueResponse
  issue_and_deliver user purpose expires_minutes created_by = do
    issued ← issue user purpose expires_minutes created_by
    deliver user issued.0 issued.1 purpose

  unfoldable pub invite_user : InviteUserRequest → Claims → Action LifecycleIssueResponse
  invite_user request claims = do
    require_admin claims
    ensure_local_auth_allowed
    existing ← Users.find_by_email request.email
    raise_if (is_some existing) (conflict_error "email already exists")
    let role = normal request.role
    raise_if (not (one_of role ("admin" ∷ "member" ∷ "viewer" ∷ [])))
        (bad_request_error "role must be admin, member, or viewer")
    config ← get_runtime_config
    raise_if (config.delivery_mode == "disabled")
        (bad_request_error "Account invitations are disabled")
    by ← actor claims
    user ←
        Users.create request.email (strip request.name) role "local" none none
          request.assigned_instances false
    answer ← issue_and_deliver user "invite" config.invite_expiry_minutes (id_of by)
    audit "invitation_issued" "success" user.email (or_empty claims.email) "invite"
    pure answer

  unfoldable pub reissue_invitation : ℕ → Claims → Action LifecycleIssueResponse
  reissue_invitation user_id claims = do
    require_admin claims
    ensure_local_auth_allowed
    found ← Users.find_by_id user_id
    user ← require found (not_found_error "User not found")
    raise_if (not (user.auth_provider == "local") || user.is_active)
        (bad_request_error "Only inactive local accounts can be invited")
    config ← get_runtime_config
    by ← actor claims
    answer ← issue_and_deliver user "invite" config.invite_expiry_minutes (id_of by)
    audit "invitation_reissued" "success" user.email (or_empty claims.email) "invite"
    pure answer

  unfoldable pub issue_admin_reset : ℕ → Claims → Action LifecycleIssueResponse
  issue_admin_reset user_id claims = do
    require_admin claims
    found ← Users.find_by_id user_id
    user ← require found (not_found_error "User not found")
    raise_if (not (user.auth_provider == "local"))
        (bad_request_error "Password recovery is managed by the OIDC provider")
    raise_if (not user.is_active)
        (bad_request_error "Only active local accounts can reset a password")
    config ← get_runtime_config
    raise_if (config.delivery_mode == "disabled")
        (bad_request_error "Password recovery is disabled")
    by ← actor claims
    answer ← issue_and_deliver user "password_reset" config.reset_expiry_minutes (id_of by)
    audit "password_reset_issued" "success" user.email (or_empty claims.email) "password_reset"
    pure answer
