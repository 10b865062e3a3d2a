-- ===== src/Requests.antt =====
-- The requests that reach account management, in any order, and the passing of time between them.
pub mod Stable
pub mod Operations
pub mod Accounts
pub mod Reachable
pub mod Keyed
pub mod Outdated
pub mod Spent
pub mod ShutRows
pub mod SingleUse
use triton_control.Prelude.{ℕ, ◌+◌, String, Bool, List, [], ◌∷◌}
use triton_control.Env.{Env}
use triton_control.Store.Data.{World}
use triton_control.Store.Session.{Action}
use triton_control.Access.{Claims}
use triton_control.UserAdmin.{list_users, delete_user, update_user_instances, update_user_role}
use triton_control.RequestAuth.{get_claims}
use triton_control.Auth.LocalAuth.{
  LoginRequest, RegisterRequest, CreateUserRequest, login, self_register, bootstrap_register,
  register_user,
}
use triton_control.Auth.Lifecycle.Core.{InviteUserRequest, CompleteLifecycleRequest}
use triton_control.Auth.Lifecycle.Issue.{invite_user, reissue_invitation, issue_admin_reset}
use triton_control.Auth.Lifecycle.Recovery.{forgot_password}
use triton_control.Auth.Lifecycle.Redeem.{
  revoke_invitation, inspect_token, activate_invitation, complete_password_reset,
}

pub data Request : Type 0 where
  invites : InviteUserRequest → Claims → Request
  reissues revokes admin_resets : ℕ → Claims → Request
  inspects : (raw_token purpose : String) → Request
  activates completes : CompleteLifecycleRequest → Request
  forgets : (email client_key : String) → Request
  logs_in : LoginRequest → Request
  registers bootstraps : RegisterRequest → Request
  creates : CreateUserRequest → Claims → Request
  lists : Claims → Request
  deletes : Claims → ℕ → Request
  assigns : Claims → ℕ → List String → Request
  promotes : Claims → ℕ → String → Request
  calls : (path method : String) (bearer allow_pending : Bool) → Claims → Request
  waits : ℕ → Request

-- what a call leaves behind, whether it returned or raised
abbrev after : {A : Type 0} → Action A → World → World
after m w = (m w).1

module _ ⦃env : Env⦄ where
  pub step : Request → World → World
  step (invites request claims) = after (invite_user request claims)
  step (reissues i claims) = after (reissue_invitation i claims)
  step (revokes i claims) = after (revoke_invitation i claims)
  step (admin_resets i claims) = after (issue_admin_reset i claims)
  step (inspects raw purpose) = after (inspect_token raw purpose)
  step (activates request) = after (activate_invitation request)
  step (completes request) = after (complete_password_reset request)
  step (forgets email key) = after (forgot_password email key)
  step (logs_in request) = after (login request)
  step (registers request) = after (self_register request)
  step (bootstraps request) = after (bootstrap_register request)
  step (creates request claims) = after (register_user request claims)
  step (lists claims) = after (list_users claims)
  step (deletes claims i) = after (delete_user claims i)
  step (assigns claims i names) = after (update_user_instances claims i names)
  step (promotes claims i role) = after (update_user_role claims i role)
  step (calls path method bearer pending claims) =
      after (get_claims path method bearer pending claims)
  step (waits n) = λ w. record w { now = w.now + n }

  pub run : List Request → World → World
  run [] w = w
  run (r ∷ rs) w = run rs (step r w)
