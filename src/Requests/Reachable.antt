-- ===== src/Requests/Reachable.antt =====
-- What every request keeps holds after any requests.
use triton_control.Prelude.{refl, List, [], ◌∷◌, arith}
use triton_control.Env.{Env}
use triton_control.Store.Data.{World}
use triton_control.Requests.{
  Request, invites, reissues, revokes, admin_resets, inspects, activates, completes, forgets,
  logs_in, registers, bootstraps, creates, lists, deletes, assigns, promotes, calls, waits, step,
  run,
}
use triton_control.Requests.Stable.{IsStable}
use triton_control.Requests.Operations.{
  invite_user-Keeps, reissue_invitation-Keeps, revoke_invitation-Keeps, issue_admin_reset-Keeps,
  inspect_token-Keeps, activate_invitation-Keeps, complete_password_reset-Keeps,
  forgot_password-Keeps,
}
use triton_control.Requests.Accounts.{
  login-Keeps, self_register-Keeps, bootstrap_register-Keeps, register_user-Keeps, list_users-Keeps,
  delete_user-Keeps, update_user_instances-Keeps, update_user_role-Keeps, get_claims-Keeps,
}

module _ ⦃env : Env⦄ {P : World → Type 0} (stable : IsStable P) where
  step-keeps : (r : Request) (w : World) → P w → P (step r w)
  unfolding step
  step-keeps (invites r c) w h = (invite_user-Keeps stable r c).at w h
  step-keeps (reissues i c) w h = (reissue_invitation-Keeps stable i c).at w h
  step-keeps (revokes i c) w h = (revoke_invitation-Keeps stable i c).at w h
  step-keeps (admin_resets i c) w h = (issue_admin_reset-Keeps stable i c).at w h
  step-keeps (inspects raw p) w h = (inspect_token-Keeps stable raw p).at w h
  step-keeps (activates r) w h = (activate_invitation-Keeps stable r).at w h
  step-keeps (completes r) w h = (complete_password_reset-Keeps stable r).at w h
  step-keeps (forgets e k) w h = (forgot_password-Keeps stable e k).at w h
  step-keeps (logs_in r) w h = (login-Keeps stable r).at w h
  step-keeps (registers r) w h = (self_register-Keeps stable r).at w h
  step-keeps (bootstraps r) w h = (bootstrap_register-Keeps stable r).at w h
  step-keeps (creates r c) w h = (register_user-Keeps stable r c).at w h
  step-keeps (lists c) w h = (list_users-Keeps stable c).at w h
  step-keeps (deletes c i) w h = (delete_user-Keeps stable c i).at w h
  step-keeps (assigns c i names) w h = (update_user_instances-Keeps stable c i names).at w h
  step-keeps (promotes c i role) w h = (update_user_role-Keeps stable c i role).at w h
  step-keeps (calls path method b pending c) w h =
      (get_claims-Keeps stable path method b pending c).at w h
  step-keeps (waits n) w h =
      stable.silent w _ (record { tokens = refl; next_token_id = refl; drawn = omega arith }) h

  pub run-keeps : (rs : List Request) (w : World) → P w → P (run rs w)
  unfolding run
  run-keeps [] w h = h
  run-keeps (r ∷ rs) w h = run-keeps rs (step r w) (step-keeps r w h)
