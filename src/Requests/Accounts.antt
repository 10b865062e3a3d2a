-- ===== src/Requests/Accounts.antt =====
-- A property of the token table that four kinds of writes keep is kept by every request, in any
-- order: the operations on accounts.
use triton_control.Prelude.{ℕ, refl, String, Bool, true, Option, List, arith}
use triton_control.Env.{Env}
use triton_control.Store.Data.{World, UserEntity, SessionUser}
use triton_control.Store.Users
use triton_control.Store.Tokens
use triton_control.Store.Tokens.{is_open}
use triton_control.Store.Session.{modify}
use triton_control.Store.Keeps.{Keeps, Keeps-bind, Keeps-modify, keeps_rules}
use triton_control.Access.{Claims}
use triton_control.Identity
use triton_control.UserAdmin
use triton_control.RequestAuth
use triton_control.Auth.LocalAuth
use triton_control.Auth.LocalAuth.{LoginRequest, RegisterRequest, CreateUserRequest}
use triton_control.Requests.Stable.{
  IsStable, save-Keeps, create-Keeps, hash_password-Keeps, validate_password-Keeps,
  require_admin-Keeps, get_runtime_config-Keeps,
}
use triton_control.Requests.Operations.{
  find_by_id-Keeps, find_by_email-Keeps, ensure_local_auth_allowed-Keeps,
}

module _ ⦃env : Env⦄ {P : World → Type 0} (stable : IsStable P) where
  quiet-Keeps : (o : Option SessionUser) → Keeps P (modify (λ w. record w { session_user = o }))
  quiet-Keeps o = Keeps-modify _ λ w h.
      stable.silent w _ (record { tokens = refl; next_token_id = refl; drawn = omega arith }) h

  count-Keeps : Keeps P Users.count
  unfolding Users.count
  count-Keeps = search keeps_rules

  is_oidc_enabled-Keeps : Keeps P LocalAuth.is_oidc_enabled
  unfolding LocalAuth.is_oidc_enabled
  is_oidc_enabled-Keeps = search keeps_rules

  bootstrap_login-Keeps : (r : LoginRequest) → Keeps P (LocalAuth.bootstrap_login r)
  unfolding LocalAuth.bootstrap_login
  bootstrap_login-Keeps r = Keeps-bind _ _ is_oidc_enabled-Keeps λ oidc.
      Keeps-bind _ _ count-Keeps λ n.
        search
          (
            keeps_rules,
            validate_password-Keeps stable,
            hash_password-Keeps stable,
            create-Keeps stable,
          )
          depth 10

  admit-Keeps : (r : LoginRequest) (u : UserEntity) → Keeps P (LocalAuth.admit r u)
  unfolding LocalAuth.admit
  admit-Keeps r u = search keeps_rules depth 10

  issue_access_token-Keeps : (u : UserEntity) (m : ℕ) → Keeps P (LocalAuth.issue_access_token u m)
  unfolding LocalAuth.issue_access_token
  issue_access_token-Keeps u m = search keeps_rules

  pub login-Keeps : (r : LoginRequest) → Keeps P (LocalAuth.login r)
  unfolding LocalAuth.login
  login-Keeps r = Keeps-bind _ _ (ensure_local_auth_allowed-Keeps stable) λ _.
      Keeps-bind _ _ (bootstrap_login-Keeps r) λ _.
        Keeps-bind _ _ (find_by_email-Keeps stable r.email)
          λ found. search (keeps_rules, admit-Keeps, issue_access_token-Keeps) depth 8

  register_existing-Keeps :
      (r : RegisterRequest) (u : UserEntity) → Keeps P (LocalAuth.register_existing r u)
  unfolding LocalAuth.register_existing
  register_existing-Keeps r u = Keeps-bind _ _ (search keeps_rules) λ _.
      Keeps-bind _ _ (get_runtime_config-Keeps stable) λ config.
        Keeps-bind _ _ (search keeps_rules)
          λ _. Keeps-bind _ _ (hash_password-Keeps stable r.password) λ hash. save-Keeps stable _

  pub self_register-Keeps : (r : RegisterRequest) → Keeps P (LocalAuth.self_register r)
  unfolding LocalAuth.self_register
  self_register-Keeps r = Keeps-bind _ _ (ensure_local_auth_allowed-Keeps stable) λ _.
      Keeps-bind _ _ (find_by_email-Keeps stable r.email) λ found.
        search
          (keeps_rules, hash_password-Keeps stable, create-Keeps stable, register_existing-Keeps)
          depth 8

  pub bootstrap_register-Keeps : (r : RegisterRequest) → Keeps P (LocalAuth.bootstrap_register r)
  unfolding LocalAuth.bootstrap_register
  bootstrap_register-Keeps r = Keeps-bind _ _ is_oidc_enabled-Keeps λ oidc.
      Keeps-bind _ _ (search keeps_rules) λ _.
        Keeps-bind _ _ count-Keeps
          λ n. search (keeps_rules, hash_password-Keeps stable, create-Keeps stable) depth 8

  pub register_user-Keeps :
      (r : CreateUserRequest) (claims : Claims) → Keeps P (LocalAuth.register_user r claims)
  unfolding LocalAuth.register_user
  register_user-Keeps r claims = Keeps-bind _ _ (require_admin-Keeps stable claims) λ _.
      Keeps-bind _ _ is_oidc_enabled-Keeps λ oidc. Keeps-bind _ _ (search keeps_rules) λ _.
        Keeps-bind _ _ (search keeps_rules) λ _.
          Keeps-bind _ _ (find_by_email-Keeps stable r.email)
            λ found. search (keeps_rules, create-Keeps stable)

  get_user_or_404-Keeps : (i : ℕ) → Keeps P (UserAdmin.get_user_or_404 i)
  unfolding UserAdmin.get_user_or_404
  get_user_or_404-Keeps i = search (keeps_rules, find_by_id-Keeps stable)

  pub list_users-Keeps : (claims : Claims) → Keeps P (UserAdmin.list_users claims)
  unfolding UserAdmin.list_users Tokens.list_user_ids_with_pending_invitations Users.list_all
  list_users-Keeps claims =
      Keeps-bind _ _ (require_admin-Keeps stable claims) λ _. search keeps_rules

  pub delete_user-Keeps : (claims : Claims) (i : ℕ) → Keeps P (UserAdmin.delete_user claims i)
  unfolding UserAdmin.delete_user
  delete_user-Keeps claims i =
      Keeps-bind _ _ (require_admin-Keeps stable claims)
        λ _. Keeps-bind _ _ (get_user_or_404-Keeps i) stable.deletes

  pub update_user_instances-Keeps :
      (claims : Claims) (i : ℕ) (names : List String)
      → Keeps P (UserAdmin.update_user_instances claims i names)
  unfolding UserAdmin.update_user_instances
  update_user_instances-Keeps claims i names =
      Keeps-bind _ _ (require_admin-Keeps stable claims)
        λ _. search (keeps_rules, get_user_or_404-Keeps, save-Keeps stable)

  pub update_user_role-Keeps :
      (claims : Claims) (i : ℕ) (role : String) → Keeps P (UserAdmin.update_user_role claims i role)
  unfolding UserAdmin.update_user_role
  update_user_role-Keeps claims i role =
      Keeps-bind _ _ (require_admin-Keeps stable claims)
        λ _. search (keeps_rules, get_user_or_404-Keeps, save-Keeps stable)

  lookup_user-Keeps : (p s e : String) → Keeps P (Identity.lookup_user p s e)
  unfolding Identity.lookup_user Users.find_by_oidc_subject
  lookup_user-Keeps p s e = search (keeps_rules, find_by_email-Keeps stable) depth 8

  link_subject-Keeps : (p s : String) (u : UserEntity) → Keeps P (Identity.link_subject p s u)
  unfolding Identity.link_subject
  link_subject-Keeps p s u = search (keeps_rules, save-Keeps stable)

  create_oidc_user-Keeps : (s e n : String) → Keeps P (Identity.create_oidc_user s e n)
  unfolding Identity.create_oidc_user Identity.should_bootstrap_oidc_admin Users.has_any_admin
  create_oidc_user-Keeps s e n = search (keeps_rules, create-Keeps stable) depth 8

  resolve_user-Keeps : (claims : Claims) (auto : Bool) → Keeps P (Identity.resolve_user claims auto)
  unfolding Identity.resolve_user
  resolve_user-Keeps claims auto =
      Keeps-bind _ _ (lookup_user-Keeps _ _ _)
        λ found. search (keeps_rules, create_oidc_user-Keeps, link_subject-Keeps) depth 8

  check_version-Keeps : (c : Claims) (u : UserEntity) → Keeps P (RequestAuth.check_version c u)
  unfolding RequestAuth.check_version
  check_version-Keeps c u = search (keeps_rules, quiet-Keeps) depth 8

  sync_cookie-Keeps :
      (b : Bool) (c d : Claims) (u : UserEntity) → Keeps P (RequestAuth.sync_cookie b c d u)
  unfolding RequestAuth.sync_cookie
  sync_cookie-Keeps b c d u = search (keeps_rules, quiet-Keeps) depth 8

  pub get_claims-Keeps :
      (path method : String) (b pending : Bool) (c : Claims)
      → Keeps P (RequestAuth.get_claims path method b pending c)
  unfolding RequestAuth.get_claims RequestAuth.resolve_access_claims
  get_claims-Keeps path method b pending c = Keeps-bind _ _ (search keeps_rules) λ _.
      Keeps-bind _ _ (resolve_user-Keeps c true) λ found.
        Keeps-bind _ _ (search keeps_rules)
          λ user. search (keeps_rules, check_version-Keeps, sync_cookie-Keeps) depth 8
