-- ===== src/Auth/LocalAuth.antt =====
-- services/auth/local_auth.py and bootstrap.py: local log-in, registration, and the first account.
use triton_control.Prelude.{
  ℕ, ◌+◌, ◌*◌, ◌/◌, String, Bool, true, false, not, ◌&&◌, ◌||◌, Option, none, some, List, [], beq,
  ltb, is_some, or_empty, or_none, truthy, strip, before, ◌==◌, if◌then◌else◌,
}
use triton_control.Prelude.Int.{pos, negsuc, int}
use triton_control.Errors.{bad_request_error, unauthorized_error, forbidden_error, conflict_error}
use triton_control.Env.{Env}
use triton_control.Store.Data.{UserEntity}
use triton_control.Store.Users
use triton_control.Store.Session.{Action, pure, gets, raise_if, require, maybe, utcnow, ◌>>=◌, ◌>>◌}
use triton_control.Access.{Claims, require_admin}
use triton_control.Identity.{is_pending_role}
use triton_control.Auth.Settings.{get_runtime_config}
use triton_control.Auth.Password.{validate_password, hash_password, verify_password}

pub record LoginRequest : Type 0 where
  pub email : String
  pub password : String

-- `SelfRegisterRequest` and `BootstrapRegisterRequest`
pub record RegisterRequest : Type 0 where
  pub email : String
  pub password : String
  pub name : Option String

pub record CreateUserRequest : Type 0 where
  pub email : String
  pub name : String
  pub role : String
  pub auth_provider : String
  pub oidc_subject : Option String
  pub assigned_instances : List String

-- The payload of the JWT that `issue_access_token` signs; times are in seconds.
pub record AccessToken : Type 0 where
  pub email : String
  pub name : String
  pub role : String
  pub auth_provider : String
  pub credential_version : ℕ
  pub iat : ℕ
  pub exp : ℕ

-- `oidc_enabled`
unfoldable pub is_oidc_enabled : Action Bool
is_oidc_enabled = gets λ w. w.oidc_enabled

unfoldable pub ensure_local_auth_allowed : Action (Unit {0})
unfolding is_oidc_enabled
ensure_local_auth_allowed = do
  raise_if (← is_oidc_enabled)
      (bad_request_error "Local email/password authentication is disabled while OIDC is enabled")

-- email.split("@", 1)[0] or default
abbrev local_part : String → String → String
local_part email default = let part = before b'@' email in if part == "" then default else part

module _ ⦃env : Env⦄ where
  -- `_parse_access_token_expiry_minutes`
  unfoldable pub access_token_expiry_minutes : ℕ
  access_token_expiry_minutes = elim (env.getenv "JWT_ACCESS_TOKEN_EXPIRES_MINUTES") [
    | none ↦ 60
    | some raw ↦ elim (int raw) [
      | none ↦ 60
      | some (negsuc n) ↦ 60
      | some (pos n) ↦ if beq n 0 then 60 else n
    ]
  ]

  unfoldable pub issue_access_token : UserEntity → ℕ → Action AccessToken
  issue_access_token user expires_minutes = do
    t ← utcnow
    let seconds = t / 1000000
    pure (record {
      email = user.email;
      name = user.name;
      role = user.role;
      auth_provider = user.auth_provider;
      credential_version = user.credential_version;
      iat = seconds;
      exp = seconds + expires_minutes * 60;
    })

  -- the first log-in into an empty database creates the administrator
  unfoldable pub bootstrap_login : LoginRequest → Action (Unit {0})
  bootstrap_login request = do
    oidc ← is_oidc_enabled
    n ← Users.count
    if not oidc && beq n 0
        then (do
          validate_password request.password
          hash ← hash_password request.password
          created ←
              Users.create request.email (local_part request.email "Admin") "Admin" "local"
                (some hash) none [] true
          pure tt)
        else pure tt

  -- the checks of `login` on the row that was found
  unfoldable pub admit : LoginRequest → UserEntity → Action (Unit {0})
  admit request user = do
    raise_if (not (user.auth_provider == "local"))
        (bad_request_error "Use OIDC login for this user")
    raise_if (not (truthy user.password_hash)) (forbidden_error "Account is not registered yet")
    raise_if (not (verify_password request.password (or_empty user.password_hash)))
        (unauthorized_error "Invalid credentials")
    raise_if (not user.is_active && not (is_pending_role (some user.role)))
        (forbidden_error "Account pending admin approval")

  unfoldable pub login : LoginRequest → Action (AccessToken × UserEntity)
  login request = do
    ensure_local_auth_allowed
    bootstrap_login request
    found ← Users.find_by_email request.email
    user ← require found (unauthorized_error "Invalid credentials")
    admit request user
    token ← issue_access_token user access_token_expiry_minutes
    pure (token, user)

  -- the branch of `self_register` on an account that exists
  unfoldable pub register_existing : RegisterRequest → UserEntity → Action UserEntity
  register_existing request existing = do
    raise_if (not (existing.auth_provider == "local"))
        (conflict_error "User is configured for OIDC login")
    config ← get_runtime_config
    raise_if (truthy existing.password_hash || not (config.delivery_mode == "disabled"))
        (conflict_error "User is already registered")
    hash ← hash_password request.password
    let requested_name = strip (or_empty request.name)
    Users.save (record existing {
      password_hash = some hash;
      name = if requested_name == "" then existing.name else requested_name;
      is_active = true;
      credential_version = existing.credential_version + 1;
    })

  abbrev given_name : RegisterRequest → String → String
  given_name request default =
      let given = strip (or_empty request.name) in
      if given == "" then local_part request.email default else given

  unfoldable pub self_register : RegisterRequest → Action UserEntity
  self_register request = do
    ensure_local_auth_allowed
    found ← Users.find_by_email request.email
    maybe found
        (do
          hash ← hash_password request.password
          Users.create request.email (given_name request "User") "viewer" "local" (some hash) none
              [] false)
        (λ existing. register_existing request existing)

  unfoldable pub bootstrap_register : RegisterRequest → Action UserEntity
  bootstrap_register request = do
    raise_if (← is_oidc_enabled) (bad_request_error "OIDC is enabled")
    n ← Users.count
    raise_if (ltb 0 n) (bad_request_error "Initial setup is already complete")
    hash ← hash_password request.password
    Users.create request.email (given_name request "Admin") "Admin" "local" (some hash) none [] true

unfoldable pub register_user : CreateUserRequest → Claims → Action UserEntity
register_user request claims = do
  require_admin claims
  oidc ← is_oidc_enabled
  raise_if (oidc && request.auth_provider == "local")
      (bad_request_error "Cannot create local users while OIDC is enabled")
  raise_if (request.auth_provider == "oidc" && not oidc) (bad_request_error "OIDC is disabled")
  found ← Users.find_by_email request.email
  raise_if (is_some found) (conflict_error "email already exists")
  Users.create request.email request.name request.role request.auth_provider none
      (or_none (strip (or_empty request.oidc_subject))) request.assigned_instances
      (request.auth_provider == "oidc")
