-- ===== src/RequestAuth.antt =====
-- core/security.py: what an authenticated request may do. The claims have been read from a token
-- whose signature and expiry were verified, or from the session cookie.
use triton_control.Prelude.{
  ℕ, String, Bool, true, not, ◌&&◌, ◌||◌, none, some, [], ◌∷◌, beq, or_empty, one_of, truthy,
  normal, ◌==◌, if◌then◌else◌,
}
use triton_control.Errors.{AppError, unauthorized_error, forbidden_error}
use triton_control.Env.{Env}
use triton_control.Store.Data.{UserEntity}
use triton_control.Store.Session.{Action, pure, raise, modify, raise_if, require, ◌>>=◌, ◌>>◌}
use triton_control.Access.{Claims}
use triton_control.Identity.{resolve_user, claims_from_user}
use text.Mathlib.Text.{starts_with}

abbrev is_mlflow_path : String → Bool
is_mlflow_path path =
    path == "/api/deployments/mlflow" || starts_with path "/api/deployments/mlflow/"

-- the requests that a deployment token may make
unfoldable pub permitted : (path method : String) → Bool
permitted path method =
    (path == "/api/deployments" && method == "POST")
    || (path == "/api/deployments/policy" && method == "GET")
    || (path == "/api/s3-profiles/resolve" && method == "GET")
    || (is_mlflow_path path && (method == "GET" || method == "DELETE"))

unfoldable pub is_deployment_token : Claims → Bool
is_deployment_token claims =
    one_of (or_empty claims.token_use)
      ("mlflow_workflow" ∷ "workspace_deployment" ∷ "workflow_deployment" ∷ [])

-- int(source_claims.get("credential_version", 0))
abbrev pub claimed_version : Claims → ℕ
claimed_version claims = elim claims.credential_version [ none ↦ 0 | some v ↦ v ]

-- a local token whose version is not that of the account
unfoldable pub is_outdated : Claims → UserEntity → Bool
is_outdated source user =
    normal (or_empty source.auth_provider) == "local"
    && not (beq (claimed_version source) user.credential_version)

abbrev pub credentials_changed : AppError
credentials_changed = unauthorized_error "Local credentials have changed"

unfoldable pub check_version : Claims → UserEntity → Action (Unit {0})
check_version source user =
    if is_outdated source user
    then (do modify λ w. record w { session_user = none }; raise credentials_changed)
    else pure tt

abbrev pub is_allowed : Claims → Bool
is_allowed claims = elim claims.access_allowed [ none ↦ Bool.false | some b ↦ b ]

-- the cookie follows a fresh local log-in; writing what is there already changes nothing
unfoldable pub sync_cookie :
    (bearer : Bool) (source claims : Claims) → UserEntity → Action (Unit {0})
sync_cookie bearer source claims user =
    if bearer && or_empty claims.auth_provider == "local" && not (truthy source.token_use)
    then (modify λ w. record w {
      session_user = some (record {
        email = user.email;
        name = user.name;
        role = user.role;
        access_allowed = is_allowed claims;
        credential_version = user.credential_version;
      });
    })
    else pure tt

module _ ⦃env : Env⦄ where
  -- `_resolve_access_claims`; `bearer` says that the claims come from an Authorization header
  unfoldable pub resolve_access_claims : (bearer allow_pending : Bool) → Claims → Action Claims
  resolve_access_claims bearer allow_pending source = do
    found ← resolve_user source true
    user ← require found (unauthorized_error "User mapping not found")
    check_version source user
    let claims = claims_from_user user source
    raise_if (not allow_pending && not (is_allowed claims))
        (forbidden_error "Account pending admin approval")
    sync_cookie bearer source claims user
    pure claims

  -- `_get_claims_with_access_policy`
  unfoldable pub get_claims :
      (path method : String) (bearer allow_pending : Bool) → Claims → Action Claims
  get_claims path method bearer allow_pending source = do
    raise_if (is_deployment_token source && not (permitted path method))
        (forbidden_error "Deployment token cannot access this API")
    resolve_access_claims bearer allow_pending source
