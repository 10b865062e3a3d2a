-- ===== src/Deployment/Policy.antt =====
-- services/deployment/policy.py, repositories/deployment_policy.py and the request of
-- schemas/deployment_access.py. The row of the policy is the state: no row, or a row with its value.
use triton_control.Prelude.{
  size, ℕ, String, Bool, true, false, not, ◌&&◌, ◌||◌, Option, none, some, all, beq, leb, normal,
  rstrip_by, before, has_char, split, or_empty, truthy, is_on, ◌^^◌, ◌==◌, if◌then◌else◌,
}
use Prim.Native.Char.{code}
use Prim.Native.String.{[], ◌∷◌}
use triton_control.Errors.{
  AppError, Result, ok, err, bad_request_error, forbidden_error, reject_if, ◌>>=◌, ◌>>◌,
}
use triton_control.Env.{Env, getenv_or}
use triton_control.Access.{Claims, is_admin}

pub record DeploymentAccessRequest : Type 0 where
  pub access_mode : Option String
  pub ingress_host : Option String
  pub ingress_scheme : Option String
  pub basic_auth_enabled : Bool
  pub basic_auth_username : Option String
  pub basic_auth_password : Option String

pub record DeploymentPolicyResponse : Type 0 where
  pub ingress_is_enabled : Bool
  pub domain : String
  pub allow_http : Bool
  pub default_allow_http : Bool
  pub source : String

abbrev is_alphanumeric : ℕ → Bool
is_alphanumeric n = (leb 48 n && leb n 57) || (leb 97 n && leb n 122)

-- each character may stand in a label, and the last one is alphanumeric
unfoldable pub is_label_rest : String → Bool
is_label_rest [] = true
is_label_rest (c ∷ s) =
    let rest = is_label_rest s in
    (is_alphanumeric (code c) || (beq (code c) 45 && not (s == ""))) && rest

-- [a-z0-9](?:[a-z0-9-]{0,61}[a-z0-9])?
unfoldable pub is_label : String → Bool
unfolding is_label_rest size
is_label [] = false
is_label (c ∷ s) = is_alphanumeric (code c) && is_label_rest s && leb (size s) 62

-- the test of `validate_dns_name` and of `base_domain` on a text that is not empty
unfoldable pub is_dns_name : String → Bool
unfolding is_label size
is_dns_name s = leb (size s) 253 && all is_label (split b'.' s)

-- `validate_dns_name`
unfoldable pub validate_dns_name : Option String → Result (Option String)
validate_dns_name value =
    let name = rstrip_by (beq b'.') (normal (or_empty value)) in
    if name == ""
    then ok none
    else (if is_dns_name name
        then ok (some name)
        else err (bad_request_error "Enter a hostname only, without a protocol, port or path"))

-- (scheme or "https")
abbrev pub scheme_of : Option String → String
scheme_of s = if truthy s then or_empty s else "https"

-- mode = self.access_mode or ("ingress" if self.ingress_host else "internal")
abbrev pub mode_of : DeploymentAccessRequest → String
mode_of r =
    if truthy r.access_mode
    then or_empty r.access_mode
    else (if truthy r.ingress_host then "ingress" else "internal")

abbrev invalid : String → AppError
invalid = bad_request_error

-- `validate_access`; the check of the mode comes first
unfoldable pub validate_mode : DeploymentAccessRequest → Result (Unit {0})
validate_mode r =
    if mode_of r == "internal"
    then reject_if
        (truthy r.ingress_host
          || r.basic_auth_enabled
          || truthy r.basic_auth_password
          || truthy r.basic_auth_username)
        (invalid "Internal access cannot include an Ingress host or basic authentication")
    else reject_if (not (truthy r.ingress_host)) (invalid "Ingress access requires a hostname")

abbrev same : Bool → Bool → Bool
same a b = (a && b) || (not a && not b)

unfoldable pub validate_access : DeploymentAccessRequest → Result DeploymentAccessRequest
unfolding validate_mode
validate_access r = do
  validate_mode r
  reject_if (r.basic_auth_enabled && not (scheme_of r.ingress_scheme == "https"))
      (invalid "Basic authentication requires HTTPS")
  reject_if
      (not r.basic_auth_enabled && (truthy r.basic_auth_password || truthy r.basic_auth_username))
      (invalid "Enable basic authentication before supplying credentials")
  reject_if (not (same (truthy r.basic_auth_password) (truthy r.basic_auth_username)))
      (invalid "Provide both username and password, or omit both to keep existing credentials")
  ok r

-- `short_hostname`
unfoldable pub short_hostname : Option String → Option String
short_hostname none = none
short_hostname (some host) = if host == "" then some host else some (before b'.' host)

-- the row of the policy; a value of `None` stands for the default
abbrev pub PolicyRow : Type 0
PolicyRow = Option (Option Bool)

unfoldable pub get_override : PolicyRow → Option Bool
get_override none = none
get_override (some v) = v

unfoldable pub save_override : PolicyRow → Option Bool → PolicyRow
save_override row value = some value

module _ ⦃env : Env⦄ where
  unfoldable pub base_domain : Result String
  base_domain =
      let value = rstrip_by (beq b'.') (normal (getenv_or "TRITON_DEPLOY_BASE_DOMAIN" "")) in
      if not (value == "") && not (is_dns_name value)
      then err (
          bad_request_error
            "Administrator deployment base domain is invalid; configure a domain without wildcard or URL")
      else ok value

  -- the host of a new name, in the domain of the administrator
  unfoldable pub with_domain :
      DeploymentAccessRequest → (host domain : String) → Result DeploymentAccessRequest
  with_domain request host domain =
      if domain == ""
      then ok request
      else (if leb (size (host ^^ "." ^^ domain)) 253
          then ok (record request { ingress_host = some (host ^^ "." ^^ domain) })
          else err (bad_request_error "Hostname plus base domain exceeds 253 characters"))

  -- existing_host and host == short_hostname(existing_host)
  abbrev pub keeps_host : Option String → String → Bool
  keeps_host existing host = truthy existing && before b'.' (or_empty existing) == host

  unfoldable pub resolve_hostname :
      DeploymentAccessRequest → (existing_host : Option String) → Result DeploymentAccessRequest
  unfolding base_domain with_domain
  resolve_hostname request existing =
      let host = or_empty request.ingress_host in
      if host == ""
      then ok request
      else (if has_char b'.' host
          then err (
              bad_request_error
                "Enter a short hostname only, without a domain, protocol, port or path")
          else (if keeps_host existing host
              then ok (record request { ingress_host = existing })
              else (base_domain >>= with_domain request host)))

  unfoldable pub ingress_enabled : Bool
  ingress_enabled = is_on (getenv_or "TRITON_DEPLOY_INGRESS_ENABLED" "true")

  unfoldable pub validate_ingress : DeploymentAccessRequest → Result (Unit {0})
  unfolding ingress_enabled
  validate_ingress request =
      reject_if (truthy request.ingress_host && not ingress_enabled) (
        bad_request_error
          "Model Ingress is disabled by the administrator. Use cluster-only access.")

  abbrev pub default_http : Bool
  default_http = is_on (getenv_or "TRITON_DEPLOY_ALLOW_HTTP" "false")

  abbrev pub policy_of : Option Bool → String → DeploymentPolicyResponse
  policy_of none domain = record {
    ingress_is_enabled = ingress_enabled;
    domain = domain;
    allow_http = default_http;
    default_allow_http = default_http;
    source = "environment";
  }
  policy_of (some v) domain = record {
    ingress_is_enabled = ingress_enabled;
    domain = domain;
    allow_http = v;
    default_allow_http = default_http;
    source = "admin";
  }

  unfoldable pub get_policy : PolicyRow → Result DeploymentPolicyResponse
  unfolding get_override base_domain
  get_policy row = base_domain >>= λ d. ok (policy_of (get_override row) d)

  -- the answer, and the row that is left
  unfoldable pub update_policy :
      Option Bool → Claims → PolicyRow → Result DeploymentPolicyResponse × PolicyRow
  unfolding save_override get_policy
  update_policy allow_http claims row =
      if is_admin claims
      then (get_policy (save_override row allow_http), save_override row allow_http)
      else (err (forbidden_error "Admin role required"), row)

  unfoldable pub validate_endpoint_policy :
      DeploymentAccessRequest
      → PolicyRow
      → (existing_host existing_scheme : Option String) → Result (Unit {0})
  unfolding validate_ingress get_policy
  validate_endpoint_policy request row existing_host existing_scheme = do
    validate_ingress request
    if not (truthy request.ingress_host)
          || not (scheme_of request.ingress_scheme == "http")
          || (or_empty existing_scheme == "http"
              && truthy existing_host
              && or_empty existing_host == or_empty request.ingress_host)
        then ok tt
        else (do
          policy ← get_policy row
          reject_if (not policy.allow_http)
              (bad_request_error "HTTP endpoints are disabled by the administrator. Use HTTPS."))
