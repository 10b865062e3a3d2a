-- ===== src/Deployment/Access/Reads.antt =====
-- services/deployment/access.py: the checks before a change and the answer to the user.
use triton_control.Prelude.{
  ℕ, String, Bool, true, false, not, ◌&&◌, ◌||◌, Option, none, some, List, [], ◌∷◌, any, beq,
  or_empty, truthy, ◌^^◌, ◌==◌, if◌then◌else◌,
}
use triton_control.Prelude.Dict.{Dict, lookup}
use triton_control.Errors.{
  Result, ok, err, bad_request_error, conflict_error, bad_gateway_error, uncaught, reject_if,
}
use triton_control.Env.{Env}
use triton_control.Access.{Claims}
use triton_control.Store.Data.{TritonInstanceEntity}
use triton_control.UserAdmin.{get_instance_or_404}
use triton_control.Deployment.Hostname.{validate_hostname_available}
use triton_control.Deployment.Policy.{DeploymentAccessRequest, short_hostname}
use triton_control.Deployment.Access.Manifests.{
  auth_secret_annotation, middleware_annotation, HttpPath, Rule, Tls, IngressManifest,
  ingress_class, tls_secret, is_https,
}
use triton_control.Deployment.Access.Api.{
  Failure, raised, api_exception, returned, Api, Step, done, fail, call, check, database,
  on_api_exception, translated, ◌>>=◌, ◌>>◌,
}

pub record DeploymentAccessResponse : Type 0 where
  pub hostname : Option String
  pub access_mode : String
  pub url : String
  pub internal_url : String
  pub ingress_host : Option String
  pub ingress_scheme : Option String
  pub ingress_class_name : Option String
  pub basic_auth_enabled : Bool
  pub tls_secret_name : Option String

abbrev auth_type_annotation : String
auth_type_annotation = "nginx.ingress.kubernetes.io/auth-type"

-- a name in an f-string
abbrev shown : Option String → String
shown none = "None"
shown (some s) = s

abbrev pub namespace_of : TritonInstanceEntity → String
namespace_of instance = or_empty instance.deployment_namespace

abbrev pub name_of : TritonInstanceEntity → String
name_of instance = or_empty instance.deployment_name

abbrev pub service_of : TritonInstanceEntity → String
service_of instance = or_empty instance.deployment_service_name

abbrev pub ingress_name : TritonInstanceEntity → String
ingress_name instance = name_of instance ^^ "-ingress"

-- the rule has no path, or one that leads elsewhere
abbrev is_foreign : String → Rule → Bool
is_foreign service rule = elim rule.paths [
  | [] ↦ true
  | path ∷ paths ↦
      any (λ (p : HttpPath). not (truthy p.service) || not (or_empty p.service == service))
        rule.paths
]

abbrev pub is_other_service : String → List Rule → Bool
is_other_service service [] = true
is_other_service service (rule ∷ rules) = any (is_foreign service) (rule ∷ rules)

-- the annotations of an Ingress that there may not be
abbrev pub annotations_of : Option IngressManifest → Dict
annotations_of none = []
annotations_of (some i) = i.annotations

-- the scheme and the Secret of a list `spec.tls`
abbrev scheme_from : List Tls → String
scheme_from [] = "http"
scheme_from (t ∷ ts) = "https"

abbrev first_tls_secret : List Tls → Option String
first_tls_secret [] = none
first_tls_secret (t ∷ ts) = t.secret_name

-- the annotations ask for basic authentication
unfoldable pub asks_for_password : Dict → Bool
unfolding lookup
asks_for_password annotations =
    (truthy (lookup auth_secret_annotation annotations)
      && truthy (lookup middleware_annotation annotations))
    || or_empty (lookup auth_type_annotation annotations) == "basic"

abbrev pub internal_of : TritonInstanceEntity → String
internal_of instance =
    "http://" ^^ service_of instance ^^ "." ^^ namespace_of instance ^^ ".svc.cluster.local:18000"

abbrev exposed : TritonInstanceEntity → IngressManifest → Option String → DeploymentAccessResponse
exposed instance ingress host = record {
  hostname = short_hostname host;
  access_mode = "ingress";
  url = scheme_from ingress.tls ^^ "://" ^^ shown host;
  internal_url = internal_of instance;
  ingress_host = host;
  ingress_scheme = some (scheme_from ingress.tls);
  ingress_class_name = ingress.ingress_class_name;
  basic_auth_enabled = asks_for_password ingress.annotations;
  tls_secret_name = first_tls_secret ingress.tls;
}

abbrev of_rules :
    TritonInstanceEntity → IngressManifest → List Rule → Result DeploymentAccessResponse
of_rules instance ingress [] = err (uncaught "IndexError")
of_rules instance ingress (rule ∷ rules) = ok (exposed instance ingress rule.host)

-- `_response`
unfoldable pub response :
    TritonInstanceEntity → Option IngressManifest → Result DeploymentAccessResponse
unfolding asks_for_password short_hostname
response instance none = ok (record {
  hostname = none;
  access_mode = "internal";
  url = internal_of instance;
  internal_url = internal_of instance;
  ingress_host = none;
  ingress_scheme = none;
  ingress_class_name = none;
  basic_auth_enabled = false;
  tls_secret_name = none;
})
response instance (some ingress) = of_rules instance ingress ingress.rules

abbrev gateway_failure : String → Failure → Failure
gateway_failure message (raised e) = raised e
gateway_failure message _ = raised (bad_gateway_error message)

module _ ⦃env : Env⦄ {C : Type 0} (api : Api C) where
  -- `_managed_instance`
  unfoldable pub managed_instance : Claims → ℕ → Step C TritonInstanceEntity
  managed_instance claims instance_id = do
    instance ← database (get_instance_or_404 instance_id claims)
    check (
        reject_if
          (not (
            instance.is_self_deployed
            && truthy instance.deployment_namespace
            && truthy instance.deployment_name
            && truthy instance.deployment_service_name))
          (bad_request_error "Instance is not a managed Kubernetes deployment"))
    done instance

  -- the Ingress, unless it is missing
  unfoldable pub find_ingress : TritonInstanceEntity → Step C (Option IngressManifest)
  find_ingress instance =
      on_api_exception
        (call (api.read_namespaced_ingress (namespace_of instance) (ingress_name instance)) >>= λ i.
          done (some i))
        (λ status. if beq status 404 then done none else fail (api_exception status))

  -- `_read_ingress`
  unfoldable pub read_ingress : TritonInstanceEntity → Step C (Option IngressManifest)
  unfolding find_ingress
  read_ingress instance = do
    found ← find_ingress instance
    check (
        reject_if
          (elim found [ none ↦ false | some i ↦ is_other_service (service_of instance) i.rules ])
          (conflict_error "Ingress name belongs to a different service"))
    done found

  unfoldable pub read_instance_access : TritonInstanceEntity → Step C DeploymentAccessResponse
  unfolding read_ingress response
  read_instance_access instance =
      translated (gateway_failure "Could not read deployment access from Kubernetes")
        (do call api.api_client; found ← read_ingress instance; check (response instance found))

  unfoldable pub get_access : Claims → ℕ → Step C DeploymentAccessResponse
  unfolding managed_instance read_instance_access
  get_access claims instance_id = managed_instance claims instance_id >>= read_instance_access

  unfoldable pub validate_tls_secret :
      DeploymentAccessRequest → (namespace : String) → Step C (Unit {0})
  validate_tls_secret request namespace =
      if tls_secret == "" || not (truthy request.ingress_host) || not (is_https request)
      then done tt
      else (do
        certificate ←
            on_api_exception (call (api.read_namespaced_secret namespace tls_secret)) (λ status.
              fail (
                if beq status 404
                then raised (
                    bad_request_error
                      "The administrator-configured TLS Secret is missing from the deployment namespace")
                else api_exception status))
        check (
            reject_if
              (not (certificate.kind == "kubernetes.io/tls")
                || not (truthy certificate.tls_crt && truthy certificate.tls_key))
              (bad_request_error "The administrator-configured TLS Secret is invalid")))

  unfoldable pub validate_controller : DeploymentAccessRequest → Step C (Unit {0})
  unfolding ingress_class
  validate_controller request = if not (truthy request.ingress_host) then done tt else (do
    controller ← on_api_exception (call (api.read_ingress_class ingress_class)) (λ status. fail (
        if beq status 403 || beq status 404
        then raised (
            bad_request_error
              "Cannot verify the Traefik class; ask an administrator to configure it")
        else api_exception status))
    check (
        reject_if (not (controller == "traefik.io/ingress-controller"))
          (bad_request_error "Deployment Ingress is supported only by the Traefik controller")))

  abbrev hostname_failure : Failure → Failure
  hostname_failure (raised (uncaught e)) = api_exception 500
  hostname_failure f = f

  -- the call of `validate_hostname_available`; an `ApiException` of a class look-up is one of a
  -- status that the callers do not tell apart
  unfoldable pub hostname_available : Option String → Option (String × String) → Step C (Unit {0})
  unfolding ingress_class
  hostname_available host existing = if not (truthy host) then done tt else (do
    routes ← call api.list_ingress_for_all_namespaces
    lookups ← call (λ c. (returned (api.class_lookup c), c))
    translated hostname_failure
        (check (validate_hostname_available lookups host ingress_class existing (ok routes))))

  unfoldable pub validate_new_hostname : DeploymentAccessRequest → Step C (Unit {0})
  unfolding validate_controller hostname_available
  validate_new_hostname request =
      if not (truthy request.ingress_host)
      then done tt
      else translated (gateway_failure "Could not verify hostname availability in Kubernetes") (do
        call api.api_client
        validate_controller request
        hostname_available request.ingress_host none)
