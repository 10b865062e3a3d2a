-- ===== src/Deployment/Access/Manifests.antt =====
-- services/deployment/access_manifests.py with its templates, basic_auth_secret.yaml,
-- basic_auth_middleware.yaml and ingress.yaml. `uuid.uuid4().hex` and bcrypt are parameters.
use triton_control.Prelude.{
  String, Bool, true, false, not, ◌&&◌, Option, none, some, List, [], ◌∷◌, ◌++◌, strip, or_empty,
  truthy, take_chars, ◌^^◌, ◌==◌, if◌then◌else◌,
}
use triton_control.Prelude.Dict.{Dict}
use triton_control.Errors.{Result, ok, err, bad_request_error, reject_if, ◌>>◌}
use triton_control.Env.{Env, getenv_or}
use triton_control.Deployment.Policy.{DeploymentAccessRequest, scheme_of}

abbrev pub auth_secret_annotation : String
auth_secret_annotation = "triton-control.io/auth-secret"

abbrev pub middleware_annotation : String
middleware_annotation = "traefik.ingress.kubernetes.io/router.middlewares"

abbrev pub tls_annotation : String
tls_annotation = "traefik.ingress.kubernetes.io/router.tls"

abbrev pub entrypoints_annotation : String
entrypoints_annotation = "traefik.ingress.kubernetes.io/router.entrypoints"

abbrev pub issuer_annotation : String
issuer_annotation = "cert-manager.io/cluster-issuer"

abbrev pub owner_label : String
owner_label = "triton-control.io/deployment"

-- basic_auth_secret.yaml; `owner` is the label of the deployment
pub record SecretManifest : Type 0 where
  pub name : String
  pub namespace : String
  pub owner : String
  pub users : String
  pub owner_uid : Option String

-- `spec.basicAuth`
pub record BasicAuth : Type 0 where
  pub secret : String
  pub realm : String
  pub remove_header : Bool

-- basic_auth_middleware.yaml
pub record MiddlewareManifest : Type 0 where
  pub name : String
  pub namespace : String
  pub owner : String
  pub class_annotation : String
  pub spec : BasicAuth
  pub owner_secret : Option (String × String)

pub record HttpPath : Type 0 where
  pub path : String
  pub service : Option String
  pub port : String

-- without paths, the rule has no `http` or an empty list
pub record Rule : Type 0 where
  pub host : Option String
  pub paths : List HttpPath

pub record Tls : Type 0 where
  pub hosts : List String
  pub secret_name : Option String

-- an Ingress, as a manifest and as it is read
pub record IngressManifest : Type 0 where
  pub name : String
  pub namespace : String
  pub labels : Dict
  pub annotations : Dict
  pub owner_references : List String
  pub finalizers : List String
  pub resource_version : Option String
  pub ingress_class_name : Option String
  pub rules : List Rule
  pub tls : List Tls

pub data Manifest : Type 0 where
  secret_kind : SecretManifest → Manifest
  middleware_kind : MiddlewareManifest → Manifest
  ingress_kind : IngressManifest → Manifest

-- the random values of one request: uuid.uuid4().hex, and bcrypt.hashpw with its salt
pub record Random : Type 0 where
  pub uuid_hex : String
  pub hashpw : String → String

module _ ⦃env : Env⦄ where
  -- os.getenv(name, "").strip()
  abbrev pub setting : String → String
  setting name = strip (getenv_or name "")

  -- os.getenv(name, default).strip() or default
  abbrev pub setting_or : (name default : String) → String
  setting_or name default =
      let value = strip (getenv_or name default) in if value == "" then default else value

  unfoldable pub ingress_class : String
  ingress_class = setting_or "TRITON_DEPLOY_INGRESS_CLASS" "traefik"

  abbrev pub tls_secret : String
  tls_secret = setting "TRITON_DEPLOY_INGRESS_TLS_SECRET"

  abbrev pub cluster_issuer : String
  cluster_issuer = setting "TRITON_DEPLOY_CERT_MANAGER_CLUSTER_ISSUER"

  abbrev pub is_https : DeploymentAccessRequest → Bool
  is_https request = scheme_of request.ingress_scheme == "https"

  unfoldable pub validate_policy : DeploymentAccessRequest → (creating : Bool) → Result (Unit {0})
  validate_policy request creating = do
    reject_if (creating && request.basic_auth_enabled && not (truthy request.basic_auth_password))
        (bad_request_error "Username and password are required when enabling basic authentication")
    reject_if
        (truthy request.ingress_host
          && is_https request
          && not (tls_secret == "")
          && not (cluster_issuer == ""))
        (bad_request_error
          "Configure either a TLS Secret or a cert-manager ClusterIssuer, not both")

  unfoldable pub auth_secret_name : Random → String → String
  auth_secret_name random deployment_name =
      take_chars 32 deployment_name
      ^^ "-"
      ^^ take_chars 8 (env.sha256 deployment_name)
      ^^ "-auth-"
      ^^ take_chars 8 random.uuid_hex

  -- the paths of ingress.yaml, for the service
  abbrev path_of : String → Bool → HttpPath
  path_of service is_metrics = record {
    path = if is_metrics then "/metrics" else "/";
    service = some service;
    port = if is_metrics then "metrics" else "http";
  }

  abbrev pub paths_of : String → Bool → List HttpPath
  paths_of service true = path_of service true ∷ path_of service false ∷ []
  paths_of service false = path_of service false ∷ []

  -- the annotations and the `tls` that follow from the scheme
  abbrev pub issuer_annotations : Dict
  issuer_annotations = if cluster_issuer == "" then [] else (issuer_annotation, cluster_issuer) ∷ []

  unfoldable pub scheme_annotations : DeploymentAccessRequest → Dict
  scheme_annotations request =
      if is_https request
      then issuer_annotations
        ++ (tls_annotation, "true")
          ∷ (
            entrypoints_annotation,
            setting_or "TRITON_DEPLOY_INGRESS_HTTPS_ENTRYPOINT" "websecure",
          )
          ∷ []
      else (entrypoints_annotation, setting_or "TRITON_DEPLOY_INGRESS_HTTP_ENTRYPOINT" "web") ∷ []

  abbrev pub tls_of : DeploymentAccessRequest → String → List Tls
  tls_of request deployment_name =
      if is_https request
      then record {
        hosts = or_empty request.ingress_host ∷ [];
        secret_name =
            if not (cluster_issuer == "")
            then some (deployment_name ^^ "-ingress-tls")
            else if not (tls_secret == "")
            then some tls_secret
            else none;
      }
        ∷ []
      else []

  module _ (random : Random) (request : DeploymentAccessRequest)
      (namespace deployment_name : String) where
    abbrev pub secret_of : String → SecretManifest
    secret_of name = record {
      name = name;
      namespace = namespace;
      owner = deployment_name;
      users =
          or_empty request.basic_auth_username
          ^^ ":"
          ^^ random.hashpw (or_empty request.basic_auth_password)
          ^^ "\n";
      owner_uid = none;
    }

    abbrev pub middleware_of : String → MiddlewareManifest
    middleware_of name = record {
      name = name;
      namespace = namespace;
      owner = deployment_name;
      class_annotation = ingress_class;
      spec = record {
        secret = name;
        realm = "Triton authentication required";
        remove_header = true;
      };
      owner_secret = none;
    }

    -- the annotations that name the credential and its middleware
    abbrev pub credential_annotations : String → Dict
    credential_annotations name =
        (auth_secret_annotation, name)
        ∷ (middleware_annotation, namespace ^^ "-" ^^ name ^^ "@kubernetescrd")
        ∷ []

    -- the request brings a new credential
    abbrev pub is_fresh : Bool
    is_fresh = truthy request.basic_auth_password && truthy request.basic_auth_username

    abbrev pub ingress_of :
        (service_name : String) (allow_metrics : Bool) (annotations : Dict) → IngressManifest
    ingress_of service_name allow_metrics annotations = record {
      name = deployment_name ^^ "-ingress";
      namespace = namespace;
      labels = (owner_label, deployment_name) ∷ [];
      annotations = annotations ++ scheme_annotations request;
      owner_references = [];
      finalizers = [];
      resource_version = none;
      ingress_class_name = some ingress_class;
      rules =
          record { host = request.ingress_host; paths = paths_of service_name allow_metrics } ∷ [];
      tls = tls_of request deployment_name;
    }

    unfoldable pub access_manifests :
        (service_name : String) (auth_secret : Option String) (allow_metrics : Bool)
        → Result (List Manifest)
    unfolding validate_policy auth_secret_name
    access_manifests service_name auth_secret allow_metrics = do
      validate_policy request false
      if not (truthy request.ingress_host)
          then ok []
          else if not request.basic_auth_enabled
          then ok (ingress_kind (ingress_of service_name allow_metrics []) ∷ [])
          else if is_fresh
          then (let name = auth_secret_name random deployment_name in
              ok (
                secret_kind (secret_of name)
                ∷ middleware_kind (middleware_of name)
                ∷ ingress_kind (ingress_of service_name allow_metrics (credential_annotations name))
                ∷ []))
          else if truthy auth_secret
          then ok (
              middleware_kind (middleware_of (or_empty auth_secret))
              ∷ ingress_kind (
                  ingress_of service_name allow_metrics
                    (credential_annotations (or_empty auth_secret)))
              ∷ [])
          else err (
              bad_request_error
                "Username and password are required when enabling basic authentication")
