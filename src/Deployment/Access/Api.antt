-- ===== src/Deployment/Access/Api.antt =====
-- The calls of the Kubernetes client that deployment exposure makes, as a parameter, and steps that
-- make them: a step leaves a cluster also when it fails, for a call that fails may have been carried
-- out. The database is the world of the other services.
use triton_control.Prelude.{ℕ, String, Bool, Option, List, if◌then◌else◌}
use triton_control.Errors.{AppError, Result, ok, err}
use triton_control.Store.Data.{World}
use triton_control.Store.Session.{Action}
use triton_control.Deployment.Hostname.{ClassLookup, Ingress}
use triton_control.Deployment.Access.Manifests.{
  SecretManifest, MiddlewareManifest, BasicAuth, IngressManifest,
}

-- An exception: one of the program's, an `ApiException` with its status, a failed connection
-- (`HTTPError`, `OSError`), or a `ConfigException`.
pub data Failure : Type 0 where
  raised : AppError → Failure
  api_exception : (status : ℕ) → Failure
  connection_error config_exception : Failure

pub data Outcome (V : Type 0) : Type 0 where
  failed : Failure → Outcome V
  returned : V → Outcome V

-- what the program reads of a Secret; `owner` is the label of its deployment
pub record Secret : Type 0 where
  pub owner : Option String
  pub users : Option String
  pub kind : String
  pub tls_crt : Option String
  pub tls_key : Option String

-- what it reads of a Middleware; a spec of another form is `none`
pub record Middleware : Type 0 where
  pub owner : Option String
  pub spec : Option BasicAuth

abbrev pub Call : Type 0 → Type 0 → Type 0
Call C V = C → Outcome V × C

-- The client. A Secret, a Middleware and an Ingress are named by namespace and name.
pub record Api (C : Type 0) : Type 0 where
  pub api_client : Call C (Unit {0})
  -- spec.controller of an IngressClass
  pub read_ingress_class : String → Call C String
  -- the uid of a Deployment
  pub read_namespaced_deployment : (namespace name : String) → Call C String
  pub read_namespaced_ingress : (namespace name : String) → Call C IngressManifest
  pub list_ingress_for_all_namespaces : Call C (List Ingress)
  -- the look-ups of ingress classes while a hostname is validated
  pub class_lookup : C → String → ClassLookup
  pub create_namespaced_ingress : IngressManifest → Call C IngressManifest
  pub replace_namespaced_ingress : IngressManifest → Call C IngressManifest
  -- with the resource version that it must still have
  pub delete_namespaced_ingress :
      (namespace name : String) (resource_version : Option String) → Call C (Unit {0})
  pub read_namespaced_secret : (namespace name : String) → Call C Secret
  -- the uid of a Secret
  pub read_secret_uid : (namespace name : String) → Call C String
  pub create_namespaced_secret : SecretManifest → Call C (Unit {0})
  pub delete_namespaced_secret : (namespace name : String) → Call C (Unit {0})
  pub read_middleware : (namespace name : String) → Call C Middleware
  pub create_middleware : MiddlewareManifest → Call C (Unit {0})

module _ (C : Type 0) where
  abbrev pub Step : Type 0 → Type 0
  Step V = World × C → Outcome V × (World × C)

module _ {V : Type 0} where
  abbrev pub outcome_of : Result V → Outcome V
  outcome_of (ok v) = returned v
  outcome_of (err e) = failed (raised e)

  unfoldable pub map_failure : (Failure → Failure) → Outcome V → Outcome V
  map_failure f (failed e) = failed (f e)
  map_failure f (returned v) = returned v

module _ {C : Type 0} {V : Type 0} where
  unfoldable pub done : V → Step C V
  done v s = (returned v, s)

  unfoldable pub fail : Failure → Step C V
  fail f s = (failed f, s)

  -- a call of the client
  unfoldable pub call : Call C V → Step C V
  call f s = let r = f s.1 in (r.0, (s.0, r.1))

  -- a call of a service on the database
  unfoldable pub database : Action V → Step C V
  database m s = let r = m s.0 in (outcome_of r.0, (r.1, s.1))

  -- a computation that may raise
  unfoldable pub check : Result V → Step C V
  check r s = (outcome_of r, s)

  unfoldable pub handle_api : (ℕ → Step C V) → Outcome V × (World × C) → Outcome V × (World × C)
  handle_api handler (failed (api_exception n), s) = handler n s
  handle_api handler (failed f, s) = (failed f, s)
  handle_api handler (returned v, s) = (returned v, s)

  -- `try: … except ApiException as exc: …`
  unfoldable pub on_api_exception : Step C V → (ℕ → Step C V) → Step C V
  unfolding handle_api
  on_api_exception m handler s = handle_api handler (m s)

  -- each failure is raised again as another
  unfoldable pub translated : (Failure → Failure) → Step C V → Step C V
  unfolding map_failure
  translated f m s = let r = m s in (map_failure f r.0, r.1)

unfoldable pub after :
    {C V W : Type 0} → (V → Step C W) → Outcome V × (World × C) → Outcome W × (World × C)
after k (failed f, s) = (failed f, s)
after k (returned v, s) = k v s

infixl 5 ◌>>=◌ ◌>>◌
unfoldable pub ◌>>=◌ : {C V W : Type 0} → Step C V → (V → Step C W) → Step C W
unfolding after
◌>>=◌ m k s = after k (m s)

abbrev pub ◌>>◌ : {C W : Type 0} → Step C (Unit {0}) → Step C W → Step C W
m >> k = m >>= λ _. k

-- `if c: …`
abbrev pub when : {C : Type 0} → Bool → Step C (Unit {0}) → Step C (Unit {0})
when c m = if c then m else done tt
