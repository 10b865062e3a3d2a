-- ===== src/Deployment/Access/Update.antt =====
-- services/deployment/access.py: `_reconcile_access` and `update_access`, which change the exposure.
use triton_control.Prelude.{
  ℕ, String, Bool, true, false, not, ◌&&◌, ◌||◌, Option, none, some, List, [], ◌∷◌, beq, is_some,
  one_of, or_empty, truthy, update_where, replace, replace_from, ◌==◌, if◌then◌else◌,
}
use triton_control.Prelude.Dict.{Dict, lookup, merge, filter_keys}
use triton_control.Errors.{bad_request_error, conflict_error, bad_gateway_error, reject_if}
use triton_control.Env.{Env}
use triton_control.Access.{Claims, require_member_or_admin}
use triton_control.Store.Data.{TritonInstanceEntity}
use triton_control.Store.Session.{Action, modify}
use triton_control.Deployment.Policy.{
  DeploymentAccessRequest, PolicyRow, validate_ingress, validate_endpoint_policy, resolve_hostname,
}
use triton_control.Deployment.Access.Manifests.{
  auth_secret_annotation, middleware_annotation, tls_annotation, entrypoints_annotation,
  issuer_annotation, BasicAuth, MiddlewareManifest, IngressManifest, Manifest, secret_kind,
  middleware_kind, ingress_kind, Random, validate_policy, access_manifests,
}
use triton_control.Deployment.Access.Api.{
  Failure, raised, api_exception, connection_error, config_exception, Api, Step, done, fail, call,
  check, database, on_api_exception, translated, ◌>>=◌, ◌>>◌, when,
}
use triton_control.Deployment.Access.Reads.{
  DeploymentAccessResponse, namespace_of, name_of, service_of, ingress_name, annotations_of,
  response, managed_instance, read_ingress, validate_tls_secret, validate_controller,
  hostname_available,
}

abbrev nginx_secret_annotation : String
nginx_secret_annotation = "nginx.ingress.kubernetes.io/auth-secret"

-- annotations.get(AUTH_SECRET_ANNOTATION) or annotations.get("nginx.ingress.kubernetes.io/auth-secret")
unfoldable pub old_secret : Dict → Option String
unfolding lookup
old_secret annotations =
    if truthy (lookup auth_secret_annotation annotations)
    then lookup auth_secret_annotation annotations
    else lookup nginx_secret_annotation annotations

-- the settings that a change removes
abbrev pub is_preserved : String → Bool
is_preserved key = not (
    one_of key (
      auth_secret_annotation ∷ middleware_annotation ∷ tls_annotation ∷ entrypoints_annotation
      ∷ issuer_annotation ∷ "nginx.ingress.kubernetes.io/auth-type" ∷ nginx_secret_annotation
      ∷ "nginx.ingress.kubernetes.io/auth-realm" ∷ "nginx.ingress.kubernetes.io/ssl-redirect" ∷ []))

-- {**preserved, **manifest["metadata"]["annotations"]}
unfoldable pub with_annotations : Dict → IngressManifest → IngressManifest
unfolding merge filter_keys
with_annotations annotations manifest = record manifest {
  annotations = merge (filter_keys is_preserved annotations) manifest.annotations;
}

-- what a replacement takes from the Ingress before it
unfoldable pub as_replacement : IngressManifest → IngressManifest → IngressManifest
unfolding merge
as_replacement previous manifest = record manifest {
  labels = merge previous.labels manifest.labels;
  owner_references = previous.owner_references;
  finalizers = previous.finalizers;
  resource_version = previous.resource_version;
}

-- old_secret != retained_secret
abbrev differs : Option String → Option String → Bool
differs none none = false
differs none (some b) = true
differs (some a) none = true
differs (some a) (some b) = not (a == b)

abbrev pub obsolete_of : (old retained : Option String) → Option String
obsolete_of old retained = if differs old retained then old else none

-- the definitive rejections of a write
abbrev pub is_definitive : ℕ → Bool
is_definitive status =
    beq status 400
    || beq status 401
    || beq status 403
    || beq status 404
    || beq status 409
    || beq status 422

abbrev same_spec : BasicAuth → Option BasicAuth → Bool
same_spec wanted none = false
same_spec wanted (some found) =
    found.secret == wanted.secret
    && found.realm == wanted.realm
    && (if found.remove_header then wanted.remove_header else not wanted.remove_header)

abbrev same_owner : String → Option String → Bool
same_owner wanted none = false
same_owner wanted (some found) = found == wanted

-- the internal address, also of the metrics
unfoldable pub readdressed : DeploymentAccessResponse → TritonInstanceEntity → TritonInstanceEntity
unfolding replace_from
readdressed answer instance = record instance {
  url = answer.internal_url;
  metrics_url =
      if truthy instance.metrics_url
      then some (replace ":18000" ":18002/metrics" answer.internal_url)
      else instance.metrics_url;
}

-- the part of `instances.save` on the table
unfoldable pub save_instance : TritonInstanceEntity → Action (Unit {0})
save_instance row = modify λ w. record w {
  instances = update_where (λ (i : TritonInstanceEntity). beq i.id row.id) (λ i. row) w.instances;
}

-- the `except` clauses of `update_access`
unfoldable pub update_failure : Failure → Failure
update_failure (raised e) = raised e
update_failure (api_exception status) = raised (
    if beq status 409
    then conflict_error "Deployment access changed concurrently; reload and retry"
    else bad_gateway_error
        "Could not update deployment access in Kubernetes; reload access settings and retry")
update_failure connection_error =
    raised
      (bad_gateway_error "Kubernetes connection failed; reload access settings before retrying")
update_failure config_exception =
    raised (bad_gateway_error "Kubernetes configuration could not be loaded")

module _ ⦃env : Env⦄ {C : Type 0} (api : Api C) where
  -- `_delete_secret`
  unfoldable pub delete_secret :
      (namespace : String) (name : Option String) (deployment_name : String) → Step C (Unit {0})
  delete_secret namespace name deployment_name =
      if not (truthy name)
      then done tt
      else on_api_exception
          (do
            found ← call (api.read_namespaced_secret namespace (or_empty name))
            if same_owner deployment_name found.owner
                then call (api.delete_namespaced_secret namespace (or_empty name))
                else done tt)
          (λ status. if beq status 404 then done tt else fail (api_exception status))

  unfoldable pub create_auth_middleware :
      (namespace : String) → MiddlewareManifest → Step C (Unit {0})
  create_auth_middleware namespace manifest = do
    uid ← call (api.read_secret_uid namespace manifest.name)
    call (api.create_middleware (record manifest { owner_secret = some (manifest.name, uid) }))

  unfoldable pub validate_auth_middleware :
      (namespace : String) → MiddlewareManifest → Step C (Unit {0})
  validate_auth_middleware namespace manifest = do
    existing ← on_api_exception (call (api.read_middleware namespace manifest.name)) (λ status.
        fail (
          if beq status 404
          then raised
              (bad_request_error "Authentication middleware is missing; enter credentials again")
          else api_exception status))
    check (
        reject_if
          (not (same_owner manifest.owner existing.owner)
            || not (same_spec manifest.spec existing.spec))
          (bad_request_error "Authentication middleware changed; enter credentials again"))

  -- the old credential, if the request keeps it and it is still usable
  unfoldable pub retained :
      DeploymentAccessRequest
      → TritonInstanceEntity
      → (old : Option String) → Step C (Option String)
  retained request instance old =
      if request.basic_auth_enabled && not (truthy request.basic_auth_password) && truthy old
      then (do
        found ← call (api.read_namespaced_secret (namespace_of instance) (or_empty old))
        done
            (if same_owner (name_of instance) found.owner && truthy found.users then old else none))
      else done none

  -- the loop over the manifests, with what it has created so far
  module _ (instance : TritonInstanceEntity) (uid : String)
      (previous : Option IngressManifest) where
    unfoldable pub apply_middleware : Option String → MiddlewareManifest → Step C (Unit {0})
    unfolding create_auth_middleware delete_secret validate_auth_middleware
    apply_middleware none manifest = validate_auth_middleware (namespace_of instance) manifest
    apply_middleware (some new) manifest =
        on_api_exception (create_auth_middleware (namespace_of instance) manifest) (λ status. do
          delete_secret (namespace_of instance) (some new) (name_of instance)
          fail (api_exception status))

    unfoldable pub write_ingress : IngressManifest → Step C IngressManifest
    unfolding with_annotations as_replacement
    write_ingress manifest = elim previous [
      | none ↦ call (api.create_namespaced_ingress (with_annotations [] manifest))
      | some p ↦ call (
          api.replace_namespaced_ingress
            (as_replacement p (with_annotations p.annotations manifest)))
    ]

    unfoldable pub apply_ingress : Option String → IngressManifest → Step C IngressManifest
    unfolding write_ingress delete_secret
    apply_ingress new manifest = on_api_exception (write_ingress manifest) (λ status. do
      when (is_definitive status) (delete_secret (namespace_of instance) new (name_of instance))
      fail (api_exception status))

    unfoldable pub apply :
        List Manifest
        → (new : Option String) (result : Option IngressManifest) → Step C (Option IngressManifest)
    unfolding apply_middleware apply_ingress
    apply [] new result = done result
    apply (secret_kind m ∷ ms) new result = do
      call (api.create_namespaced_secret (record m { owner_uid = some uid }))
      apply ms (some m.name) result
    apply (middleware_kind m ∷ ms) new result = do apply_middleware new m; apply ms new result
    apply (ingress_kind m ∷ ms) new result = do
      written ← apply_ingress new m
      apply ms new (some written)

    -- without manifests, the Ingress goes
    unfoldable pub remove_ingress : List Manifest → Step C (Unit {0})
    remove_ingress (m ∷ ms) = done tt
    remove_ingress [] = elim previous [
      | none ↦ done tt
      | some p ↦ call (
          api.delete_namespaced_ingress (namespace_of instance) (ingress_name instance)
            p.resource_version)
    ]

  -- `_reconcile_access`: the answer, and the credential that is obsolete
  unfoldable pub reconcile_access :
      Random
      → TritonInstanceEntity
      → (uid : String) (previous : Option IngressManifest) → DeploymentAccessRequest
      → Step C (DeploymentAccessResponse × Option String)
  unfolding old_secret retained access_manifests hostname_available validate_tls_secret apply
      remove_ingress response
  reconcile_access random instance uid previous request = do
    let old = old_secret (annotations_of previous)
    kept ← retained request instance old
    manifests ← check (
        access_manifests random request (namespace_of instance) (name_of instance)
          (service_of instance) kept (truthy instance.metrics_url))
    hostname_available api request.ingress_host
        (if is_some previous then some (namespace_of instance, ingress_name instance) else none)
    when (truthy request.ingress_host) (validate_tls_secret api request (namespace_of instance))
    result ← apply instance uid previous manifests none none
    remove_ingress instance uid previous manifests
    answer ← check (response instance result)
    done (answer, obsolete_of old kept)

  -- the body of the `try` of `update_access`
  unfoldable pub change_access :
      Random
      → DeploymentAccessRequest
      → TritonInstanceEntity
      → PolicyRow
      → Step C DeploymentAccessResponse
  unfolding validate_controller read_ingress response resolve_hostname validate_endpoint_policy
      reconcile_access readdressed save_instance
  change_access random request instance row = do
    call api.api_client
    validate_controller api request
    uid ← call (api.read_namespaced_deployment (namespace_of instance) (name_of instance))
    previous ← read_ingress api instance
    current ← check (response instance previous)
    resolved ← check (resolve_hostname request current.ingress_host)
    check (validate_endpoint_policy resolved row current.ingress_host current.ingress_scheme)
    changed ← reconcile_access random instance uid previous resolved
    database (save_instance (readdressed changed.0 instance))
    delete_secret (namespace_of instance) changed.1 (name_of instance)
    done changed.0

  unfoldable pub update_access :
      Random → DeploymentAccessRequest → Claims → ℕ → PolicyRow → Step C DeploymentAccessResponse
  unfolding managed_instance validate_policy validate_ingress change_access update_failure
  update_access random request claims instance_id row = do
    database (require_member_or_admin claims)
    instance ← managed_instance api claims instance_id
    check (validate_policy request false)
    check (validate_ingress request)
    translated update_failure (change_access random request instance row)
