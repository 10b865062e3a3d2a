-- ===== src/Deployment/Access/Credentials.antt =====
-- Whatever fails in a change of exposure, the live Ingress does not lose its credential.
use triton_control.Prelude.{
  ◌≡◌, ap, String, Option, none, some, if◌then◌else◌, truthy, beq, beq_iff, is_some,
}
use triton_control.Errors.{ok}
use triton_control.Env.{Env}
use triton_control.Store.Data.{World, TritonInstanceEntity}
use triton_control.Deployment.Policy.{DeploymentAccessRequest, PolicyRow, resolve_hostname}
use triton_control.Deployment.Access.Manifests.{IngressManifest, Random, access_manifests}
use triton_control.Deployment.Access.Api.{api_exception, Api}
use triton_control.Deployment.Access.Reads.{
  namespace_of, name_of, service_of, ingress_name, annotations_of, response, find_ingress,
  read_ingress,
}
use triton_control.Deployment.Access.Update.{
  reconcile_access, change_access, old_secret, save_instance, readdressed,
}
use triton_control.Deployment.Access.Views.{View, named, Behaves}
use triton_control.Deployment.Access.Triples.{
  Triple, done-Triple, fail-Triple, call-Triple, bind-Triple, check-Triple, database-Triple,
  handled-Triple, if-Triple, weaker-Triple, untouched-Triple, fact-Triple,
}
use triton_control.Deployment.Access.Shapes.{access_manifests-Shape}
use triton_control.Deployment.Access.Writes.{Consistent, Detached, delete_secret-Triple}
use triton_control.Deployment.Access.Leaves.{found-Post, either_way}
use triton_control.Deployment.Access.Apply.{
  Before, validate_tls_secret-Triple, validate_controller-Triple, hostname_available-Triple,
  retained-Triple, apply-Triple, remove_ingress-Triple,
}

module _ ⦃env : Env⦄ {C : Type 0} (api : Api C) (view : C → View) (instance : TritonInstanceEntity)
    (behaves : Behaves api (namespace_of instance) (ingress_name instance) view) where
  -- `_reconcile_access` leaves a credential that is referred to, and answers one that is not
  reconcile_access-Triple :
      (random : Random) (uid : String) (previous : Option IngressManifest)
      (request : DeploymentAccessRequest)
      → Triple view
          (λ x. Consistent x × (x.live ≡ named (old_secret (annotations_of previous))))
          (reconcile_access api random instance uid previous request)
          (λ r x. Consistent x × Detached r.1 x)
          (λ f. Consistent)
  unfolding reconcile_access
  reconcile_access-Triple random uid previous request =
      bind-Triple
        (retained-Triple api view instance behaves request (old_secret (annotations_of previous)))
        (λ kept.
          bind-Triple
            {Q = λ ms x.
              Before api view instance behaves (old_secret (annotations_of previous)) kept x
              × (access_manifests random request (namespace_of instance) (name_of instance)
                    (service_of instance) kept (truthy instance.metrics_url)
                  ≡ ok ms)}
            (check-Triple (access_manifests random request _ _ _ kept _) (λ x p ms e. (p, e))
              (λ x p f. p.0))
            (λ ms.
              fact-Triple (λ x p. access_manifests-Shape random request _ _ _ kept _ ms p.1)
                (λ shape.
                  bind-Triple
                    (hostname_available-Triple api view instance behaves request.ingress_host
                      (if is_some previous
                        then some (namespace_of instance, ingress_name instance)
                        else none)
                      (λ x p. p.0.0))
                    (λ u.
                      bind-Triple
                        (if-Triple (truthy request.ingress_host)
                          (λ q.
                            validate_tls_secret-Triple api view instance behaves request
                              (λ x p. p.0.0))
                          (λ q. done-Triple tt (λ x p. p)))
                        (λ v.
                          bind-Triple
                            (weaker-Triple (λ x p. p.0)
                              (apply-Triple api view instance behaves uid previous _ kept shape)
                              (λ r x q. q) (λ f x q. q))
                            (λ result.
                              bind-Triple
                                (remove_ingress-Triple api view instance behaves uid previous kept
                                  ms)
                                (λ w.
                                  bind-Triple
                                    (check-Triple (response instance result) (λ x p answer e. p)
                                      (λ x p f. p.0))
                                    (λ answer. done-Triple _ (λ x p. p)))))))))

  -- the Ingress that is read is the live one
  read_ingress-Triple :
      Triple view Consistent
        (read_ingress api instance)
        (λ previous x. Consistent x × (x.live ≡ named (old_secret (annotations_of previous))))
        (λ f. Consistent)
  unfolding read_ingress find_ingress old_secret
  read_ingress-Triple =
      bind-Triple
        (handled-Triple
          {Q = λ previous x. Consistent x × (x.live ≡ named (old_secret (annotations_of previous)))}
          {E = λ f x. Consistent x × (f ≡ api_exception 404 → x.live ≡ none)}
          (bind-Triple
            (call-Triple
              (api.read_namespaced_ingress (namespace_of instance) (ingress_name instance))
              (λ c p.
                found-Post (view c) _ _ (behaves.reads_ingress c) (behaves.reads_live c)
                  (behaves.reads_missing c) p))
            (λ i. done-Triple (some i) (λ x p. p)))
          (λ status.
            if-Triple (beq status 404)
              (λ q.
                done-Triple none (λ x p. (p.0, p.1 (ap api_exception ((beq_iff status 404).0 q)))))
              (λ q. fail-Triple _ (λ x p. p.0)))
          (λ f x p. p.0))
        (λ found.
          bind-Triple (check-Triple _ (λ x p u e. p) (λ x p f. p.0))
            (λ u. done-Triple found (λ x p. p)))

  change_access-Triple :
      (random : Random) (request : DeploymentAccessRequest) (row : PolicyRow)
      → Triple view Consistent
          (change_access api random request instance row)
          (λ r. Consistent)
          (λ f. Consistent)
  unfolding change_access
  change_access-Triple random request row =
      bind-Triple (untouched-Triple api.api_client behaves.connects (λ x p e. p)) (λ u.
        bind-Triple (validate_controller-Triple api view instance behaves request (λ x p. p)) (λ v.
          bind-Triple
            (untouched-Triple
              (api.read_namespaced_deployment (namespace_of instance) (name_of instance))
              (behaves.reads_deployment (name_of instance)) (λ x p e. p))
            (λ uid. bind-Triple read_ingress-Triple (λ previous.
              bind-Triple (check-Triple (response instance previous) (λ x p r e. p) (λ x p f. p.0))
                (λ current.
                  bind-Triple
                    (check-Triple (resolve_hostname request current.ingress_host) (λ x p r e. p)
                      (λ x p f. p.0))
                    (λ resolved. bind-Triple (check-Triple _ (λ x p r e. p) (λ x p f. p.0)) (λ w.
                      bind-Triple (reconcile_access-Triple random uid previous resolved) (λ changed.
                        bind-Triple
                          (database-Triple (save_instance (readdressed changed.0 instance))
                            (λ x p z. p) (λ x p f. p.0))
                          (λ z.
                            bind-Triple (delete_secret-Triple api view instance behaves changed.1)
                              (λ y. done-Triple _ (λ x p. p)))))))))))

  -- If the calls of the client do what the Kubernetes API documents of them, and the Secret that the
  -- live Ingress refers to is there, then it is there after a change of exposure as well, whichever
  -- call fails, and however.
  pub change_access-Consistent :
      (random : Random) (request : DeploymentAccessRequest) (row : PolicyRow) (s : World × C)
      → Consistent (view s.1)
      → Consistent (view (change_access api random request instance row s).1.1)
  change_access-Consistent random request row s g =
      either_way (change_access api random request instance row s).0 _
        ((change_access-Triple random request row).run s g)
