-- ===== src/Deployment/Access/Apply.antt =====
-- The steps of `_reconcile_access`, and what each leaves of the credential.
use triton_control.Prelude.{
  ◌≡◌, ◌≢◌, ◌⊎◌, inl, inr, refl, sym, ap, subst, ◌∙◌, String, true, not, ◌&&◌, ◌||◌, Option, none,
  some, List, [], ◌∷◌, ◌==◌, or_empty, truthy,
}
use triton_control.Env.{Env}
use triton_control.Store.Data.{TritonInstanceEntity}
use triton_control.Deployment.Policy.{DeploymentAccessRequest}
use triton_control.Deployment.Access.Manifests.{
  SecretManifest, IngressManifest, Manifest, tls_secret, ingress_class, is_https,
}
use triton_control.Deployment.Access.Api.{Failure, returned, Api, call}
use triton_control.Deployment.Access.Reads.{
  namespace_of, ingress_name, annotations_of, validate_controller, validate_tls_secret,
  hostname_available,
}
use triton_control.Deployment.Access.Update.{
  apply, remove_ingress, retained, obsolete_of, old_secret,
}
use triton_control.Deployment.Access.Views.{View, named, Behaves}
use triton_control.Deployment.Access.Triples.{
  Triple, done-Triple, fail-Triple, call-Triple, bind-Triple, check-Triple, handled-Triple,
  translated-Triple, if-Triple, weaker-Triple, untouched-Triple, fact-Triple,
}
use triton_control.Deployment.Access.Shapes.{Shape, closed, unprotected, retaining, renewing}
use triton_control.Deployment.Access.Writes.{
  Consistent, Detached, Held, nothing_Detached, apply_middleware-Triple, apply_ingress-Triple,
}
use triton_control.Deployment.Access.Leaves.{
  obsolete-kept, obsolete-old, Created-Post, settled, removed-Post, read-Post, present_Held,
}

module _ ⦃env : Env⦄ {C : Type 0} (api : Api C) (view : C → View) (instance : TritonInstanceEntity)
    (behaves : Behaves api (namespace_of instance) (ingress_name instance) view) where
  -- the credential before a change, and the one that the change keeps
  abbrev pub Before : (old kept : Option String) → View → Type 0
  Before old kept x = Consistent x × (x.live ≡ named old) × Held kept x

  -- what is left to delete is not referred to
  abbrev pub Clean : (old kept : Option String) → View → Type 0
  Clean old kept x = Consistent x × Detached (obsolete_of old kept) x

  abbrev pub Unsettled : Failure → View → Type 0
  Unsettled f = Consistent

  clean :
      (old kept o : Option String) (x : View)
      → (truthy (obsolete_of old kept) ≡ true → o ≢ some (or_empty (obsolete_of old kept)))
      → Consistent x × (x.live ≡ o)
      → Clean old kept x
  clean old kept o x h p = (p.0, record { apart = λ q e. h q (sym p.1 ∙ e) })

  -- a new Secret is there, and the live Ingress does not refer to it
  abbrev pub Renewed : (name : String) (old : Option String) → View → Type 0
  Renewed name old x =
      Consistent x × (x.present name ≡ true) × (x.live ≡ named old) × (named old ≢ some name)

  apart_Detached :
      (name : String) (old : Option String) (x : View) → Renewed name old x → Detached (some name) x
  apart_Detached name old x p = record { apart = λ q e. p.3 (sym p.2 ∙ e) }

  pub create_secret-Triple :
      (uid : String) (old kept : Option String) (s : SecretManifest)
      → s.namespace ≡ namespace_of instance
      → Triple view
          (Before old kept)
          (call (api.create_namespaced_secret (record s { owner_uid = some uid })))
          (λ u. Renewed s.name old)
          Unsettled
  create_secret-Triple uid old kept s h =
      call-Triple (api.create_namespaced_secret (record s { owner_uid = some uid })) (λ c p.
        Created-Post s.name old (view c) _ _ p.0 p.1
          (behaves.creates_secret (record s { owner_uid = some uid }) c h))

  -- an untouched step, for a view from which the failure is harmless
  pub validate_tls_secret-Triple :
      (request : DeploymentAccessRequest) {P : View → Type 0}
      → ((x : View) → P x → Consistent x)
      → Triple view P (validate_tls_secret api request (namespace_of instance)) (λ u. P) Unsettled
  unfolding validate_tls_secret
  validate_tls_secret-Triple request h =
      if-Triple (tls_secret == "" || not (truthy request.ingress_host) || not (is_https request))
        (λ q. done-Triple tt (λ x p. p))
        (λ q.
          bind-Triple
            (handled-Triple {E = Unsettled}
              (untouched-Triple (api.read_namespaced_secret (namespace_of instance) tls_secret)
                (behaves.reads_secret tls_secret) (λ x p e. h x p))
              (λ status. fail-Triple _ (λ x g. g)) (λ f x g. g))
            (λ certificate. check-Triple _ (λ x p v e. p) (λ x p f. h x p)))

  pub validate_controller-Triple :
      (request : DeploymentAccessRequest) {P : View → Type 0}
      → ((x : View) → P x → Consistent x)
      → Triple view P (validate_controller api request) (λ u. P) Unsettled
  unfolding validate_controller
  validate_controller-Triple request h =
      if-Triple (not (truthy request.ingress_host)) (λ q. done-Triple tt (λ x p. p))
        (λ q.
          bind-Triple
            (handled-Triple {E = Unsettled}
              (untouched-Triple (api.read_ingress_class ingress_class)
                (behaves.reads_class ingress_class) (λ x p e. h x p))
              (λ status. fail-Triple _ (λ x g. g)) (λ f x g. g))
            (λ controller. check-Triple _ (λ x p v e. p) (λ x p f. h x p)))

  pub hostname_available-Triple :
      (host : Option String) (existing : Option (String × String)) {P : View → Type 0}
      → ((x : View) → P x → Consistent x)
      → Triple view P (hostname_available api host existing) (λ u. P) Unsettled
  unfolding hostname_available
  hostname_available-Triple host existing h =
      if-Triple (not (truthy host)) (λ q. done-Triple tt (λ x p. p))
        (λ q.
          bind-Triple
            (untouched-Triple api.list_ingress_for_all_namespaces behaves.lists (λ x p e. h x p))
            (λ routes.
              bind-Triple
                (untouched-Triple (λ c. (returned (api.class_lookup c), c)) (λ c. refl)
                  (λ x p e. h x p))
                (λ lookups.
                  translated-Triple {E = Unsettled} _
                    (check-Triple _ (λ x p v e. p) (λ x p f. h x p)) (λ e x g. g))))

  pub retained-Triple :
      (request : DeploymentAccessRequest) (old : Option String)
      → Triple view
          (λ x. Consistent x × (x.live ≡ named old))
          (retained api request instance old)
          (λ kept. Before old kept)
          Unsettled
  unfolding retained
  retained-Triple request old =
      if-Triple
        (request.basic_auth_enabled && not (truthy request.basic_auth_password) && truthy old)
        (λ q.
          bind-Triple
            (call-Triple (api.read_namespaced_secret (namespace_of instance) (or_empty old)) (λ c p.
              read-Post old (view c) _ _ (behaves.reads_secret (or_empty old) c)
                (behaves.reads_present (or_empty old) c) p))
            (λ found. done-Triple _ (λ x p. (p.0, p.1, present_Held _ old x p.2))))
        (λ q. done-Triple none (λ x p. (p.0, p.1, record { held = λ n e. cc })))

  pub apply-Triple :
      (uid : String) (previous : Option IngressManifest) (old kept : Option String)
      {ms : List Manifest}
      → Shape (namespace_of instance) (ingress_name instance) kept ms
      → Triple view
          (Before old kept)
          (apply api instance uid previous ms none none)
          (λ r x.
            Consistent x × (((ms ≡ []) × (x.live ≡ named old)) ⊎ Detached (obsolete_of old kept) x))
          Unsettled
  unfolding apply
  apply-Triple uid previous old kept closed = done-Triple none (λ x p. (p.0, inl (refl, p.1)))
  apply-Triple uid previous old kept (unprotected {i} t) =
      bind-Triple
        (weaker-Triple (λ x p. (p.0, record { held = λ n e. cc }, nothing_Detached x))
          (apply_ingress-Triple api view instance behaves uid previous none none i t)
          (λ v x q. clean old kept none x (λ r e. cc) q) (λ f x q. q))
        (λ written. done-Triple _ (λ x q. (q.0, inr q.1)))
  apply-Triple uid previous old kept (retaining {m} {i} r t) =
      bind-Triple
        (apply_middleware-Triple api view instance behaves uid previous none m
          (λ x p. (p.0, nothing_Detached x)))
        (λ u.
          bind-Triple
            (weaker-Triple (λ x p. (p.0, p.2, nothing_Detached x))
              (apply_ingress-Triple api view instance behaves uid previous kept none i t)
              (λ v x q. clean old kept kept x (obsolete-kept old kept) q) (λ f x q. q))
            (λ written. done-Triple _ (λ x q. (q.0, inr q.1))))
  apply-Triple uid previous old kept (renewing {s} {m} {i} h n t) =
      bind-Triple (create_secret-Triple uid old kept s h) (λ u.
        bind-Triple
          (apply_middleware-Triple api view instance behaves uid previous (some s.name) m
            (λ x p. (p.0, apart_Detached s.name old x p)))
          (λ v.
            fact-Triple (λ x p. p.3)
              (λ apart.
                bind-Triple
                  (weaker-Triple
                    (λ x p. (
                      p.0,
                      record {
                        held = λ k e. subst (λ j. x.present j ≡ true) (ap (λ o. or_empty o) e) p.1;
                      },
                      apart_Detached s.name old x p,
                    ))
                    (apply_ingress-Triple api view instance behaves uid previous (some s.name)
                      (some s.name) i t)
                    (λ w x q.
                      clean old kept (some s.name) x
                        (λ r e. apart (obsolete-old old kept r ∙ sym e)) q)
                    (λ f x q. q))
                  (λ written. done-Triple _ (λ x q. (q.0, inr q.1))))))

  -- without manifests, the Ingress is removed
  pub remove_ingress-Triple :
      (uid : String) (previous : Option IngressManifest) (kept : Option String) (ms : List Manifest)
      → Triple view
          (λ x.
            Consistent x
            × (((ms ≡ []) × (x.live ≡ named (old_secret (annotations_of previous))))
                ⊎ Detached (obsolete_of (old_secret (annotations_of previous)) kept) x))
          (remove_ingress api instance uid previous ms)
          (λ u. Clean (old_secret (annotations_of previous)) kept)
          Unsettled
  unfolding remove_ingress old_secret
  remove_ingress-Triple uid previous kept (m ∷ ms) = done-Triple tt (λ x p. (p.0, settled p.1))
  remove_ingress-Triple uid none none [] = done-Triple tt (λ x p. (p.0, nothing_Detached x))
  remove_ingress-Triple uid none (some k) [] = done-Triple tt (λ x p. (p.0, nothing_Detached x))
  remove_ingress-Triple uid (some i) kept [] =
      call-Triple
        (api.delete_namespaced_ingress (namespace_of instance) (ingress_name instance)
          i.resource_version)
        (λ c p. removed-Post _ (view c) _ _ p.0 (behaves.deletes_ingress i.resource_version c))
