-- ===== src/Deployment/Access/Writes.antt =====
-- What the writes of a change of exposure leave, in terms of the credential that is referred to.
use triton_control.Prelude.{
  ℕ, ◌≡◌, ◌≢◌, inl, inr, refl, sym, ap, subst, ◌∙◌, String, Bool, true, false, not, Option, none,
  some, [], ◌==◌, eq_iff, or_empty, truthy, beq, Bool-cases,
}
use triton_control.Env.{Env}
use triton_control.Store.Data.{TritonInstanceEntity}
use triton_control.Deployment.Access.Manifests.{MiddlewareManifest, IngressManifest}
use triton_control.Deployment.Access.Api.{
  Failure, raised, api_exception, connection_error, config_exception, Outcome, returned, failed,
  Api,
}
use triton_control.Deployment.Access.Reads.{namespace_of, name_of, ingress_name}
use triton_control.Deployment.Access.Update.{
  delete_secret, create_auth_middleware, validate_auth_middleware, apply_middleware, write_ingress,
  apply_ingress, with_annotations, as_replacement, is_definitive,
}
use triton_control.Deployment.Access.Views.{View, set_live, Written, Deleted, forget, Behaves}
use triton_control.Deployment.Access.Triples.{
  Post, Triple, same-Post, done-Triple, fail-Triple, call-Triple, bind-Triple, check-Triple,
  handled-Triple, if-Triple, weaker-Triple, untouched-Triple,
}
use triton_control.Deployment.Access.Shapes.{Refers}

-- the Secret that the live Ingress refers to is there
pub record Consistent (x : View) : Type 0 where
  pub there : (name : String) → x.live ≡ some name → x.present name ≡ true

-- a name is not the one that the live Ingress refers to
pub record Detached (o : Option String) (x : View) : Type 0 where
  pub apart : truthy o ≡ true → x.live ≢ some (or_empty o)

pub record Held (o : Option String) (x : View) : Type 0 where
  pub held : (name : String) → o ≡ some name → x.present name ≡ true

pub nothing_Detached : (x : View) → Detached none x
nothing_Detached x = record { apart = λ p. cc }

pub unlinked_Detached : (o : Option String) (x : View) → x.live ≡ none → Detached o x
unlinked_Detached o x p = record { apart = λ q r. let absurd = sym p ∙ r in cc }

unequal : (a b : String) → a ≢ b → (a == b) ≡ false
unequal a b h = elim (Bool-cases (a == b)) [ inl p ↦ elim (h ((eq_iff a b).0 p)) [ ] | inr p ↦ p ]

unnot : (b : Bool) → not b ≡ false → b ≡ true
unnot true p = refl
unnot false p = cc

-- a status that is definitive is no other
clash :
    (n status : ℕ)
    → is_definitive n ≡ false
    → api_exception n ≡ api_exception status
    → is_definitive status ≡ true
    → ⊥
clash n status q e r =
    let same = ap (λ (f : Failure). elim f [ api_exception k ↦ is_definitive k | _ ↦ false ]) e in
    cc

-- the other credentials stay
Deleted-Consistent :
    (name : String) (x y : View)
    → Deleted name x y
    → Consistent x
    → x.live ≢ some name
    → Consistent y
Deleted-Consistent name x y d g n = record {
  there = λ other p.
      let same = sym d.0 ∙ p in
      d.1 other (unequal other name (λ e. n (same ∙ ap some e))) ∙ g.there other same;
}

pub set_live-Consistent : (o : Option String) (x : View) → Held o x → Consistent (set_live o x)
set_live-Consistent o x h = record { there = λ name p. h.held name p }

module _ ⦃env : Env⦄ {C : Type 0} (api : Api C) (view : C → View) (instance : TritonInstanceEntity)
    (behaves : Behaves api (namespace_of instance) (ingress_name instance) view) where
  pub delete_secret-Triple :
      (o : Option String)
      → Triple view
          (λ x. Consistent x × Detached o x)
          (delete_secret api (namespace_of instance) o (name_of instance))
          (λ u. Consistent)
          (λ f. Consistent)
  unfolding delete_secret
  delete_secret-Triple o =
      if-Triple (not (truthy o)) (λ q. done-Triple tt (λ x p. p.0))
        (λ q.
          handled-Triple
            (bind-Triple
              (untouched-Triple (api.read_namespaced_secret (namespace_of instance) (or_empty o))
                (behaves.reads_secret (or_empty o)) (λ x p e. p.0))
              (λ found.
                if-Triple _
                  (λ r.
                    call-Triple (api.delete_namespaced_secret (namespace_of instance) (or_empty o))
                      (λ c p.
                        let g =
                          Deleted-Consistent (or_empty o) _ _
                            (behaves.deletes_secret (or_empty o) c) p.0 (p.1.apart (unnot _ q)) in
                        same-Post Consistent (λ f. Consistent)
                          (api.delete_namespaced_secret (namespace_of instance) (or_empty o) c).0 _
                          g (λ f. g)))
                  (λ r. done-Triple tt (λ x p. p.0))))
            (λ status.
              if-Triple (beq status 404) (λ r. done-Triple tt (λ x g. g))
                (λ r. fail-Triple _ (λ x g. g)))
            (λ f x g. g))

  -- the middleware of a new credential; if it fails, the credential is taken back
  pub apply_middleware-Triple :
      (uid : String) (previous : Option IngressManifest) (new : Option String)
      (m : MiddlewareManifest) {P : View → Type 0}
      → ((x : View) → P x → Consistent x × Detached new x)
      → Triple view P (apply_middleware api instance uid previous new m) (λ u. P) (λ f. Consistent)
  unfolding apply_middleware create_auth_middleware validate_auth_middleware
  apply_middleware-Triple uid previous (some new) m {P} h =
      handled-Triple {E = λ f. P}
        (bind-Triple
          (untouched-Triple (api.read_secret_uid (namespace_of instance) m.name)
            (behaves.reads_uid m.name) (λ x p e. p))
          (λ id.
            untouched-Triple (api.create_middleware _) (behaves.creates_middleware _) (λ x p e. p)))
        (λ status.
          weaker-Triple h
            (bind-Triple (delete_secret-Triple (some new))
              (λ u. fail-Triple (api_exception status) (λ x g. g)))
            (λ u x q. q) (λ f x g. g))
        (λ f x p. (h x p).0)
  apply_middleware-Triple uid previous none m {P} h =
      bind-Triple
        (handled-Triple {E = λ f. Consistent}
          (untouched-Triple (api.read_middleware (namespace_of instance) m.name)
            (behaves.reads_middleware m.name) (λ x p e. (h x p).0))
          (λ status. fail-Triple _ (λ x g. g)) (λ f x g. g))
        (λ existing. check-Triple _ (λ x p v q. p) (λ x p f. (h x p).0))

  -- a failed write: after a definitive rejection the new credential is not referred to
  abbrev Rejected : Option String → Failure → View → Type 0
  Rejected new f x =
      Consistent x
      × ((status : ℕ) → f ≡ api_exception status → is_definitive status ≡ true → Detached new x)

  Written-Post :
      {V : Type 0} (o new : Option String) (x y : View) (r : Outcome V)
      → Consistent x
      → Held o x
      → Detached new x
      → Written o x (forget r) y
      → Post (λ v z. Consistent z × (z.live ≡ o)) (Rejected new) r y
  Written-Post o new x y (returned v) g h d w =
      (subst Consistent (sym w) (set_live-Consistent o x h), ap (λ (z : View). z.live) w)
  Written-Post o new x y (failed (api_exception n)) g h d (inl w) =
      (subst Consistent (sym w) g, λ status e q. subst (Detached new) (sym w) d)
  Written-Post o new x y (failed (api_exception n)) g h d (inr (q, w)) = (
    subst Consistent (sym w) (set_live-Consistent o x h),
    λ status e r. elim (clash n status q e r) [ ],
  )
  Written-Post o new x y (failed (raised e)) g h d (inl w) =
      (subst Consistent (sym w) g, λ status e q. cc)
  Written-Post o new x y (failed (raised e)) g h d (inr w) =
      (subst Consistent (sym w) (set_live-Consistent o x h), λ status e q. cc)
  Written-Post o new x y (failed connection_error) g h d (inl w) =
      (subst Consistent (sym w) g, λ status e q. cc)
  Written-Post o new x y (failed connection_error) g h d (inr w) =
      (subst Consistent (sym w) (set_live-Consistent o x h), λ status e q. cc)
  Written-Post o new x y (failed config_exception) g h d (inl w) =
      (subst Consistent (sym w) g, λ status e q. cc)
  Written-Post o new x y (failed config_exception) g h d (inr w) =
      (subst Consistent (sym w) (set_live-Consistent o x h), λ status e q. cc)

  call-Written-Post :
      {V : Type 0} {l o new : Option String} (f : C → Outcome V × C) (c : C)
      → l ≡ o
      → Consistent (view c) × Held o (view c) × Detached new (view c)
      → Written l (view c) (forget (f c).0) (view (f c).1)
      → Post (λ v z. Consistent z × (z.live ≡ o)) (Rejected new) (f c).0 (view (f c).1)
  call-Written-Post {V} {l} {o} {new} f c e p w =
      Written-Post o new (view c) (view (f c).1) (f c).0 p.0 p.1 p.2
        (subst (λ k. Written k (view c) (forget (f c).0) (view (f c).1)) e w)

  write_ingress-Triple :
      (uid : String) (previous : Option IngressManifest) (o new : Option String)
      (i : IngressManifest)
      → Refers (namespace_of instance) (ingress_name instance) o i
      → Triple view
          (λ x. Consistent x × Held o x × Detached new x)
          (write_ingress api instance uid previous i)
          (λ v x. Consistent x × (x.live ≡ o))
          (Rejected new)
  unfolding write_ingress as_replacement with_annotations
  write_ingress-Triple uid none o new i t =
      call-Triple (api.create_namespaced_ingress (with_annotations [] i)) (λ c p.
        call-Written-Post (api.create_namespaced_ingress (with_annotations [] i)) c (t.refers []) p
          (behaves.creates_ingress (with_annotations [] i) c t.in_namespace t.has_name))
  write_ingress-Triple uid (some q) o new i t =
      call-Triple
        (api.replace_namespaced_ingress (as_replacement q (with_annotations q.annotations i)))
        (λ c p.
          call-Written-Post
            (api.replace_namespaced_ingress (as_replacement q (with_annotations q.annotations i))) c
            (t.refers q.annotations) p
            (behaves.replaces_ingress (as_replacement q (with_annotations q.annotations i)) c
              t.in_namespace t.has_name))

  pub apply_ingress-Triple :
      (uid : String) (previous : Option IngressManifest) (o new : Option String)
      (i : IngressManifest)
      → Refers (namespace_of instance) (ingress_name instance) o i
      → Triple view
          (λ x. Consistent x × Held o x × Detached new x)
          (apply_ingress api instance uid previous new i)
          (λ v x. Consistent x × (x.live ≡ o))
          (λ f. Consistent)
  unfolding apply_ingress
  apply_ingress-Triple uid previous o new i t =
      handled-Triple (write_ingress-Triple uid previous o new i t)
        (λ status.
          bind-Triple
            (if-Triple (is_definitive status)
              (λ q.
                weaker-Triple (λ x p. (p.0, p.1 status refl q)) (delete_secret-Triple new)
                  (λ u x g. g) (λ f x g. g))
              (λ q. done-Triple tt (λ x p. p.0)))
            (λ u. fail-Triple _ (λ x g. g)))
        (λ f x p. p.0)
