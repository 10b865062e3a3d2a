-- ===== src/Deployment/Access/Shapes.antt =====
-- The manifests that `access_manifests` answers, by what they create and refer to.
use triton_control.Prelude.{
  ◌≡◌, refl, ap, subst, ◌∙◌, String, Bool, true, false, not, Option, none, some, List, [], ◌∷◌,
  ◌++◌, or_empty, truthy, one_of, take_chars, ◌^^◌, ◌==◌, eq_iff, if◌then◌else◌, Bool-cases, inl,
  inr,
}
use Prim.Native.Char.{Char}
use text.Mathlib.TextLemmas.{nil-append, cons-append}
use triton_control.Prelude.Dict.{
  Dict, lookup, filter_keys, lookup-merge, lookup-merge-none, lookup-filter_keys,
}
use triton_control.Errors.{AppError, bad_request_error, Result, ok, err, ◌>>◌}
use triton_control.Env.{Env}
use triton_control.Deployment.Policy.{DeploymentAccessRequest}
use triton_control.Deployment.Access.Manifests.{
  auth_secret_annotation, middleware_annotation, issuer_annotation, tls_annotation,
  entrypoints_annotation, SecretManifest, MiddlewareManifest, IngressManifest, Manifest,
  secret_kind, middleware_kind, ingress_kind, Random, auth_secret_name, scheme_annotations,
  access_manifests, validate_policy, is_https, cluster_issuer, ingress_of, credential_annotations,
  is_fresh, middleware_of, secret_of,
}
use triton_control.Deployment.Access.Update.{old_secret, is_preserved, with_annotations}
use triton_control.Deployment.Access.Views.{named, referred}

-- With whatever it takes from the Ingress before it, the Ingress refers to the credential.
pub record Refers (namespace ingress : String) (o : Option String) (i : IngressManifest)
    : Type 0 where
  pub in_namespace : i.namespace ≡ namespace
  pub has_name : i.name ≡ ingress
  pub refers : (d : Dict) → referred (with_annotations d i).annotations ≡ o

pub data Shape (namespace ingress : String) (kept : Option String) : List Manifest → Type 0 where
  closed : Shape namespace ingress kept []
  unprotected :
      {i : IngressManifest}
      → Refers namespace ingress none i
      → Shape namespace ingress kept (ingress_kind i ∷ [])
  retaining :
      {m : MiddlewareManifest} {i : IngressManifest}
      → truthy kept ≡ true
      → Refers namespace ingress kept i
      → Shape namespace ingress kept (middleware_kind m ∷ ingress_kind i ∷ [])
  renewing :
      {s : SecretManifest} {m : MiddlewareManifest} {i : IngressManifest}
      → s.namespace ≡ namespace
      → (s.name == "") ≡ false
      → Refers namespace ingress (some s.name) i
      → Shape namespace ingress kept (secret_kind s ∷ middleware_kind m ∷ ingress_kind i ∷ [])

cons_nonempty : (c : Char) (s : String) → ((String.◌∷◌ c s) == "") ≡ false
cons_nonempty c s = elim (Bool-cases ((String.◌∷◌ c s) == "")) [
  | inl p ↦ let e = (eq_iff (String.◌∷◌ c s) "").0 p in cc
  | inr p ↦ p
]

nonempty : (a m r : String) → (m == "") ≡ false → ((a ^^ (m ^^ r)) == "") ≡ false
nonempty String.[] (String.◌∷◌ c m) r p =
    ap (λ t. t == "") (nil-append _ ∙ cons-append c m r) ∙ cons_nonempty c (m ^^ r)
nonempty (String.◌∷◌ b a) m r p =
    ap (λ t. t == "") (cons-append b a (m ^^ r)) ∙ cons_nonempty b (a ^^ (m ^^ r))
nonempty String.[] String.[] r p = cc

named-some : (name : String) → (name == "") ≡ false → named (some name) ≡ some name
named-some name p = rw (p) refl

-- the settings of the scheme have none of the other keys
no_key :
    (https unissued : Bool) (issuer secure plain : String) (key : String)
    → (issuer_annotation == key) ≡ false
    → (tls_annotation == key) ≡ false
    → (entrypoints_annotation == key) ≡ false
    → lookup key (
        if https
        then (if unissued then [] else (issuer_annotation, issuer) ∷ [])
          ++ (tls_annotation, "true") ∷ (entrypoints_annotation, secure) ∷ []
        else (entrypoints_annotation, plain) ∷ [])
      ≡ none
unfolding lookup
no_key true true issuer secure plain key p q r = rw (q, r) refl
no_key true false issuer secure plain key p q r = rw (p, q, r) refl
no_key false unissued issuer secure plain key p q r = rw (r) refl

old_secret-some :
    (d : Dict) (name : String)
    → (name == "") ≡ false
    → lookup auth_secret_annotation d ≡ some name
    → referred d ≡ some name
unfolding referred old_secret
old_secret-some d name p q = rw (q, p) (named-some name p)

old_secret-none :
    (d : Dict)
    → lookup auth_secret_annotation d ≡ none
    → lookup "nginx.ingress.kubernetes.io/auth-secret" d ≡ none
    → referred d ≡ none
unfolding referred old_secret
old_secret-none d p q = rw (p, q) refl

ok-injective : {V : Type 0} (a b : V) → ◌≡◌ {A = Result V} (ok a) (ok b) → a ≡ b
ok-injective a b p = ap (λ r. elim r [ ok v ↦ v | err e ↦ a ]) p

kept-Shape :
    {namespace ingress : String} (t : String) (empty : Bool) (n : MiddlewareManifest) (e : AppError)
    {j : IngressManifest} {ms : List Manifest}
    → (t == "") ≡ empty
    → ((t == "") ≡ false → Refers namespace ingress (some t) j)
    → (if not empty then ok (middleware_kind n ∷ ingress_kind j ∷ []) else err e) ≡ ok ms
    → Shape namespace ingress (some t) ms
kept-Shape t true n e q d p = cc
kept-Shape {namespace} {ingress} t false n e q d p =
    subst (Shape namespace ingress (some t)) (ok-injective _ _ p) (retaining (ap not q) (d q))

-- the branches of `access_manifests`
branches-Shape :
    {namespace ingress : String} (r : Result (Unit {0})) (exposes protects fresh : Bool)
    (kept : Option String) (n : MiddlewareManifest) (m : String → MiddlewareManifest)
    (k : String → IngressManifest) (s : SecretManifest) (e : AppError) {i j : IngressManifest}
    {ms : List Manifest}
    → Refers namespace ingress none i
    → s.namespace ≡ namespace
    → (s.name == "") ≡ false
    → Refers namespace ingress (some s.name) j
    → ((text : String) → (text == "") ≡ false → Refers namespace ingress (some text) (k text))
    → (r
        >> (if not exposes
            then ok []
            else if not protects
            then ok (ingress_kind i ∷ [])
            else if fresh
            then ok (secret_kind s ∷ middleware_kind n ∷ ingress_kind j ∷ [])
            else if truthy kept
            then ok (middleware_kind (m (or_empty kept)) ∷ ingress_kind (k (or_empty kept)) ∷ [])
            else err e))
      ≡ ok ms
    → Shape namespace ingress kept ms
branches-Shape (err x) exposes protects fresh kept n m k s e a h b c d p = cc
branches-Shape {namespace} {ingress} (ok u) false protects fresh kept n m k s e a h b c d p =
    subst (Shape namespace ingress kept) (ok-injective _ _ p) closed
branches-Shape {namespace} {ingress} (ok u) true false fresh kept n m k s e a h b c d p =
    subst (Shape namespace ingress kept) (ok-injective _ _ p) (unprotected a)
branches-Shape {namespace} {ingress} (ok u) true true true kept n m k s e a h b c d p =
    subst (Shape namespace ingress kept) (ok-injective _ _ p) (renewing h b c)
branches-Shape (ok u) true true false none n m k s e a h b c d p = cc
branches-Shape {namespace} {ingress} (ok u) true true false (some t) n m k s e a h b c d p =
    kept-Shape t (t == "") (m t) e refl (d t) p

middleware_key :
    (value : String) (d : Dict)
    → lookup auth_secret_annotation d ≡ none
    → lookup auth_secret_annotation ((middleware_annotation, value) ∷ d) ≡ none
unfolding lookup
middleware_key value d p = p

module _ ⦃env : Env⦄ (random : Random) (request : DeploymentAccessRequest)
    (namespace deployment_name : String) where
  auth_secret_name-nonempty : (auth_secret_name random deployment_name == "") ≡ false
  unfolding auth_secret_name
  auth_secret_name-nonempty = nonempty (take_chars 32 deployment_name) "-" _ refl

  scheme_key :
      (key : String)
      → (issuer_annotation == key) ≡ false
      → (tls_annotation == key) ≡ false
      → (entrypoints_annotation == key) ≡ false
      → lookup key (scheme_annotations request) ≡ none
  unfolding scheme_annotations
  scheme_key key p q r = no_key (is_https request) (cluster_issuer == "") _ _ _ key p q r

  -- an Ingress without a credential
  plain_Refers :
      (service_name : String) (allow_metrics : Bool)
      → Refers namespace
          (deployment_name ^^ "-ingress")
          none
          (ingress_of random request namespace deployment_name service_name allow_metrics [])
  unfolding with_annotations one_of
  plain_Refers service_name allow_metrics = record {
    in_namespace = refl;
    has_name = refl;
    refers = λ d.
        old_secret-none _
          (lookup-merge-none auth_secret_annotation _ _
              (scheme_key auth_secret_annotation refl refl refl)
            ∙ lookup-filter_keys _ auth_secret_annotation d refl)
          (lookup-merge-none _ _ _
              (scheme_key "nginx.ingress.kubernetes.io/auth-secret" refl refl refl)
            ∙ lookup-filter_keys _ "nginx.ingress.kubernetes.io/auth-secret" d refl);
  }

  -- one with a credential
  credential_Refers :
      (service_name : String) (allow_metrics : Bool) (name : String)
      → (name == "") ≡ false
      → Refers namespace (deployment_name ^^ "-ingress") (some name) (
          ingress_of random request namespace deployment_name service_name allow_metrics
            (credential_annotations random request namespace deployment_name name))
  unfolding with_annotations
  credential_Refers service_name allow_metrics name p = record {
    in_namespace = refl;
    has_name = refl;
    refers = λ d. old_secret-some _ name p (
        lookup-merge auth_secret_annotation name (filter_keys is_preserved d) _ (
          middleware_key (namespace ^^ "-" ^^ name ^^ "@kubernetescrd") (scheme_annotations request)
            (scheme_key auth_secret_annotation refl refl refl)));
  }

  pub access_manifests-Shape :
      (service_name : String) (kept : Option String) (allow_metrics : Bool) (ms : List Manifest)
      → access_manifests random request namespace deployment_name service_name kept allow_metrics
        ≡ ok ms
      → Shape namespace (deployment_name ^^ "-ingress") kept ms
  unfolding access_manifests
  access_manifests-Shape service_name kept allow_metrics ms p =
      branches-Shape (validate_policy request false) (truthy request.ingress_host)
        request.basic_auth_enabled (is_fresh random request namespace deployment_name) kept
        (middleware_of random request namespace deployment_name
          (auth_secret_name random deployment_name))
        (λ t. middleware_of random request namespace deployment_name t)
        (λ t.
          ingress_of random request namespace deployment_name service_name allow_metrics
            (credential_annotations random request namespace deployment_name t))
        (secret_of random request namespace deployment_name
          (auth_secret_name random deployment_name))
        (bad_request_error "Username and password are required when enabling basic authentication")
        (plain_Refers service_name allow_metrics) refl auth_secret_name-nonempty
        (credential_Refers service_name allow_metrics _ auth_secret_name-nonempty)
        (λ k q. credential_Refers service_name allow_metrics k q) p
