-- ===== src/Tests/Credentials.antt =====
-- A change of exposure in a cluster with one Ingress and its Secrets.
use triton_control.Prelude.{
  ◌≡◌, refl, ap, subst, or_empty, has_char, before, normal, take_chars, one_of, String, Bool, true,
  false, some, none, Option, [], ◌∷◌, ◌==◌, eq_refl, if◌then◌else◌,
}
use triton_control.Prelude.Dict.{lookup}
use triton_control.Store.Data.{TritonInstanceEntity}
use triton_control.Store.Session.{modify}
use triton_control.Deployment.Hostname.{missing, validate_hostname_available}
use triton_control.Deployment.Policy.{DeploymentAccessRequest}
use triton_control.Deployment.Access.Manifests.{
  scheme_annotations, Random, IngressManifest, SecretManifest,
}
use triton_control.Deployment.Access.Api.{
  Api, Call, Outcome, returned, failed, api_exception, Secret, ◌>>=◌, call, on_api_exception, check,
  done, translated, database,
}
use triton_control.Deployment.Access.Reads.{annotations_of}
use triton_control.Deployment.Access.Views.{View, Behaves, referred, Created}
use triton_control.Deployment.Access.Update.{change_access}
use triton_control.Deployment.Access.Writes.{Consistent}
use triton_control.Deployment.Access.Credentials.{change_access-Consistent}
use triton_control.Tests.{test_env, world}

record Cluster : Type 0 where
  live : Option IngressManifest
  secrets : String → Bool

abbrev read : {V : Type 0} → V → Call Cluster V
read v c = (returned v, c)

-- a Secret of the deployment that is there
abbrev secret_at : Bool → Outcome Secret
secret_at true = returned (record {
  owner = some "model";
  users = some "ada:hash";
  kind = "Opaque";
  tls_crt = none;
  tls_key = none;
})
secret_at false = failed (api_exception 404)

abbrev ingress_at : Option IngressManifest → Outcome IngressManifest
ingress_at none = failed (api_exception 404)
ingress_at (some i) = returned i

abbrev with_secret : String → Bool → Cluster → Cluster
with_secret name b c = record c { secrets = λ n. if n == name then b else c.secrets n }

abbrev create : Bool → SecretManifest → Call Cluster (Unit {0})
create true m c = (failed (api_exception 409), c)
create false m c = (returned tt, with_secret m.name true c)

abbrev write : IngressManifest → Call Cluster IngressManifest
write i c = (returned i, record c { live = some i })

abbrev client : Api Cluster
client = record {
  api_client = read tt;
  read_ingress_class = λ name. read "traefik.io/ingress-controller";
  read_namespaced_deployment = λ namespace name. read "uid";
  read_namespaced_ingress = λ namespace name c. (ingress_at c.live, c);
  list_ingress_for_all_namespaces = read [];
  class_lookup = λ c name. missing;
  create_namespaced_ingress = write;
  replace_namespaced_ingress = write;
  delete_namespaced_ingress = λ namespace name version c. (returned tt, record c { live = none });
  read_namespaced_secret = λ namespace name c. (secret_at (c.secrets name), c);
  read_secret_uid = λ namespace name. read "uid";
  create_namespaced_secret = λ m c. create (c.secrets m.name) m c;
  delete_namespaced_secret = λ namespace name c. (returned tt, with_secret name false c);
  read_middleware = λ namespace name. read (record { owner = none; spec = none });
  create_middleware = λ m. read tt;
}

abbrev seen : Cluster → View
seen c = record { live = referred (annotations_of c.live); present = c.secrets }

kept : (a b : Bool) → b ≡ true → (if a then true else b) ≡ true
kept true b p = refl
kept false b p = p

live_of :
    (l : Option IngressManifest) (i : IngressManifest)
    → ingress_at l ≡ returned i
    → referred (annotations_of l) ≡ referred i.annotations
live_of none i p = cc
live_of (some j) i p =
    ap
      (λ (o : Outcome IngressManifest). elim o [
        | returned k ↦ referred k.annotations
        | failed f ↦ none
      ])
      p

missing_of :
    (l : Option IngressManifest)
    → ingress_at l ≡ failed (api_exception 404)
    → referred (annotations_of l) ≡ none
unfolding referred lookup
missing_of none p = refl
missing_of (some j) p = cc

present_of : (b : Bool) (s : Secret) → secret_at b ≡ returned s → b ≡ true
present_of true s p = refl
present_of false s p = cc

Created-Created :
    (m : SecretManifest) (b : Bool) (c : Cluster)
    → c.secrets m.name ≡ b
    → Created m.name (seen c) (create b m c).0 (seen (create b m c).1)
Created-Created m true c p = (refl, λ other q. q, λ q. cc)
Created-Created m false c p = (
  refl,
  λ other q. kept (other == m.name) (c.secrets other) q,
  λ q. (p, rw (eq_refl m.name) refl),
)

client-Behaves : (namespace ingress : String) → Behaves client namespace ingress seen
unfolding referred lookup
client-Behaves namespace ingress = record {
  connects = λ c. refl;
  reads_class = λ name c. refl;
  reads_deployment = λ name c. refl;
  lists = λ c. refl;
  reads_ingress = λ c. refl;
  reads_live = λ c i. live_of c.live i;
  reads_missing = λ c. missing_of c.live;
  reads_secret = λ name c. refl;
  reads_present = λ name c s. present_of (c.secrets name) s;
  reads_uid = λ name c. refl;
  reads_middleware = λ name c. refl;
  creates_middleware = λ m c. refl;
  creates_secret = λ m c h. Created-Created m (c.secrets m.name) c refl;
  deletes_secret = λ name c. (refl, λ other p. rw (p) refl);
  creates_ingress = λ m c h k. refl;
  replaces_ingress = λ m c h k. refl;
  deletes_ingress = λ version c. refl;
}

abbrev instance : TritonInstanceEntity
instance = record {
  id = 1;
  name = "model";
  url = "http://model.apps.svc.cluster.local:18000";
  metrics_url = none;
  is_self_deployed = true;
  deployment_namespace = some "apps";
  deployment_name = some "model";
  deployment_service_name = some "model";
}

abbrev exposed : IngressManifest
exposed = record {
  name = "model-ingress";
  namespace = "apps";
  labels = [];
  annotations = ("triton-control.io/auth-secret", "old") ∷ [];
  owner_references = [];
  finalizers = [];
  resource_version = some "1";
  ingress_class_name = some "traefik";
  rules =
      record {
        host = some "model.example.com";
        paths = record { path = "/"; service = some "model"; port = "http" } ∷ [];
      }
      ∷ [];
  tls = [];
}

abbrev before_change : Cluster
before_change = record { live = some exposed; secrets = λ name. name == "old" }

-- new credentials for the same host
abbrev renewal : DeploymentAccessRequest
renewal = record {
  access_mode = none;
  ingress_host = some "model";
  ingress_scheme = none;
  basic_auth_enabled = true;
  basic_auth_username = some "ada";
  basic_auth_password = some "secret";
}

abbrev random : Random
random = record { uuid_hex = "0123456789"; hashpw = λ password. "hash" }

old_there :
    (name : String) → ◌≡◌ {A = Option String} (some "old") (some name) → (name == "old") ≡ true
old_there name p = subst (λ (o : Option String). (or_empty o == "old") ≡ true) p refl

initially : Consistent (seen before_change)
unfolding referred lookup
initially = record { there = old_there }

change_access-Consistent_example :
    Consistent
      (seen (change_access client random renewal instance none (world true, before_change)).1.1)
change_access-Consistent_example =
    change_access-Consistent client seen instance (client-Behaves "apps" "model-ingress") random
      renewal none (world true, before_change) initially

-- the new credential is referred to, and the old one is gone
renewed :
    (seen (change_access client random renewal instance none (world true, before_change)).1.1).live
    ≡ some "model-model-auth-01234567"
unfolding change_access referred ◌>>=◌ call on_api_exception check done has_char before normal
    translated validate_hostname_available take_chars database modify scheme_annotations one_of
renewed = refl
