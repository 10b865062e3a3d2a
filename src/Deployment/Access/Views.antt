-- ===== src/Deployment/Access/Views.antt =====
-- What matters of a cluster for the credentials of one deployment, and what the Kubernetes API
-- documents of the calls: which of them change what, and which failures mean that nothing changed.
use triton_control.Prelude.{
  ◌≡◌, ◌⊎◌, String, Bool, true, false, Option, none, some, ◌==◌, if◌then◌else◌,
}
use triton_control.Prelude.Dict.{Dict}
use triton_control.Deployment.Access.Manifests.{SecretManifest, MiddlewareManifest, IngressManifest}
use triton_control.Deployment.Access.Api.{
  api_exception, Outcome, returned, failed, Secret, Call, Api,
}
use triton_control.Deployment.Access.Update.{old_secret, is_definitive}

-- The credential that the live Ingress of the deployment refers to, and which Secrets there are in
-- its namespace.
pub record View : Type 0 where
  pub live : Option String
  pub present : String → Bool

-- an empty name is none
abbrev pub named : Option String → Option String
named none = none
named (some s) = if s == "" then none else some s

unfoldable pub referred : Dict → Option String
unfolding old_secret
referred annotations = named (old_secret annotations)

abbrev pub set_live : Option String → View → View
set_live o v = record v { live = o }

-- an Ingress was written, unless the call was definitively rejected; another failure leaves it open
abbrev pub Written : (o : Option String) (before : View) → Outcome (Unit {0}) → View → Type 0
Written o before (returned u) now = now ≡ set_live o before
Written o before (failed (api_exception status)) now =
    (now ≡ before) ⊎ ((is_definitive status ≡ false) × (now ≡ set_live o before))
Written o before (failed _) now = (now ≡ before) ⊎ (now ≡ set_live o before)

abbrev pub forget : {V : Type 0} → Outcome V → Outcome (Unit {0})
forget (returned v) = returned tt
forget (failed f) = failed f

-- a Secret that was not there was created; a failure leaves it open, and the others stay
abbrev pub Created : String → (before : View) → Outcome (Unit {0}) → View → Type 0
Created name before r now =
    (now.live ≡ before.live)
    × ((other : String) → before.present other ≡ true → now.present other ≡ true)
    × (r ≡ returned tt → (before.present name ≡ false) × (now.present name ≡ true))

-- no Secret but the one is deleted
abbrev pub Deleted : String → (before now : View) → Type 0
Deleted name before now =
    (now.live ≡ before.live)
    × ((other : String) → (other == name) ≡ false → now.present other ≡ before.present other)

module _ {C : Type 0} where
  abbrev pub Untouched : {V : Type 0} → (C → View) → Call C V → Type 0
  Untouched view f = (c : C) → view (f c).1 ≡ view c

  -- for the namespace and the Ingress of one deployment
  pub record Behaves (api : Api C) (namespace ingress : String) (view : C → View) : Type 0 where
    pub connects : Untouched view api.api_client
    pub reads_class : (name : String) → Untouched view (api.read_ingress_class name)
    pub reads_deployment :
        (name : String) → Untouched view (api.read_namespaced_deployment namespace name)
    pub lists : Untouched view api.list_ingress_for_all_namespaces
    pub reads_ingress : Untouched view (api.read_namespaced_ingress namespace ingress)
    pub reads_live :
        (c : C) (i : IngressManifest)
        → (api.read_namespaced_ingress namespace ingress c).0 ≡ returned i
        → (view c).live ≡ referred i.annotations
    pub reads_missing :
        (c : C)
        → (api.read_namespaced_ingress namespace ingress c).0 ≡ failed (api_exception 404)
        → (view c).live ≡ none
    pub reads_secret : (name : String) → Untouched view (api.read_namespaced_secret namespace name)
    pub reads_present :
        (name : String) (c : C) (s : Secret)
        → (api.read_namespaced_secret namespace name c).0 ≡ returned s
        → (view c).present name ≡ true
    pub reads_uid : (name : String) → Untouched view (api.read_secret_uid namespace name)
    pub reads_middleware : (name : String) → Untouched view (api.read_middleware namespace name)
    pub creates_middleware : (m : MiddlewareManifest) → Untouched view (api.create_middleware m)
    pub creates_secret :
        (m : SecretManifest) (c : C)
        → m.namespace ≡ namespace
        → Created m.name
            (view c)
            (api.create_namespaced_secret m c).0
            (view (api.create_namespaced_secret m c).1)
    pub deletes_secret :
        (name : String) (c : C)
        → Deleted name (view c) (view (api.delete_namespaced_secret namespace name c).1)
    pub creates_ingress :
        (m : IngressManifest) (c : C)
        → m.namespace ≡ namespace
        → m.name ≡ ingress
        → Written
            (referred m.annotations)
            (view c)
            (forget (api.create_namespaced_ingress m c).0)
            (view (api.create_namespaced_ingress m c).1)
    pub replaces_ingress :
        (m : IngressManifest) (c : C)
        → m.namespace ≡ namespace
        → m.name ≡ ingress
        → Written
            (referred m.annotations)
            (view c)
            (forget (api.replace_namespaced_ingress m c).0)
            (view (api.replace_namespaced_ingress m c).1)
    pub deletes_ingress :
        (version : Option String) (c : C)
        → Written none
            (view c)
            (api.delete_namespaced_ingress namespace ingress version c).0
            (view (api.delete_namespaced_ingress namespace ingress version c).1)
