-- ===== src/Workflows/Policy/Occurrence.antt =====
-- Where a key with its item stands in a workflow, also behind patches, and what such an item may be.
use triton_control.Prelude.{◌≡◌, ◌≢◌, ◌⊎◌, String, true, false, List, [], ◌∷◌, one_of, ends_with}
use triton_control.Json.{Json, str, arr, obj, Items, nil, cons, Fields, field, value, is_truthy}
use triton_control.Workflows.Policy.{Loaded, document, is_named, adds, repository_key}

-- The item stands under the key in the document, in one that it holds, or in one that a patch is
-- the text of.
mutual
  pub data Occurs (safe_load : String → Loaded) (key : String) (item : Json) : Json → Type 0 where
    in_array : {vs : Items} → OccursItems safe_load key item vs → Occurs safe_load key item (arr vs)
    in_object :
        {fs : Fields} → OccursFields safe_load key item fs → Occurs safe_load key item (obj fs)

  pub data OccursItems (safe_load : String → Loaded) (key : String) (item : Json)
      : Items → Type 0 where
    here :
        {v : Json} {vs : Items}
        → Occurs safe_load key item v
        → OccursItems safe_load key item (cons v vs)
    later :
        {v : Json} {vs : Items}
        → OccursItems safe_load key item vs
        → OccursItems safe_load key item (cons v vs)

  pub data OccursFields (safe_load : String → Loaded) (key : String) (item : Json)
      : Fields → Type 0 where
    this :
        {k : String} {v : Json} {fs : Fields}
        → k ≡ key
        → v ≡ item
        → OccursFields safe_load key item (field k v fs)
    inside :
        {k : String} {v : Json} {fs : Fields}
        → Occurs safe_load key item v
        → OccursFields safe_load key item (field k v fs)
    patched :
        {k : String} {v w : Json} {fs : Fields} (text : String)
        → k ≡ "podSpecPatch"
        → v ≡ str text
        → safe_load text ≡ document w
        → Occurs safe_load key item w
        → OccursFields safe_load key item (field k v fs)
    other :
        {k : String} {v : Json} {fs : Fields}
        → OccursFields safe_load key item fs
        → OccursFields safe_load key item (field k v fs)

module _ (allowed_secrets : List String) where
  -- the text of an allowed name
  abbrev pub Allowed : Json → Type 0
  Allowed v = (name : String) × (v ≡ str name) × (one_of name allowed_secrets ≡ true)

  -- a dictionary whose `name` is allowed
  abbrev pub NamesAllowed : Json → Type 0
  NamesAllowed v = (fs : Fields) × (v ≡ obj fs) × Allowed (value "name" fs)

  abbrev pub EachNamesAllowed : Items → Type 0
  EachNamesAllowed nil = Unit
  EachNamesAllowed (cons v vs) = NamesAllowed v × EachNamesAllowed vs

  -- What an accepted workflow has under each key.
  pub record IsConfined (service_account key : String) (item : Json) : Type 0 where
    pub unprivileged :
        one_of key ("hostPath" ∷ "csi" ∷ "resource" ∷ "templateRef" ∷ "containerSet" ∷ []) ≡ false
    pub no_claim : key ≢ "persistentVolumeClaim"
    pub account : key ≡ "serviceAccountName" → item ≡ str service_account
    pub off_host :
        one_of key ("hostNetwork" ∷ "hostPID" ∷ "hostIPC" ∷ "privileged" ∷ []) ≡ true
        → is_truthy item ≡ false
    pub no_capability : key ≡ "capabilities" → adds item ≡ false
    pub own_volume : key ≡ "secretName" → Allowed item
    pub own_key : key ≡ "secretKeyRef" → NamesAllowed item
    pub own_environment : key ≡ "secretRef" → NamesAllowed item
    pub own_secret : key ≡ "secret" → is_named item ≡ true → NamesAllowed item
    pub own_suffix : ends_with "Secret" key ≡ true → is_named item ≡ true → NamesAllowed item
    pub own_pulls :
        key ≡ "imagePullSecrets"
        → ((vs : Items) × (item ≡ arr vs) × EachNamesAllowed vs) ⊎ (is_truthy item ≡ false)
    pub own_repository :
        key ≡ "artifactRepositoryRef"
        → (fs : Fields) × (item ≡ obj fs)
          × Allowed (value "configMap" fs)
          × (value "key" fs ≡ str repository_key)
