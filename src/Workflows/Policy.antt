-- ===== src/Workflows/Policy.antt =====
-- services/workflows/tracking_policy.py: a workflow of a user is accepted if it refers to no
-- credential but the user's own. `yaml.safe_load` is a parameter, and the fuel is the depth of
-- nested patches, behind which Python's recursion limit lies.
pub mod Occurrence
pub mod Entries
pub mod Soundness
pub mod Ends
pub mod Depth
use triton_control.Prelude.{
  ℕ, zero, suc, String, Bool, true, false, not, ◌&&◌, ◌||◌, Option, none, some, List, [], ◌∷◌,
  one_of, upper, split, strip, lstrip_by, rstrip_by, beq, leb, starts_with, ends_with, has_part,
  ◌==◌, if◌then◌else◌, code,
}
use Prim.Native.String
use triton_control.Errors.{
  AppError, Result, ok, err, bad_request_error, forbidden_error, uncaught, reject_if, ◌>>=◌, ◌>>◌,
}
use triton_control.Env.{Env, getenv_or}
use triton_control.Json.{
  Json, null, bool, num, str, arr, obj, Items, nil, cons, Fields, end, field, get, has_key, value,
  is_truthy, is_text, has_text,
}

-- REPOSITORY_KEY
abbrev pub repository_key : String
repository_key = "repository"

-- the answer of `yaml.safe_load`; `malformed` stands for a `YAMLError`
pub data Loaded : Type 0 where
  document : Json → Loaded
  malformed : Loaded

abbrev pub is_slug_char : ℕ → Bool
is_slug_char n = (leb 97 n && leb n 122) || (leb 48 n && leb n 57) || beq n 45

-- [a-z0-9-]*
unfoldable pub is_slug : String → Bool
is_slug String.[] = true
is_slug (String.◌∷◌ c s) = is_slug_char (code c) && is_slug s

-- api/v1/workflows/[a-z0-9-]+
unfoldable pub is_collection : List String → Bool
unfolding is_slug
is_collection (api ∷ v ∷ kind ∷ name ∷ []) =
    api == "api" && v == "v1" && kind == "workflows" && is_slug name && not (name == "")
is_collection _ = false

-- api/v1/workflows/[a-z0-9-]+/[a-z0-9-]+/(suspend|resume|terminate|stop)
unfoldable pub is_action : List String → Bool
unfolding is_slug
is_action (api ∷ v ∷ kind ∷ name ∷ workflow ∷ verb ∷ []) =
    api == "api"
    && v == "v1"
    && kind == "workflows"
    && is_slug name
    && not (name == "")
    && is_slug workflow
    && not (workflow == "")
    && one_of verb ("suspend" ∷ "resume" ∷ "terminate" ∷ "stop" ∷ [])
is_action _ = false

unfoldable pub validate_proxy_write : (method path : String) → Result (Unit {0})
unfolding is_collection is_action
validate_proxy_write method path =
    let parts = split b'/' (rstrip_by (beq b'/') (lstrip_by (beq b'/') path)) in
    reject_if
      (not (one_of (upper method) ("GET" ∷ "HEAD" ∷ "OPTIONS" ∷ "DELETE" ∷ []))
        && not (upper method == "POST" && is_collection parts)
        && not (upper method == "PUT" && is_action parts))
      (forbidden_error
        "Submit an inline Workflow through Triton Control to use managed MLflow tracking")

abbrev pub type_error : AppError
type_error = uncaught "TypeError"

abbrev pub attribute_error : AppError
attribute_error = uncaught "AttributeError"

-- key in value
unfoldable pub mentions : String → Json → Result Bool
mentions key (obj fs) = ok (has_key key fs)
mentions key (arr vs) = ok (has_text key vs)
mentions key (str s) = ok (has_part key s)
mentions key _ = err type_error

-- value or {}
abbrev pub or_object : Json → Json
or_object v = if is_truthy v then v else obj end

-- isinstance(item, dict) and "name" in item
abbrev pub is_named : Json → Bool
is_named (obj fs) = has_key "name" fs
is_named _ = false

-- isinstance(item, dict) and item.get("add")
abbrev pub adds : Json → Bool
adds (obj fs) = is_truthy (value "add" fs)
adds _ = false

module _ (allowed_secrets : List String) where
  -- `secret`: lists and dictionaries have no hash
  unfoldable pub secret : Json → Result (Unit {0})
  secret (str s) =
      reject_if (not (one_of s allowed_secrets))
        (forbidden_error "Workflow may reference only the submitting user's linked S3 secrets")
  secret (arr vs) = err type_error
  secret (obj fs) = err type_error
  secret _ =
      err (forbidden_error "Workflow may reference only the submitting user's linked S3 secrets")

  -- secret(item.get("name"))
  unfoldable pub secret_name_of : Json → Result (Unit {0})
  unfolding secret
  secret_name_of (obj fs) = secret (value "name" fs)
  secret_name_of _ = err attribute_error

  unfoldable pub each_secret : Items → Result (Unit {0})
  unfolding secret_name_of
  each_secret nil = ok tt
  each_secret (cons v vs) = let rest = each_secret vs in secret_name_of v >> rest

  -- for reference in item: secret(reference.get("name")); texts and keys have no `get`
  unfoldable pub pull_secrets : Json → Result (Unit {0})
  unfolding each_secret
  pull_secrets (arr vs) = each_secret vs
  pull_secrets (obj end) = ok tt
  pull_secrets (obj (field k v fs)) = err attribute_error
  pull_secrets (str s) = if s == "" then ok tt else err attribute_error
  pull_secrets _ = err type_error

  -- the name is an allowed text, and the key that of the managed repositories
  abbrev pub is_own : (config_map key : Json) → Bool
  is_own (str s) key = one_of s allowed_secrets && is_text repository_key key
  is_own _ key = false

  unfoldable pub is_own_repository : Json → Bool
  is_own_repository (obj fs) = is_own (value "configMap" fs) (value "key" fs)
  is_own_repository _ = false

  module _ (safe_load : String → Loaded) (patch : Json → Result (Unit {0})) where
    unfoldable pub visit_loaded : Loaded → Result (Unit {0})
    visit_loaded (document v) = patch v
    visit_loaded malformed = err (bad_request_error "Invalid workflow podSpecPatch")

    -- the branch for `podSpecPatch`
    unfoldable pub visit_patch : Json → Result (Unit {0})
    unfolding visit_loaded
    visit_patch (str s) =
        reject_if (has_part "{{" s)
          (forbidden_error "Managed workflows require literal podSpecPatch values")
        >> visit_loaded (safe_load s)
    visit_patch _ = err (forbidden_error "Managed workflows require literal podSpecPatch values")

    -- the chain of `if` and `elif` on secrets
    unfoldable pub check_reference : String → Json → Result (Unit {0})
    unfolding visit_patch secret_name_of secret pull_secrets
    check_reference key item =
        if key == "podSpecPatch"
        then visit_patch item
        else if one_of key ("secretKeyRef" ∷ "secretRef" ∷ [])
            || (ends_with "Secret" key && is_named item)
        then secret_name_of item
        else if key == "secretName"
        then secret item
        else if key == "imagePullSecrets"
        then pull_secrets item
        else if key == "secret" && is_named item
        then secret_name_of item
        else reject_if (key == "persistentVolumeClaim")
            (forbidden_error "Use workflow volumeClaimTemplates instead of existing volume claims")

    module _ (service_account : String) where
      -- the checks of `visit` on one item of a dictionary
      unfoldable pub check_field : String → Json → Result (Unit {0})
      unfolding check_reference is_own_repository
      check_field key item = do
        reject_if (key == "artifactRepositoryRef" && not (is_own_repository item)) (
            forbidden_error
              "Workflow may reference only the submitting user's linked S3 repositories")
        reject_if (key == "serviceAccountName" && not (is_text service_account item))
            (forbidden_error "Workflow must use the configured executor ServiceAccount")
        reject_if
            (one_of key ("hostNetwork" ∷ "hostPID" ∷ "hostIPC" ∷ "privileged" ∷ [])
              && is_truthy item)
            (forbidden_error "Managed workflows cannot access the host")
        reject_if
            (one_of key ("hostPath" ∷ "csi" ∷ "resource" ∷ "templateRef" ∷ "containerSet" ∷ []))
            (forbidden_error
              "Managed MLflow workflows require unprivileged inline container/script templates")
        reject_if (key == "capabilities" && adds item)
            (forbidden_error "Managed workflows cannot add Linux capabilities")
        check_reference key item

      unfoldable mutual
        unfolding check_field

        pub visit_value : Json → Result (Unit {0})
        visit_value (arr vs) = visit_items vs
        visit_value (obj fs) = visit_fields fs
        visit_value _ = ok tt

        pub visit_items : Items → Result (Unit {0})
        visit_items nil = ok tt
        visit_items (cons v vs) = visit_value v >> visit_items vs

        pub visit_fields : Fields → Result (Unit {0})
        visit_fields end = ok tt
        visit_fields (field key item rest) =
            check_field key item >> (visit_value item >> visit_fields rest)

  -- `visit`, to a depth of nested patches
  unfoldable pub visit : String → (String → Loaded) → ℕ → Json → Result (Unit {0})
  unfolding visit_value
  visit account safe_load zero v =
      visit_value safe_load (λ _. err (uncaught "RecursionError")) account v
  visit account safe_load (suc depth) v =
      visit_value safe_load (visit account safe_load depth) account v

-- "…owner-user-id" in metadata.get("annotations", {})
unfoldable pub claims_owner : Json → Result Bool
unfolding mentions
claims_owner (obj fs) = elim (get "annotations" fs) [
  | none ↦ ok false
  | some v ↦ mentions "triton-control.ai/mlflow-owner-user-id" v
]
claims_owner _ = err attribute_error

unfoldable pub validate_workflow :
    ⦃env : Env⦄
    → ℕ
    → (String → Loaded)
    → (workflow : Fields) (allowed_secrets : List String) → Result (Unit {0})
unfolding visit claims_owner mentions
validate_workflow depth safe_load workflow allowed_secrets = do
  let service_account = getenv_or "ARGO_WORKFLOWS_WORKFLOW_SERVICE_ACCOUNT" "argo-service-account"
  let spec = or_object (value "spec" workflow)
  templated ← mentions "workflowTemplateRef" spec
  reject_if templated (bad_request_error "Managed MLflow workflows require inline templates")
  owned ← claims_owner (or_object (value "metadata" workflow))
  reject_if owned (forbidden_error "MLflow workflow owner is managed by Triton Control")
  visit allowed_secrets service_account safe_load depth spec
