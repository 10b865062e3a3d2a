-- ===== src/Workflows/Policy/Soundness.antt =====
-- A workflow that `validate_workflow` accepts is confined.
use triton_control.Prelude.{ℕ, zero, suc, ◌≡◌, subst, String, List}
use triton_control.Errors.{Result, ok, err, uncaught, ◌>>◌}
use triton_control.Env.{Env, getenv_or}
use triton_control.Json.{
  Json, null, bool, num, str, arr, obj, Items, nil, cons, Fields, end, field, value,
}
use triton_control.Workflows.Policy.{
  Loaded, check_field, visit_value, visit_items, visit_fields, visit, or_object, validate_workflow,
  mentions, claims_owner,
}
use triton_control.Workflows.Policy.Occurrence.{
  Occurs, in_array, in_object, OccursItems, here, later, OccursFields, this, inside, patched, other,
  IsConfined,
}
use triton_control.Workflows.Policy.Entries.{
  >>-ok, last_check, reference, patch_text, field-IsConfined, Checks, Passes,
}

module _ (allowed_secrets : List String) where
  module _ (safe_load : String → Loaded) (patch : Json → Result (Unit {0})) where
    module _ (account : String) where
      -- an object's first item has passed, and so have the ones that it holds and the rest
      visited_field :
          (k : String) (v : Json) (rest : Fields)
          → visit_fields allowed_secrets safe_load patch account (field k v rest) ≡ ok tt
          → Passes allowed_secrets safe_load patch account k v
            × (visit_value allowed_secrets safe_load patch account v ≡ ok tt)
            × (visit_fields allowed_secrets safe_load patch account rest ≡ ok tt)
      unfolding visit_fields
      visited_field k v rest p =
          let p0 =
            >>-ok (check_field allowed_secrets safe_load patch account k v)
              (visit_value allowed_secrets safe_load patch account v
                >> visit_fields allowed_secrets safe_load patch account rest)
              tt p in
          let p1 =
            >>-ok (visit_value allowed_secrets safe_load patch account v)
              (visit_fields allowed_secrets safe_load patch account rest) tt p0.1 in
          (p0.0, p1.0, p1.1)

      visited_item :
          (v : Json) (vs : Items)
          → visit_items allowed_secrets safe_load patch account (cons v vs) ≡ ok tt
          → (visit_value allowed_secrets safe_load patch account v ≡ ok tt)
            × (visit_items allowed_secrets safe_load patch account vs ≡ ok tt)
      unfolding visit_items
      visited_item v vs p = >>-ok (visit_value allowed_secrets safe_load patch account v) _ tt p

      module _ (key : String) (item : Json)
          (in_patch : (w : Json)
            → patch w ≡ ok tt
            → Occurs safe_load key item w
            → IsConfined allowed_secrets account key item) where
        mutual
          unfolding visit_value

          pub value-IsConfined :
              (v : Json)
              → visit_value allowed_secrets safe_load patch account v ≡ ok tt
              → Occurs safe_load key item v
              → IsConfined allowed_secrets account key item
          value-IsConfined null p o = elim o [ ]
          value-IsConfined (bool b) p o = elim o [ ]
          value-IsConfined (num n) p o = elim o [ ]
          value-IsConfined (str t) p o = elim o [ ]
          value-IsConfined (arr vs) p (in_array o) = items-IsConfined vs p o
          value-IsConfined (obj fs) p (in_object o) = fields-IsConfined fs p o

          items-IsConfined :
              (vs : Items)
              → visit_items allowed_secrets safe_load patch account vs ≡ ok tt
              → OccursItems safe_load key item vs
              → IsConfined allowed_secrets account key item
          items-IsConfined nil p o = elim o [ ]
          items-IsConfined (cons v vs) p (here o) = value-IsConfined v (visited_item v vs p).0 o
          items-IsConfined (cons v vs) p (later o) = items-IsConfined vs (visited_item v vs p).1 o

          fields-IsConfined :
              (fs : Fields)
              → visit_fields allowed_secrets safe_load patch account fs ≡ ok tt
              → OccursFields safe_load key item fs
              → IsConfined allowed_secrets account key item
          fields-IsConfined end p o = elim o [ ]
          fields-IsConfined (field k v rest) p (this e f) =
              subst (λ i. IsConfined allowed_secrets account key i) f
                (subst (λ j. IsConfined allowed_secrets account j v) e
                  (field-IsConfined allowed_secrets safe_load patch account k v
                    (visited_field k v rest p).0))
          fields-IsConfined (field k v rest) p (inside o) =
              value-IsConfined v (visited_field k v rest p).1 o
          fields-IsConfined (field k v rest) p (patched text e f l o) =
              in_patch _
                (patch_text allowed_secrets safe_load patch text _ l (
                  subst (λ i. Checks allowed_secrets safe_load patch "podSpecPatch" i) f
                    (subst (λ j. Checks allowed_secrets safe_load patch j v) e
                      (reference allowed_secrets safe_load patch account k v
                        (visited_field k v rest p).0))))
                o
          fields-IsConfined (field k v rest) p (other o) =
              fields-IsConfined rest (visited_field k v rest p).2 o

  visit-IsConfined :
      (account : String) (safe_load : String → Loaded) (depth : ℕ) (key : String) (item v : Json)
      → visit allowed_secrets account safe_load depth v ≡ ok tt
      → Occurs safe_load key item v
      → IsConfined allowed_secrets account key item
  unfolding visit
  visit-IsConfined account safe_load zero key item v p o =
      value-IsConfined safe_load (λ _. err (uncaught "RecursionError")) account key item
        (λ w q _. cc) v p o
  visit-IsConfined account safe_load (suc depth) key item v p o =
      value-IsConfined safe_load (visit allowed_secrets account safe_load depth) account key item
        (λ w q i. visit-IsConfined account safe_load depth key item w q i) v p o

module _ ⦃env : Env⦄ where
  -- Whatever stands under a key in the spec of an accepted workflow, also in the documents that its
  -- patches are the texts of, is confined to the allowed names and the configured account.
  pub validate_workflow-IsConfined :
      (depth : ℕ) (safe_load : String → Loaded) (workflow : Fields) (allowed_secrets : List String)
      (key : String) (item : Json)
      → validate_workflow depth safe_load workflow allowed_secrets ≡ ok tt
      → Occurs safe_load key item (or_object (value "spec" workflow))
      → IsConfined allowed_secrets
          (getenv_or "ARGO_WORKFLOWS_WORKFLOW_SERVICE_ACCOUNT" "argo-service-account")
          key
          item
  unfolding validate_workflow
  validate_workflow-IsConfined depth safe_load workflow allowed_secrets key item p o =
      visit-IsConfined allowed_secrets _ safe_load depth key item _
        (last_check (mentions "workflowTemplateRef" (or_object (value "spec" workflow)))
          (claims_owner (or_object (value "metadata" workflow))) _ _ _ p)
        o
