-- ===== src/Workflows/Policy/Depth.antt =====
-- The depth of nested patches that is enough for `visit`, where the loader makes no text longer.
use triton_control.Prelude.{ℕ, zero, suc, ◌≡◌, ◌<◌, refl, String, false, List, arith, size}
use triton_control.Errors.{Result, err, uncaught}
use triton_control.Env.{Env}
use triton_control.Json.{
  Json, null, bool, num, str, arr, obj, Items, nil, cons, Fields, end, field, value,
}
use triton_control.Workflows.Policy.{
  Loaded, document, visit_value, visit_items, visit_fields, visit, or_object, validate_workflow,
}
use triton_control.Workflows.Policy.Ends.{
  is_exhausted, Ends, >>-Ends, PatchEnds, check_field-Ends, last_check-Ends, mentions-Ends,
  claims_owner-Ends,
}

-- The text is that of a patch in the document, not behind another patch.
mutual
  pub data Holds (text : String) : Json → Type 0 where
    in_array : {vs : Items} → HoldsItems text vs → Holds text (arr vs)
    in_object : {fs : Fields} → HoldsFields text fs → Holds text (obj fs)

  pub data HoldsItems (text : String) : Items → Type 0 where
    here : {v : Json} {vs : Items} → Holds text v → HoldsItems text (cons v vs)
    later : {v : Json} {vs : Items} → HoldsItems text vs → HoldsItems text (cons v vs)

  pub data HoldsFields (text : String) : Fields → Type 0 where
    this :
        {k : String} {v : Json} {fs : Fields}
        → k ≡ "podSpecPatch"
        → v ≡ str text
        → HoldsFields text (field k v fs)
    inside : {k : String} {v : Json} {fs : Fields} → Holds text v → HoldsFields text (field k v fs)
    other :
        {k : String} {v : Json} {fs : Fields}
        → HoldsFields text fs
        → HoldsFields text (field k v fs)

-- The loader makes of a text no patch that is as long as the text.
abbrev pub Shortens : (String → Loaded) → Type 0
Shortens safe_load =
    (text : String) (w : Json) (inner : String)
    → safe_load text ≡ document w
    → Holds inner w
    → size inner < size text

none_below : {n : ℕ} → n < 0 → ⊥
none_below h = omega arith

below : {a b c : ℕ} → a < b → b < suc c → a < c
below h k = omega arith

module _ (allowed_secrets : List String) where
  module _ (safe_load : String → Loaded) (patch : Json → Result (Unit {0})) where
    module _ (account : String) where
      mutual
        unfolding visit_value is_exhausted

        value-Ends :
            (v : Json)
            → ((text : String) → Holds text v → PatchEnds allowed_secrets safe_load patch text)
            → Ends (visit_value allowed_secrets safe_load patch account v)
        value-Ends null e = record { ends = refl }
        value-Ends (bool b) e = record { ends = refl }
        value-Ends (num n) e = record { ends = refl }
        value-Ends (str s) e = record { ends = refl }
        value-Ends (arr vs) e = items-Ends vs (λ t h. e t (in_array h))
        value-Ends (obj fs) e = fields-Ends fs (λ t h. e t (in_object h))

        items-Ends :
            (vs : Items)
            → ((text : String)
                → HoldsItems text vs
                → PatchEnds allowed_secrets safe_load patch text)
            → Ends (visit_items allowed_secrets safe_load patch account vs)
        items-Ends nil e = record { ends = refl }
        items-Ends (cons v vs) e =
            >>-Ends _ _ (value-Ends v (λ t h. e t (here h))) (items-Ends vs (λ t h. e t (later h)))

        fields-Ends :
            (fs : Fields)
            → ((text : String)
                → HoldsFields text fs
                → PatchEnds allowed_secrets safe_load patch text)
            → Ends (visit_fields allowed_secrets safe_load patch account fs)
        fields-Ends end e = record { ends = refl }
        fields-Ends (field k v rest) e =
            >>-Ends _ _
              (check_field-Ends allowed_secrets safe_load patch account k v
                (λ t p q. e t (this p q)))
              (>>-Ends _ _ (value-Ends v (λ t h. e t (inside h)))
                (fields-Ends rest (λ t h. e t (other h))))

  visit-Ends :
      (account : String) (safe_load : String → Loaded)
      → Shortens safe_load
      → (depth : ℕ) (v : Json) → ((text : String) → Holds text v → size text < depth)
      → Ends (visit allowed_secrets account safe_load depth v)
  unfolding visit
  visit-Ends account safe_load shortens zero v h =
      value-Ends safe_load (λ _. err (uncaught "RecursionError")) account v
        (λ text held w q. elim (none_below (h text held)) [ ])
  visit-Ends account safe_load shortens (suc depth) v h =
      value-Ends safe_load (visit allowed_secrets account safe_load depth) account v
        (λ text held w q.
          visit-Ends account safe_load shortens depth w
            (λ inner i. below (shortens text w inner q i) (h text held)))

module _ ⦃env : Env⦄ where
  -- If the loader makes of a text only patches that are shorter than it, and the depth exceeds the
  -- length of every patch in the spec, then validation does not end for want of depth.
  pub validate_workflow-ends :
      (depth : ℕ) (safe_load : String → Loaded) (workflow : Fields) (allowed_secrets : List String)
      → Shortens safe_load
      → ((text : String) → Holds text (or_object (value "spec" workflow)) → size text < depth)
      → is_exhausted (validate_workflow depth safe_load workflow allowed_secrets) ≡ false
  unfolding validate_workflow is_exhausted
  validate_workflow-ends depth safe_load workflow allowed_secrets shortens h =
      (last_check-Ends _ _ _ _ _
        (mentions-Ends "workflowTemplateRef" (or_object (value "spec" workflow)))
        (claims_owner-Ends (or_object (value "metadata" workflow))) refl refl
        (visit-Ends allowed_secrets _ safe_load shortens depth (or_object (value "spec" workflow))
          h)).ends
