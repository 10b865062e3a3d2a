-- ===== src/Tests/WorkflowPolicy.antt =====
-- The checks of workflows at a concrete workflow with a patch.
use triton_control.Prelude.{
  ◌≡◌, ◌<◌, refl, sym, ap, subst, String, Bool, true, false, [], ◌∷◌, size, has_part, ends_with,
  one_of, ◌==◌, arith, if◌then◌else◌,
}
use triton_control.Errors.{ok}
use triton_control.Json.{Json, str, obj, Fields, end, field, get}
use triton_control.Workflows.Policy.{
  is_slug, Loaded, document, malformed, validate_workflow, visit, visit_value, check_field,
  mentions, claims_owner,
}
use triton_control.Workflows.Policy.Occurrence.{IsConfined, in_object, this, patched}
use triton_control.Workflows.Policy.Soundness.{validate_workflow-IsConfined}
use triton_control.Workflows.Policy.Depth.{
  Shortens, Holds, validate_workflow-ends, in_object as holds_object, this as holds_this,
  inside as holds_inside, other as holds_other,
}
use triton_control.Workflows.Policy.Ends.{is_exhausted}
use triton_control.Deployment.Policy.{is_label}
use triton_control.Workflows.Credentials.{secret_name}
use triton_control.Workflows.Credentials.Names.{secret_name-label}
use triton_control.Tests.{test_env}

-- the document of the text "p", and no other
abbrev secret_ref : Json
secret_ref = obj (field "name" (str "mine") end)

abbrev load : String → Loaded
load text = if text == "p" then document (obj (field "secretRef" secret_ref end)) else malformed

abbrev spec : Fields
spec = field "podSpecPatch" (str "p") end

abbrev workflow : Fields
workflow = field "spec" (obj spec) end

accepted : validate_workflow 2 load workflow ("mine" ∷ []) ≡ ok tt
unfolding validate_workflow visit visit_value check_field mentions claims_owner has_part get one_of
    ends_with
accepted = refl

validate_workflow-IsConfined_example :
    IsConfined ("mine" ∷ []) "argo-service-account" "secretRef" secret_ref
unfolding get
validate_workflow-IsConfined_example =
    validate_workflow-IsConfined 2 load workflow ("mine" ∷ []) "secretRef" secret_ref accepted
      (in_object (patched "p" refl refl refl (in_object (this refl refl))))

abbrev inner : Json
inner = obj (field "secretRef" secret_ref end)

no_patch_inside : (text : String) → Holds text inner → ⊥
no_patch_inside text (holds_object (holds_this p q)) = cc
no_patch_inside text (holds_object (holds_inside (holds_object (holds_this p q)))) = cc
no_patch_inside text (holds_object (holds_inside (holds_object (holds_inside h)))) = elim h [ ]
no_patch_inside text (holds_object (holds_inside (holds_object (holds_other h)))) = elim h [ ]
no_patch_inside text (holds_object (holds_other h)) = elim h [ ]

loaded :
    (text : String) (b : Bool) (w : Json)
    → (if b then document inner else malformed) ≡ document w
    → inner ≡ w
loaded text true w p = ap (λ l. elim l [ document v ↦ v | malformed ↦ inner ]) p
loaded text false w p = cc

load-Shortens : Shortens load
load-Shortens text w t p h =
    elim (no_patch_inside t (subst (Holds t) (sym (loaded text (text == "p") w p)) h)) [ ]

abbrev text_of : Json → String
text_of (str s) = s
text_of _ = ""

held : (text : String) → Holds text (obj spec) → size text < 2
unfolding size
held text (holds_object (holds_this p q)) = subst (λ v. size (text_of v) < 2) q (omega arith)
held text (holds_object (holds_inside h)) = elim h [ ]
held text (holds_object (holds_other h)) = elim h [ ]

validate_workflow-ends_example :
    is_exhausted (validate_workflow 2 load workflow ("mine" ∷ [])) ≡ false
unfolding get
validate_workflow-ends_example =
    validate_workflow-ends 2 load workflow ("mine" ∷ []) load-Shortens held

secret_name-label_example : is_label (secret_name "0a1b2c" "My bucket!") ≡ true
unfolding is_slug
secret_name-label_example = secret_name-label "0a1b2c" "My bucket!" refl

named : secret_name "0a1b2c" "My bucket!" ≡ "workflow-s3-my-bucket-0a1b2c"
unfolding secret_name
named = refl
