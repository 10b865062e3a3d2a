-- ===== src/Workflows/Policy/Ends.antt =====
-- No check but a patch's ends for want of depth.
use triton_control.Prelude.{
  ◌≡◌, refl, String, Bool, true, false, List, [], ◌∷◌, not, ◌&&◌, ◌||◌, one_of, ends_with, has_part,
  ◌==◌, eq_iff, Option, none, some, if◌then◌else◌,
}
use triton_control.Errors.{
  AppError, Result, ok, err, uncaught, reject_if, forbidden_error, ◌>>=◌, ◌>>◌,
}
use triton_control.Json.{
  Json, null, bool, num, str, arr, obj, Items, nil, cons, end, field, value, is_truthy, is_text,
  get,
}
use triton_control.Workflows.Policy.{
  Loaded, document, malformed, is_named, adds, mentions, claims_owner, secret, secret_name_of,
  each_secret, pull_secrets, is_own_repository, visit_loaded, visit_patch, check_reference,
  check_field,
}

-- the recursion did not end within the depth
unfoldable pub is_exhausted : Result (Unit {0}) → Bool
is_exhausted (err (uncaught e)) = e == "RecursionError"
is_exhausted _ = false

pub record Ends (r : Result (Unit {0})) : Type 0 where
  pub ends : is_exhausted r ≡ false

pub >>-Ends : (m k : Result (Unit {0})) → Ends m → Ends k → Ends (m >> k)
>>-Ends (ok u) k p q = q
>>-Ends (err e) k p q = p

reject_if-Ends : (c : Bool) (e : AppError) → is_exhausted (err e) ≡ false → Ends (reject_if c e)
unfolding is_exhausted
reject_if-Ends true e p = record { ends = p }
reject_if-Ends false e p = record { ends = refl }

if-Ends :
    (c : Bool) (m k : Result (Unit {0})) → (c ≡ true → Ends m) → Ends k → Ends (if c then m else k)
if-Ends true m k p q = p refl
if-Ends false m k p q = q

module _ (allowed_secrets : List String) where
  secret-Ends : (v : Json) → Ends (secret allowed_secrets v)
  unfolding secret is_exhausted
  secret-Ends (str s) = reject_if-Ends _ _ refl
  secret-Ends null = record { ends = refl }
  secret-Ends (bool b) = record { ends = refl }
  secret-Ends (num n) = record { ends = refl }
  secret-Ends (arr vs) = record { ends = refl }
  secret-Ends (obj fs) = record { ends = refl }

  secret_name_of-Ends : (v : Json) → Ends (secret_name_of allowed_secrets v)
  unfolding secret_name_of is_exhausted
  secret_name_of-Ends (obj fs) = secret-Ends (value "name" fs)
  secret_name_of-Ends null = record { ends = refl }
  secret_name_of-Ends (bool b) = record { ends = refl }
  secret_name_of-Ends (num n) = record { ends = refl }
  secret_name_of-Ends (arr vs) = record { ends = refl }
  secret_name_of-Ends (str s) = record { ends = refl }

  each_secret-Ends : (vs : Items) → Ends (each_secret allowed_secrets vs)
  unfolding each_secret is_exhausted
  each_secret-Ends nil = record { ends = refl }
  each_secret-Ends (cons v vs) = >>-Ends _ _ (secret_name_of-Ends v) (each_secret-Ends vs)

  pull_secrets-Ends : (v : Json) → Ends (pull_secrets allowed_secrets v)
  unfolding pull_secrets is_exhausted
  pull_secrets-Ends (arr vs) = each_secret-Ends vs
  pull_secrets-Ends (obj end) = record { ends = refl }
  pull_secrets-Ends (obj (field k v fs)) = record { ends = refl }
  pull_secrets-Ends (str s) =
      if-Ends (s == "") (ok tt) _ (λ _. record { ends = refl }) (record { ends = refl })
  pull_secrets-Ends null = record { ends = refl }
  pull_secrets-Ends (bool b) = record { ends = refl }
  pull_secrets-Ends (num n) = record { ends = refl }

  module _ (safe_load : String → Loaded) (patch : Json → Result (Unit {0})) where
    -- the patches that the texts in a document are of
    abbrev pub PatchEnds : String → Type 0
    PatchEnds text = (w : Json) → safe_load text ≡ document w → Ends (patch w)

    visit_loaded-Ends :
        (text : String) (l : Loaded)
        → safe_load text ≡ l
        → PatchEnds text
        → Ends (visit_loaded allowed_secrets safe_load patch l)
    unfolding visit_loaded is_exhausted
    visit_loaded-Ends text (document w) q e = e w q
    visit_loaded-Ends text malformed q e = record { ends = refl }

    visit_patch-Ends :
        (item : Json)
        → ((text : String) → item ≡ str text → PatchEnds text)
        → Ends (visit_patch allowed_secrets safe_load patch item)
    unfolding visit_patch is_exhausted
    visit_patch-Ends (str s) e =
        >>-Ends (reject_if (has_part "{{" s) _) _ (reject_if-Ends (has_part "{{" s) _ refl)
          (visit_loaded-Ends s (safe_load s) refl (e s refl))
    visit_patch-Ends null e = record { ends = refl }
    visit_patch-Ends (bool b) e = record { ends = refl }
    visit_patch-Ends (num n) e = record { ends = refl }
    visit_patch-Ends (arr vs) e = record { ends = refl }
    visit_patch-Ends (obj fs) e = record { ends = refl }

    check_reference-Ends :
        (key : String) (item : Json)
        → ((text : String) → key ≡ "podSpecPatch" → item ≡ str text → PatchEnds text)
        → Ends (check_reference allowed_secrets safe_load patch key item)
    unfolding check_reference is_exhausted
    check_reference-Ends key item e =
        if-Ends (key == "podSpecPatch") _ _
          (λ q. visit_patch-Ends item (λ text. e text ((eq_iff key "podSpecPatch").0 q)))
          (if-Ends
            (one_of key ("secretKeyRef" ∷ "secretRef" ∷ [])
              || (ends_with "Secret" key && is_named item))
            _ _ (λ _. secret_name_of-Ends item)
            (if-Ends (key == "secretName") _ _ (λ _. secret-Ends item)
              (if-Ends (key == "imagePullSecrets") _ _ (λ _. pull_secrets-Ends item)
                (if-Ends (key == "secret" && is_named item) _ _ (λ _. secret_name_of-Ends item)
                  (reject_if-Ends (key == "persistentVolumeClaim") _ refl)))))

    module _ (account : String) where
      pub check_field-Ends :
          (key : String) (item : Json)
          → ((text : String) → key ≡ "podSpecPatch" → item ≡ str text → PatchEnds text)
          → Ends (check_field allowed_secrets safe_load patch account key item)
      unfolding check_field is_exhausted
      check_field-Ends key item e =
          >>-Ends _ _
            (reject_if-Ends
              (key == "artifactRepositoryRef" && not (is_own_repository allowed_secrets item)) _
              refl)
            (>>-Ends _ _
              (reject_if-Ends (key == "serviceAccountName" && not (is_text account item)) _ refl)
              (>>-Ends _ _
                (reject_if-Ends
                  (one_of key ("hostNetwork" ∷ "hostPID" ∷ "hostIPC" ∷ "privileged" ∷ [])
                    && is_truthy item)
                  (forbidden_error "Managed workflows cannot access the host") refl)
                (>>-Ends _ _
                  (reject_if-Ends
                    (one_of key
                      ("hostPath" ∷ "csi" ∷ "resource" ∷ "templateRef" ∷ "containerSet" ∷ []))
                    (forbidden_error
                      "Managed MLflow workflows require unprivileged inline container/script templates")
                    refl)
                  (>>-Ends _ _
                    (reject_if-Ends (key == "capabilities" && adds item)
                      (forbidden_error "Managed workflows cannot add Linux capabilities") refl)
                    (check_reference-Ends key item e)))))

pub last_check-Ends :
    (m n : Result Bool) (e f : AppError) (k : Result (Unit {0}))
    → Ends (m >>= λ b. ok tt)
    → Ends (n >>= λ b. ok tt)
    → is_exhausted (err e) ≡ false
    → is_exhausted (err f) ≡ false
    → Ends k
    → Ends (m >>= λ a. reject_if a e >> (n >>= λ b. reject_if b f >> k))
last_check-Ends (ok false) (ok false) e f k p q r s t = t
last_check-Ends (ok true) n e f k p q r s t = record { ends = r }
last_check-Ends (ok false) (ok true) e f k p q r s t = record { ends = s }
last_check-Ends (ok false) (err x) e f k p q r s t = q
last_check-Ends (err x) n e f k p q r s t = p

pub mentions-Ends : (key : String) (v : Json) → Ends (mentions key v >>= λ b. ok tt)
unfolding mentions is_exhausted
mentions-Ends key null = record { ends = refl }
mentions-Ends key (bool b) = record { ends = refl }
mentions-Ends key (num n) = record { ends = refl }
mentions-Ends key (str s) = record { ends = refl }
mentions-Ends key (arr vs) = record { ends = refl }
mentions-Ends key (obj fs) = record { ends = refl }

owner :
    (o : Option Json)
    → is_exhausted (
        (elim o [ none ↦ ok false | some v ↦ mentions "triton-control.ai/mlflow-owner-user-id" v ])
        >>= λ b. ok tt)
      ≡ false
unfolding is_exhausted
owner none = refl
owner (some v) = (mentions-Ends _ v).ends

pub claims_owner-Ends : (v : Json) → Ends (claims_owner v >>= λ b. ok tt)
unfolding claims_owner is_exhausted
claims_owner-Ends null = record { ends = refl }
claims_owner-Ends (bool b) = record { ends = refl }
claims_owner-Ends (num n) = record { ends = refl }
claims_owner-Ends (str s) = record { ends = refl }
claims_owner-Ends (arr vs) = record { ends = refl }
claims_owner-Ends (obj fs) = record { ends = owner (get "annotations" fs) }
