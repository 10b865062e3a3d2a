-- ===== src/Workflows/Policy/Entries.antt =====
-- An item that `check_field` passes is confined.
use triton_control.Prelude.{
  ◌≡◌, ◌⊎◌, inl, inr, refl, ap, subst, String, Bool, true, false, not, ◌&&◌, ◌||◌, List, [], ◌∷◌,
  Bool-cases, one_of, ends_with, and_left, and_right, ◌==◌, eq_iff, if◌then◌else◌,
}
use triton_control.Errors.{AppError, Result, ok, err, reject_if, ◌>>=◌, ◌>>◌}
use triton_control.Json.{
  Json, null, bool, num, str, arr, obj, Items, nil, cons, Fields, end, field, value, is_text,
  is_truthy,
}
use triton_control.Workflows.Policy.{
  Loaded, document, is_named, adds, repository_key, secret, secret_name_of, each_secret,
  pull_secrets, is_own, is_own_repository, visit_loaded, visit_patch, check_reference, check_field,
}
use triton_control.Workflows.Policy.Occurrence.{Allowed, NamesAllowed, EachNamesAllowed, IsConfined}

pub >>-ok {ℓ} :
    {B : Type ℓ} (m : Result (Unit {0})) (k : Result B) (b : B)
    → (m >> k) ≡ ok b
    → (m ≡ ok tt) × (k ≡ ok b)
>>-ok (ok u) k b p = (refl, p)
>>-ok (err e) k b p = cc

reject_if-ok : (c : Bool) (e : AppError) → reject_if c e ≡ ok tt → c ≡ false
reject_if-ok true e p = cc
reject_if-ok false e p = refl

-- the second branch of a chain of tests
second_branch {ℓ} :
    {A : Type ℓ} (a b : Bool) (x y z r : A)
    → a ≡ false
    → b ≡ true
    → (if a then x else if b then y else z) ≡ r
    → y ≡ r
second_branch false true x y z r p q h = h
second_branch true b x y z r p q h = cc
second_branch false false x y z r p q h = cc

and_true : (a b : Bool) → a ≡ true → (a && b) ≡ false → b ≡ false
and_true true b p q = q
and_true false b p q = cc

or_right : (a b c : Bool) → b ≡ true → c ≡ true → (a || (b && c)) ≡ true
or_right true b c p q = refl
or_right false b c p q = rw (p, q) refl

not-false : (b : Bool) → not b ≡ false → b ≡ true
not-false true p = refl
not-false false p = cc

is_text-eq : (s : String) (v : Json) → is_text s v ≡ true → v ≡ str s
is_text-eq s (str t) p = ap str ((eq_iff t s).0 p)
is_text-eq s null p = cc
is_text-eq s (bool b) p = cc
is_text-eq s (num n) p = cc
is_text-eq s (arr vs) p = cc
is_text-eq s (obj fs) p = cc

is_key : (key k : String) → key ≡ k → (key == k) ≡ true
is_key key k e = (eq_iff key k).1 e

-- a patch has no name with the suffix
not_patch : (key : String) → ends_with "Secret" key ≡ true → (key == "podSpecPatch") ≡ false
unfolding ends_with
not_patch key e = elim (Bool-cases (key == "podSpecPatch")) [
  | inl p ↦
      let e1 = subst (λ k. ends_with "Secret" k ≡ true) ((eq_iff key "podSpecPatch").0 p) e in cc
  | inr p ↦ p
]

-- two computed tests and a check, in the order in which they run
pub last_check :
    (m n : Result Bool) (e f : AppError) (k : Result (Unit {0}))
    → (m >>= λ a. reject_if a e >> (n >>= λ b. reject_if b f >> k)) ≡ ok tt
    → k ≡ ok tt
last_check (ok false) (ok false) e f k p = p
last_check (ok true) n e f k p = cc
last_check (ok false) (ok true) e f k p = cc
last_check (ok false) (err x) e f k p = cc
last_check (err x) n e f k p = cc

-- five tests and a check, in the order in which they run
five_tests :
    (c0 c1 c2 c3 c4 : Bool) (k : Result (Unit {0})) (e0 e1 e2 e3 e4 : AppError)
    → (reject_if c0 e0
        >> (reject_if c1 e1 >> (reject_if c2 e2 >> (reject_if c3 e3 >> (reject_if c4 e4 >> k)))))
      ≡ ok tt
    → (c0 ≡ false) × (c1 ≡ false) × (c2 ≡ false) × (c3 ≡ false) × (c4 ≡ false) × (k ≡ ok tt)
five_tests false false false false false k _ _ _ _ _ p = (refl, refl, refl, refl, refl, p)
five_tests true c1 c2 c3 c4 k _ _ _ _ _ p = cc
five_tests false true c2 c3 c4 k _ _ _ _ _ p = cc
five_tests false false true c3 c4 k _ _ _ _ _ p = cc
five_tests false false false true c4 k _ _ _ _ _ p = cc
five_tests false false false false true k _ _ _ _ _ p = cc

module _ (allowed_secrets : List String) where
  secret-Allowed : (v : Json) → secret allowed_secrets v ≡ ok tt → Allowed allowed_secrets v
  unfolding secret
  secret-Allowed (str s) p = (s, refl, not-false _ (reject_if-ok _ _ p))
  secret-Allowed null p = cc
  secret-Allowed (bool b) p = cc
  secret-Allowed (num n) p = cc
  secret-Allowed (arr vs) p = cc
  secret-Allowed (obj fs) p = cc

  secret_name_of-NamesAllowed :
      (v : Json) → secret_name_of allowed_secrets v ≡ ok tt → NamesAllowed allowed_secrets v
  unfolding secret_name_of
  secret_name_of-NamesAllowed (obj fs) p = (fs, refl, secret-Allowed (value "name" fs) p)
  secret_name_of-NamesAllowed null p = cc
  secret_name_of-NamesAllowed (bool b) p = cc
  secret_name_of-NamesAllowed (num n) p = cc
  secret_name_of-NamesAllowed (str s) p = cc
  secret_name_of-NamesAllowed (arr vs) p = cc

  each_secret-EachNamesAllowed :
      (vs : Items) → each_secret allowed_secrets vs ≡ ok tt → EachNamesAllowed allowed_secrets vs
  unfolding each_secret
  each_secret-EachNamesAllowed nil p = tt
  each_secret-EachNamesAllowed (cons v vs) p =
      let parts = >>-ok (secret_name_of allowed_secrets v) (each_secret allowed_secrets vs) tt p in
      (secret_name_of-NamesAllowed v parts.0, each_secret-EachNamesAllowed vs parts.1)

  empty_choice :
      (s : String) (e : AppError) (b : Bool)
      → (s == "") ≡ b
      → ◌≡◌ {A = Result (Unit {0})} (if b then ok tt else err e) (ok tt)
      → not (s == "") ≡ false
  empty_choice s e true q p = rw q refl
  empty_choice s e false q p = cc

  pulls :
      (v : Json)
      → pull_secrets allowed_secrets v ≡ ok tt
      → ((vs : Items) × (v ≡ arr vs) × EachNamesAllowed allowed_secrets vs) ⊎ (is_truthy v ≡ false)
  unfolding pull_secrets
  pulls (arr vs) p = inl (vs, refl, each_secret-EachNamesAllowed vs p)
  pulls (obj end) p = inr refl
  pulls (obj (field k v fs)) p = cc
  pulls (str s) p = inr (empty_choice s _ _ refl p)
  pulls null p = cc
  pulls (bool b) p = cc
  pulls (num n) p = cc

  own :
      (c k : Json)
      → is_own allowed_secrets c k ≡ true
      → Allowed allowed_secrets c × (k ≡ str repository_key)
  own (str s) k p = (
    (s, refl, and_left (one_of s allowed_secrets) (is_text repository_key k) p),
    is_text-eq repository_key k (and_right (one_of s allowed_secrets) (is_text repository_key k) p),
  )
  own null k p = cc
  own (bool b) k p = cc
  own (num n) k p = cc
  own (arr vs) k p = cc
  own (obj fs) k p = cc

  repository :
      (v : Json)
      → is_own_repository allowed_secrets v ≡ true
      → (fs : Fields) × (v ≡ obj fs)
        × Allowed allowed_secrets (value "configMap" fs)
        × (value "key" fs ≡ str repository_key)
  unfolding is_own_repository
  repository (obj fs) p =
      let parts = own (value "configMap" fs) (value "key" fs) p in (fs, refl, parts.0, parts.1)
  repository null p = cc
  repository (bool b) p = cc
  repository (num n) p = cc
  repository (str s) p = cc
  repository (arr vs) p = cc

  module _ (safe_load : String → Loaded) (patch : Json → Result (Unit {0})) where
    abbrev pub Checks : String → Json → Type 0
    Checks key item = check_reference allowed_secrets safe_load patch key item ≡ ok tt

    claim_refused : (item : Json) → Checks "persistentVolumeClaim" item → ⊥
    unfolding check_reference ends_with one_of
    claim_refused item p = cc

    volume : (item : Json) → Checks "secretName" item → Allowed allowed_secrets item
    unfolding check_reference ends_with one_of
    volume item p = secret-Allowed item p

    key_reference : (item : Json) → Checks "secretKeyRef" item → NamesAllowed allowed_secrets item
    unfolding check_reference ends_with one_of
    key_reference item p = secret_name_of-NamesAllowed item p

    environment : (item : Json) → Checks "secretRef" item → NamesAllowed allowed_secrets item
    unfolding check_reference ends_with one_of
    environment item p = secret_name_of-NamesAllowed item p

    pull_references :
        (item : Json)
        → Checks "imagePullSecrets" item
        → ((vs : Items) × (item ≡ arr vs) × EachNamesAllowed allowed_secrets vs)
          ⊎ (is_truthy item ≡ false)
    unfolding check_reference ends_with one_of
    pull_references item p = pulls item p

    named_secret :
        (item : Json) (b : Bool)
        → is_named item ≡ b
        → b ≡ true
        → Checks "secret" item
        → NamesAllowed allowed_secrets item
    unfolding check_reference ends_with one_of
    named_secret item true q r p = secret_name_of-NamesAllowed item (rw q at p)
    named_secret item false q r p = cc

    suffix_secret :
        (key : String) (item : Json)
        → (key == "podSpecPatch") ≡ false
        → ends_with "Secret" key ≡ true
        → is_named item ≡ true
        → Checks key item
        → NamesAllowed allowed_secrets item
    unfolding check_reference
    suffix_secret key item q e n p = secret_name_of-NamesAllowed item (
        second_branch _ _ _ _ _ _ q
          (or_right (one_of key ("secretKeyRef" ∷ "secretRef" ∷ [])) _ _ e n) p)

    pub patch_text :
        (text : String) (w : Json)
        → safe_load text ≡ document w
        → Checks "podSpecPatch" (str text)
        → patch w ≡ ok tt
    unfolding check_reference visit_patch visit_loaded
    patch_text text w l p =
        rw l at ((>>-ok _ (visit_loaded allowed_secrets safe_load patch (safe_load text)) tt p).1)

    module _ (account : String) where
      abbrev pub Passes : String → Json → Type 0
      Passes key item = check_field allowed_secrets safe_load patch account key item ≡ ok tt

      -- the reference is checked last
      pub reference : (key : String) (item : Json) → Passes key item → Checks key item
      unfolding check_field
      reference key item p =
          (five_tests
            (key == "artifactRepositoryRef" && not (is_own_repository allowed_secrets item))
            (key == "serviceAccountName" && not (is_text account item))
            (one_of key ("hostNetwork" ∷ "hostPID" ∷ "hostIPC" ∷ "privileged" ∷ [])
              && is_truthy item)
            (one_of key ("hostPath" ∷ "csi" ∷ "resource" ∷ "templateRef" ∷ "containerSet" ∷ []))
            (key == "capabilities" && adds item)
            (check_reference allowed_secrets safe_load patch key item) _ _ _ _ _ p).5

      pub field-IsConfined :
          (key : String) (item : Json)
          → Passes key item
          → IsConfined allowed_secrets account key item
      unfolding check_field one_of
      field-IsConfined key item p =
          let tests =
            five_tests
              (key == "artifactRepositoryRef" && not (is_own_repository allowed_secrets item))
              (key == "serviceAccountName" && not (is_text account item))
              (one_of key ("hostNetwork" ∷ "hostPID" ∷ "hostIPC" ∷ "privileged" ∷ [])
                && is_truthy item)
              (one_of key ("hostPath" ∷ "csi" ∷ "resource" ∷ "templateRef" ∷ "containerSet" ∷ []))
              (key == "capabilities" && adds item)
              (check_reference allowed_secrets safe_load patch key item) _ _ _ _ _ p in
          let at_key = λ (k : String) (e : key ≡ k). subst (λ k. Checks k item) e tests.5 in
          record {
            unprivileged = tests.3;
            no_claim = λ e. claim_refused item (at_key "persistentVolumeClaim" e);
            account =
                λ e. is_text-eq account item (not-false _ (and_true _ _ (is_key key _ e) tests.1));
            off_host = λ e. and_true _ _ e tests.2;
            no_capability = λ e. and_true _ _ (is_key key _ e) tests.4;
            own_volume = λ e. volume item (at_key "secretName" e);
            own_key = λ e. key_reference item (at_key "secretKeyRef" e);
            own_environment = λ e. environment item (at_key "secretRef" e);
            own_secret = λ e n. named_secret item true n refl (at_key "secret" e);
            own_suffix = λ e n. suffix_secret key item (not_patch key e) e n tests.5;
            own_pulls = λ e. pull_references item (at_key "imagePullSecrets" e);
            own_repository =
                λ e. repository item (not-false _ (and_true _ _ (is_key key _ e) tests.0));
          }
