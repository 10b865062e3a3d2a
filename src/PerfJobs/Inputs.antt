-- ===== src/PerfJobs/Inputs.antt =====
-- What the conversion of benchmark input data answers.
use triton_control.Prelude.{
  ℕ, suc, ◌≡◌, ◌⊎◌, inl, inr, refl, sym, ap, subst, ◌∙◌, String, Bool, true, false, ◌&&◌, Option,
  none, some, strip, ◌==◌, eq_iff, Bool-cases, if◌then◌else◌,
}
use triton_control.Errors.{Result, ok, err, status_code, bad_request_error, ◌>>=◌}
use triton_control.Json.{
  Json, null, bool, num, str, arr, obj, Items, nil, cons, Fields, end, get, has_key,
}
use triton_control.Json.Entries.{set, get-set, get-set_other}
use triton_control.PerfJobs.Payload.{
  name_in, given, input_of, input_error, collect, convert_inference_payload, convert_vllm_payload,
  convert_prompt, prepare_parsed, in_data, convert_inputs, nonempty_items, prepare_object,
  prepare_input_data, dumped, is_list,
}

-- the data of an input that has the name
abbrev data_if : String → Result (String × Json) → Option Json
data_if name (ok i) = if i.0 == name then some i.1 else none
data_if name (err e) = none

abbrev or_else : Option Json → Option Json → Option Json
or_else none other = other
or_else (some v) other = some v

-- The data of the last input with the name.
unfoldable pub last_data : String → ℕ → Items → Option Json
last_data name index nil = none
last_data name index (cons item items) =
    or_else (last_data name (suc index) items) (data_if name (input_of index item))

-- an input that raises is refused with 400
abbrev Refused400 : {V : Type 0} → Result V → Type 0
Refused400 (ok v) = Unit
Refused400 (err e) = status_code e ≡ 400

name_400 :
    (index : ℕ) (fs : Fields) (n : Option String) (c : Option Json)
    → Refused400 {V = String × Json} (elim n [
      | none ↦ err (bad_request_error (input_error index ".name must be a non-empty string"))
      | some name ↦ elim c [
        | none ↦ err (bad_request_error (input_error index ".data is required for conversion"))
        | some content ↦ ok (name, content)
      ]
    ])
unfolding status_code
name_400 index fs none c = refl
name_400 index fs (some name) none = refl
name_400 index fs (some name) (some content) = tt

input_of-Refused400 : (index : ℕ) (item : Json) → Refused400 (input_of index item)
unfolding input_of status_code
input_of-Refused400 index (obj fs) =
    name_400 index fs (name_in (get "name" fs)) (given (get "data" fs))
input_of-Refused400 index null = refl
input_of-Refused400 index (bool b) = refl
input_of-Refused400 index (num n) = refl
input_of-Refused400 index (str s) = refl
input_of-Refused400 index (arr vs) = refl

-- the request has exactly these items, or the refusal is a 400
abbrev Collects : (String → Option Json) → Result Fields → Type 0
Collects wanted (ok request) = (name : String) → get name request ≡ wanted name
Collects wanted (err e) = status_code e ≡ 400

same_Collects :
    (f g : String → Option Json) (r : Result Fields)
    → ((name : String) → f name ≡ g name)
    → Collects f r
    → Collects g r
same_Collects f g (ok request) h c = λ name. c name ∙ h name
same_Collects f g (err e) h c = c

one_more_input :
    (later : Option Json) (name n : String) (c : Json) (request : Fields)
    → or_else later (get name (set n c request))
      ≡ or_else (or_else later (if n == name then some c else none)) (get name request)
one_more_input (some v) name n c request = refl
one_more_input none name n c request = elim (Bool-cases (n == name)) [
  | inl p ↦
      rw (p) (ap (λ k. get name (set k c request)) ((eq_iff n name).0 p) ∙ get-set name c request)
  | inr p ↦ rw (p) (get-set_other name n c request p)
]

collect-Collects :
    (index : ℕ) (items : Items) (request : Fields)
    → Collects
        (λ name. or_else (last_data name index items) (get name request))
        (collect index items request)
unfolding collect last_data
collect-Collects index nil request = λ name. refl
collect-Collects index (cons item items) request =
    step (input_of index item) (input_of-Refused400 index item)
      (λ i. collect-Collects (suc index) items (set i.0 i.1 request))
  where
    step :
        (m : Result (String × Json))
        → Refused400 m
        → ((i : String × Json)
            → Collects
                (λ name.
                  or_else (last_data name (suc index) items) (get name (set i.0 i.1 request)))
                (collect (suc index) items (set i.0 i.1 request)))
        → Collects
            (λ name.
              or_else
                (or_else (last_data name (suc index) items) (data_if name m))
                (get name request))
            (m >>= λ i. collect (suc index) items (set i.0 i.1 request))
    step (err e) p rest = p
    step (ok (n, c)) p rest =
        same_Collects _ _ (collect (suc index) items (set n c request))
          (λ name. one_more_input (last_data name (suc index) items) name n c request) (rest (n, c))

-- what a conversion answers
abbrev pub Converted : Items → Result Json → Type 0
Converted inputs (ok v) =
    (request : Fields) × (v ≡ in_data request)
    × ((name : String) → get name request ≡ last_data name 0 inputs)
Converted inputs (err e) = status_code e ≡ 400

or_nothing : (name : String) (o : Option Json) → or_else o (get name end) ≡ o
unfolding get
or_nothing name none = refl
or_nothing name (some v) = refl

status_400 : (message : String) → status_code (bad_request_error message) ≡ 400
unfolding status_code
status_400 message = refl

converted :
    (inputs : Items) (r : Result Fields)
    → Collects (λ name. or_else (last_data name 0 inputs) (get name end)) r
    → Converted inputs (r >>= λ request. ok (in_data request))
converted inputs (ok request) c =
    (request, refl, λ name. c name ∙ or_nothing name (last_data name 0 inputs))
converted inputs (err e) c = c

-- The conversion of a list of inputs answers for each name the data of the last input with that name,
-- or is refused with status 400.
pub convert_inference_payload-Converted :
    (payload : Fields) (inputs : Items)
    → get "inputs" payload ≡ some (arr inputs)
    → Converted inputs (convert_inference_payload payload)
unfolding convert_inference_payload
convert_inference_payload-Converted payload nil p =
    subst (λ o. Converted nil (convert_inputs (nonempty_items o))) (sym p) (status_400 _)
convert_inference_payload-Converted payload (cons item items) p =
    subst (λ o. Converted (cons item items) (convert_inputs (nonempty_items o))) (sym p)
      (converted (cons item items) (collect 0 (cons item items) end)
        (collect-Collects 0 (cons item items) end))

ok-injective : {V : Type 0} (a b : V) → ◌≡◌ {A = Result V} (ok a) (ok b) → a ≡ b
ok-injective a b p = ap (λ r. elim r [ ok v ↦ v | err e ↦ a ]) p

in_data_form :
    (r : Result Fields) (v : Json)
    → (r >>= λ request. ok (in_data request)) ≡ ok v
    → (request : Fields) × (v ≡ in_data request)
in_data_form (ok request) v p = (request, sym (ok-injective _ _ p))
in_data_form (err e) v p = cc

inputs_form :
    (o : Option Items) (v : Json)
    → convert_inputs o ≡ ok v
    → (request : Fields) × (v ≡ in_data request)
unfolding convert_inputs
inputs_form none v p = cc
inputs_form (some inputs) v p = in_data_form (collect 0 inputs end) v p

module _ (loads : String → Option Json) (dumps : Json → String) where
  prompt_form :
      (o : Option String) (parameters : Fields) (v : Json)
      → convert_prompt loads dumps o parameters ≡ ok v
      → (request : Fields) × (v ≡ in_data request)
  unfolding convert_prompt
  prompt_form none parameters v p = cc
  prompt_form (some prompt) parameters v p = (_, sym (ok-injective _ _ p))

  -- the answer is the text itself, or one in the format of Perf Analyzer
  abbrev Prepared : String → Result (Option String) → Type 0
  Prepared text (ok none) = Unit
  Prepared text (ok (some out)) =
      (out ≡ text) ⊎ ((request : Fields) × (out ≡ dumps (in_data request)))
  Prepared text (err e) = Unit

  dumped-Prepared :
      (text : String) (r : Result Json)
      → ((v : Json) → r ≡ ok v → (request : Fields) × (v ≡ in_data request))
      → Prepared text (dumped loads dumps r)
  dumped-Prepared text (ok v) h = let c = h v refl in inr (c.0, ap dumps c.1)
  dumped-Prepared text (err e) h = tt

  if-Prepared :
      (b : Bool) (text : String) (r s : Result (Option String))
      → Prepared text r
      → Prepared text s
      → Prepared text (if b then r else s)
  if-Prepared true text r s p q = p
  if-Prepared false text r s p q = q

  prepare_object-Prepared :
      (text : String) (decoupled : Bool) (payload : Fields)
      → Prepared text (prepare_object loads dumps text decoupled payload)
  unfolding prepare_object convert_inference_payload convert_vllm_payload
  prepare_object-Prepared text decoupled payload =
      if-Prepared (is_list (get "data" payload)) text _ _ (inl refl) (
        if-Prepared (is_list (get "inputs" payload)) text _ _
          (dumped-Prepared text (convert_inference_payload payload)
            (inputs_form (nonempty_items (get "inputs" payload))))
          (if-Prepared (decoupled && has_key "text_input" payload) text _ _
            (dumped-Prepared text (convert_vllm_payload loads dumps payload) (prompt_form _ _))
            (inl refl)))

  parsed-Prepared :
      (text : String) (decoupled : Bool) (o : Option Json)
      → Prepared text (prepare_parsed loads dumps text decoupled o)
  parsed-Prepared text decoupled (some (obj payload)) =
      prepare_object-Prepared text decoupled payload
  parsed-Prepared text decoupled (some null) = inl refl
  parsed-Prepared text decoupled (some (bool b)) = inl refl
  parsed-Prepared text decoupled (some (num n)) = inl refl
  parsed-Prepared text decoupled (some (str s)) = inl refl
  parsed-Prepared text decoupled (some (arr vs)) = inl refl
  parsed-Prepared text decoupled none = inl refl

  prepare_input_data-Prepared :
      (text : String) (decoupled : Bool)
      → Prepared text (prepare_input_data loads dumps (some text) decoupled)
  unfolding prepare_input_data
  prepare_input_data-Prepared text decoupled =
      if-Prepared (strip text == "") text _ _ tt
        (parsed-Prepared text decoupled (loads (strip text)))

  -- a converted document is left as it is
  document_kept :
      (request : Fields) (decoupled : Bool)
      → loads "" ≡ none
      → loads (strip (dumps (in_data request))) ≡ some (in_data request)
      → prepare_input_data loads dumps (some (dumps (in_data request))) decoupled
        ≡ ok (some (dumps (in_data request)))
  unfolding prepare_input_data prepare_object get
  document_kept request decoupled e p = elim (Bool-cases (strip (dumps (in_data request)) == "")) [
    | inl q ↦ let absurd = sym p ∙ ap loads ((eq_iff _ "").0 q) ∙ e in cc
    | inr q ↦ rw (q, p) refl
  ]

  -- If `json.loads` raises on an empty text and reads what `json.dumps` has written, then input data
  -- that was prepared is left as it is by another preparation.
  pub prepare_input_data-idempotent :
      (text out : String) (decoupled : Bool)
      → loads "" ≡ none
      → ((request : Fields)
          → dumps (in_data request) ≡ out
          → loads (strip out) ≡ some (in_data request))
      → prepare_input_data loads dumps (some text) decoupled ≡ ok (some out)
      → prepare_input_data loads dumps (some out) decoupled ≡ ok (some out)
  prepare_input_data-idempotent text out decoupled e h p =
      kept (subst (Prepared text) p (prepare_input_data-Prepared text decoupled))
    where
      kept :
          (out ≡ text) ⊎ ((request : Fields) × (out ≡ dumps (in_data request)))
          → prepare_input_data loads dumps (some out) decoupled ≡ ok (some out)
      kept (inl q) =
          subst (λ t. prepare_input_data loads dumps (some t) decoupled ≡ ok (some out)) (sym q) p
      kept (inr (request, q)) =
          subst (λ t. prepare_input_data loads dumps (some t) decoupled ≡ ok (some t)) (sym q)
            (document_kept request decoupled e
              (subst (λ t. loads (strip t) ≡ some (in_data request)) q (h request (sym q))))
