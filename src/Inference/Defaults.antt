-- ===== src/Inference/Defaults.antt =====
-- What a request to the generate endpoint holds after its defaults were set.
use triton_control.Prelude.{
  ◌≡◌, refl, sym, ap, subst, ◌∙◌, inl, inr, String, Bool, true, false, ◌&&◌, Option, none, some,
  lower, has_part, ◌==◌, eq_iff, Bool-cases, and_left, and_right, if◌then◌else◌,
}
use triton_control.Errors.{Result, ok, ◌>>=◌}
use triton_control.Json.{Json, bool, num, obj, Fields, get, has_key}
use triton_control.Json.Entries.{set, get-set, get-set_other}
use triton_control.Inference.Generate.{
  default_generate_max_tokens, set_default, with_defaults, default_parameters,
  with_default_generate_parameters,
}

abbrev or_else : Option Json → Option Json → Option Json
or_else none other = other
or_else (some v) other = some v

or_else-none : (o : Option Json) → or_else o none ≡ o
or_else-none none = refl
or_else-none (some v) = refl

abbrev given : Option Json → Bool
given o = elim o [ none ↦ false | some v ↦ true ]

abbrev only : String → Json → String → Option Json
only key v name = if key == name then some v else none

get-set_default-found :
    (name key : String) (v w : Json) (fs : Fields)
    → get key fs ≡ some w
    → get name fs ≡ or_else (get name fs) (only key v name)
get-set_default-found name key v w fs p = elim (Bool-cases (key == name)) [
  | inl q ↦ let here = subst (λ k. get k fs ≡ some w) ((eq_iff key name).0 q) p in rw (here) refl
  | inr q ↦ rw (q) (sym (or_else-none (get name fs)))
]

get-set_default-missing :
    (name key : String) (v : Json) (fs : Fields)
    → get key fs ≡ none
    → get name (set key v fs) ≡ or_else (get name fs) (only key v name)
get-set_default-missing name key v fs p = elim (Bool-cases (key == name)) [
  | inl q ↦
      let same = (eq_iff key name).0 q in
      let here = subst (λ k. get k fs ≡ none) same p in
      rw (q, here) (ap (λ k. get name (set k v fs)) same ∙ get-set name v fs)
  | inr q ↦ rw (q) (get-set_other name key v fs q ∙ sym (or_else-none (get name fs)))
]

get-set_default :
    (name key : String) (v : Json) (fs : Fields)
    → get name (set_default key v fs) ≡ or_else (get name fs) (only key v name)
unfolding set_default
get-set_default name key v fs = cases (get key fs) refl
  where
    cases :
        (o : Option Json)
        → get key fs ≡ o
        → get name (if given (get key fs) then fs else set key v fs)
          ≡ or_else (get name fs) (only key v name)
    cases none p = rw (p) (get-set_default-missing name key v fs p)
    cases (some w) p = rw (p) (get-set_default-found name key v w fs p)

-- The parameters with the two defaults, described by their entries.
unfoldable pub defaulted : Fields → String → Option Json
defaulted fs name =
    or_else (or_else (get name fs) (only "max_tokens" (num default_generate_max_tokens) name))
      (only "ignore_eos" (bool false) name)

get-with_defaults : (fs : Fields) (name : String) → get name (with_defaults fs) ≡ defaulted fs name
unfolding with_defaults defaulted
get-with_defaults fs name =
    get-set_default name "ignore_eos" (bool false) (set_default "max_tokens" _ fs)
    ∙ ap (λ o. or_else o (only "ignore_eos" (bool false) name))
        (get-set_default name "max_tokens" (num default_generate_max_tokens) fs)

set_default-kept :
    (key : String) (v : Json) (fs : Fields) → has_key key fs ≡ true → set_default key v fs ≡ fs
unfolding set_default
set_default-kept key v fs p = rw (p) refl

with_defaults-kept :
    (fs : Fields)
    → has_key "max_tokens" fs ≡ true
    → has_key "ignore_eos" fs ≡ true
    → with_defaults fs ≡ fs
unfolding with_defaults
with_defaults-kept fs p q =
    ap (set_default "ignore_eos" (bool false)) (set_default-kept "max_tokens" _ fs p)
    ∙ set_default-kept "ignore_eos" (bool false) fs q

-- a document whose parameters have the defaults, and whose other entries are the payload's
pub record Defaulted (payload parameters : Fields) (document : Result (Option Json)) : Type 0 where
  pub result : Fields
  pub result_parameters : Fields
  pub reads : document ≡ ok (some (obj result))
  pub has_parameters : get "parameters" result ≡ some (obj result_parameters)
  pub entries : (name : String) → get name result_parameters ≡ defaulted parameters name
  pub others : (name : String) → ("parameters" == name) ≡ false → get name result ≡ get name payload

abbrev pub with_parameters : (payload parameters : Fields) → Json
with_parameters payload parameters = obj (set "parameters" (obj (with_defaults parameters)) payload)

module _ (loads : String → Result (Option Json)) (dumps : Json → Result String)
    (payload parameters : Fields) where
  kept :
      (bytes : String)
      → loads bytes ≡ ok (some (obj payload))
      → get "parameters" payload ≡ some (obj parameters)
      → with_defaults parameters ≡ parameters
      → Defaulted payload parameters (loads bytes)
  kept bytes p q same = record {
    result = payload;
    result_parameters = parameters;
    reads = p;
    has_parameters = q;
    entries = λ name. sym (ap (get name) same) ∙ get-with_defaults parameters name;
    others = λ name _. refl;
  }

  written :
      (text : String)
      → loads text ≡ ok (some (with_parameters payload parameters))
      → Defaulted payload parameters (loads text)
  written text p = record {
    result = set "parameters" (obj (with_defaults parameters)) payload;
    result_parameters = with_defaults parameters;
    reads = p;
    has_parameters = get-set "parameters" (obj (with_defaults parameters)) payload;
    entries = get-with_defaults parameters;
    others = λ name. get-set_other name "parameters" (obj (with_defaults parameters)) payload;
  }

  -- A JSON request with parameters, whose document with the defaults is written without an exception
  -- so that `json.loads` reads it back, has both defaults where it had no value of its own, and is
  -- otherwise what it was.
  pub with_default_generate_parameters-Defaulted :
      (bytes content_type text : String)
      → has_part "json" (lower (if content_type == "" then "application/json" else content_type))
        ≡ true
      → loads bytes ≡ ok (some (obj payload))
      → get "parameters" payload ≡ some (obj parameters)
      → dumps (with_parameters payload parameters) ≡ ok text
      → loads text ≡ ok (some (with_parameters payload parameters))
      → Defaulted payload parameters
          (with_default_generate_parameters loads dumps bytes content_type >>= loads)
  unfolding with_default_generate_parameters default_parameters
  with_default_generate_parameters-Defaulted bytes content_type text json p q out back =
      rw (json, p, q)
        (elim (Bool-cases (has_key "max_tokens" parameters && has_key "ignore_eos" parameters)) [
          | inl both ↦ rw (both) (
              kept bytes p q (
                with_defaults-kept parameters
                  (and_left (has_key "max_tokens" parameters) (has_key "ignore_eos" parameters)
                    both)
                  (and_right (has_key "max_tokens" parameters) (has_key "ignore_eos" parameters)
                    both)))
          | inr some_missing ↦ rw (some_missing, out) (written text back)
        ])
