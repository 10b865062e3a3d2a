-- ===== src/Tests/Payloads.antt =====
-- The preparation of benchmark input data at concrete payloads.
use triton_control.Prelude.{
  ◌≡◌, refl, sym, ap, ◌∙◌, String, Bool, true, false, ◌&&◌, Option, none, some, strip, ◌==◌, eq_iff,
  if◌then◌else◌, and_left, and_right,
}
use triton_control.Errors.{ok}
use triton_control.Json.{
  Json, null, bool, num, str, arr, obj, Items, nil, cons, Fields, end, field, get,
}
use triton_control.PerfJobs.Payload.{
  in_data, prepare_input_data, prepare_object, convert_inference_payload, collect,
}
use triton_control.PerfJobs.Inputs.{
  Converted, convert_inference_payload-Converted, prepare_input_data-idempotent,
}
use triton_control.Tests.{test_env}

-- {"x": "1"}
abbrev wanted : Fields
wanted = field "x" (str "1") end

abbrev is_wanted : Fields → Bool
is_wanted (field k (str s) end) = k == "x" && s == "1"
is_wanted _ = false

is_wanted-eq : (fs : Fields) → is_wanted fs ≡ true → fs ≡ wanted
is_wanted-eq end p = cc
is_wanted-eq (field k null fs) p = cc
is_wanted-eq (field k (bool b) fs) p = cc
is_wanted-eq (field k (num n) fs) p = cc
is_wanted-eq (field k (arr vs) fs) p = cc
is_wanted-eq (field k (obj gs) fs) p = cc
is_wanted-eq (field k (str s) (field j v fs)) p = cc
is_wanted-eq (field k (str s) end) p =
    ap (λ i. field i (str s) end) ((eq_iff k "x").0 (and_left (k == "x") (s == "1") p))
    ∙ ap (λ t. field "x" (str t) end) ((eq_iff s "1").0 (and_right (k == "x") (s == "1") p))

-- a writer that knows one document, and a reader that knows it and a payload
abbrev dumps : Json → String
dumps (obj (field k (arr (cons (obj request) nil)) end)) =
    if is_wanted request then "document" else "other"
dumps _ = "other"

abbrev inputs : Items
inputs = cons (obj (field "name" (str "x") (field "data" (str "1") end))) nil

abbrev payload : Fields
payload = field "inputs" (arr inputs) end

abbrev loads : String → Option Json
loads text =
    if text == "document"
    then some (in_data wanted)
    else if text == "payload"
    then some (obj payload)
    else none

reads_back :
    (request : Fields)
    → dumps (in_data request) ≡ "document"
    → loads (strip "document") ≡ some (in_data request)
unfolding strip
reads_back request p =
    ap (λ r. some (in_data r)) (sym (is_wanted-eq request (decided (is_wanted request) p)))
  where
    decided :
        (b : Bool) → ◌≡◌ {A = String} (if b then "document" else "other") "document" → b ≡ true
    decided true q = refl
    decided false q = cc

prepared : prepare_input_data loads dumps (some " payload ") false ≡ ok (some "document")
unfolding prepare_input_data prepare_object convert_inference_payload collect get
prepared = refl

prepare_input_data-idempotent_example :
    prepare_input_data loads dumps (some "document") false ≡ ok (some "document")
prepare_input_data-idempotent_example =
    prepare_input_data-idempotent loads dumps " payload " "document" false refl reads_back prepared

convert_inference_payload-Converted_example : Converted inputs (convert_inference_payload payload)
unfolding get
convert_inference_payload-Converted_example =
    convert_inference_payload-Converted payload inputs refl
