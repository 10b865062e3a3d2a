-- ===== src/PerfJobs/Payload.antt =====
-- services/perf_analyzer/commands.py: the input data of a benchmark. `json.loads` and `json.dumps` are
-- parameters; the inputs of a payload are numbered from 0.
use triton_control.Prelude.{
  ℕ, suc, String, Bool, true, false, not, ◌&&◌, Option, none, some, strip, is_blank, lower,
  has_char, one_of, [], ◌∷◌, ◌^^◌, ◌==◌, if◌then◌else◌,
}
use triton_control.Prelude.Int.{decimal}
use triton_control.Errors.{Result, ok, err, bad_request_error, ◌>>=◌}
use triton_control.Json.Entries.{set}
use triton_control.Json.{
  Json, null, bool, num, str, arr, obj, Items, nil, cons, Fields, end, field, get, has_key,
}

-- d.pop(key, None)
unfoldable pub pop : String → Fields → Fields
pop key end = end
pop key (field k w rest) = let others = pop key rest in if k == key then rest else field k w others

abbrev pub input_error : ℕ → String → String
input_error index message = "inputs[" ^^ decimal index ^^ "]" ^^ message

-- data, if it is not None
abbrev pub given : Option Json → Option Json
given none = none
given (some null) = none
given (some (bool b)) = some (bool b)
given (some (num n)) = some (num n)
given (some (str s)) = some (str s)
given (some (arr vs)) = some (arr vs)
given (some (obj fs)) = some (obj fs)

-- a name that is a text and not blank
unfoldable pub name_in : Option Json → Option String
unfolding is_blank
name_in (some (str s)) = if is_blank s then none else some s
name_in _ = none

-- the name and the data of one input
unfoldable pub input_of : ℕ → Json → Result (String × Json)
unfolding name_in decimal
input_of index (obj fs) = elim (name_in (get "name" fs)) [
  | none ↦ err (bad_request_error (input_error index ".name must be a non-empty string"))
  | some name ↦ elim (given (get "data" fs)) [
    | none ↦ err (bad_request_error (input_error index ".data is required for conversion"))
    | some content ↦ ok (name, content)
  ]
]
input_of index _ = err (bad_request_error (input_error index " must be an object"))

-- the loop over the inputs, with what it has collected
unfoldable pub collect : ℕ → Items → Fields → Result Fields
unfolding input_of set
collect index nil request = ok request
collect index (cons item items) request =
    input_of index item >>= λ i. collect (suc index) items (set i.0 i.1 request)

abbrev pub in_data : Fields → Json
in_data request = obj (field "data" (arr (cons (obj request) nil)) end)

abbrev pub nonempty_items : Option Json → Option Items
nonempty_items (some (arr (cons v vs))) = some (cons v vs)
nonempty_items _ = none

-- the conversion of inputs that are there
unfoldable pub convert_inputs : Option Items → Result Json
unfolding collect
convert_inputs none =
    err (bad_request_error "Inference payload must include a non-empty 'inputs' array")
convert_inputs (some inputs) = collect 0 inputs end >>= λ request. ok (in_data request)

-- `_convert_inference_payload_to_perf_input`
unfoldable pub convert_inference_payload : Fields → Result Json
unfolding convert_inputs
convert_inference_payload payload = convert_inputs (nonempty_items (get "inputs" payload))

-- the prompt: a text, or a list of one
abbrev prompt_of : Option Json → Option String
prompt_of (some (str s)) = some s
prompt_of (some (arr (cons (str s) nil))) = some s
prompt_of _ = none

abbrev parameters_of : Option Json → Fields
parameters_of (some (obj fs)) = fs
parameters_of _ = end

abbrev pub is_list : Option Json → Bool
is_list (some (arr vs)) = true
is_list _ = false

module _ (loads : String → Option Json) (dumps : Json → String) where
  -- the conversion of a prompt that is there
  unfoldable pub convert_prompt : Option String → (parameters : Fields) → Result Json
  unfolding pop
  convert_prompt none parameters =
      err (bad_request_error "vLLM Perf Analyzer input must include a string 'text_input'")
  convert_prompt (some prompt) parameters = ok (
      in_data (
        field "text_input" (arr (cons (str prompt) nil)) (
          field "stream" (arr (cons (bool true) nil)) (
            field "sampling_parameters"
              (arr (cons (str (dumps (obj (pop "stream" parameters)))) nil)) end))))

  -- `_convert_vllm_generate_payload_to_perf_input`
  unfoldable pub convert_vllm_payload : Fields → Result Json
  unfolding convert_prompt
  convert_vllm_payload payload =
      convert_prompt (prompt_of (get "text_input" payload))
        (parameters_of (get "parameters" payload))

  abbrev pub dumped : Result Json → Result (Option String)
  dumped converted = converted >>= λ v. ok (some (dumps v))

  -- the branches on a payload that is an object
  unfoldable pub prepare_object : String → Bool → Fields → Result (Option String)
  unfolding convert_inference_payload convert_vllm_payload
  prepare_object input_data decoupled payload =
      if is_list (get "data" payload)
      then ok (some input_data)
      else if is_list (get "inputs" payload)
      then dumped (convert_inference_payload payload)
      else if decoupled && has_key "text_input" payload
      then dumped (convert_vllm_payload payload)
      else ok (some input_data)

  abbrev pub prepare_parsed : String → Bool → Option Json → Result (Option String)
  prepare_parsed input_data decoupled (some (obj payload)) =
      prepare_object input_data decoupled payload
  prepare_parsed input_data decoupled _ = ok (some input_data)

  unfoldable pub prepare_input_data : Option String → (decoupled : Bool) → Result (Option String)
  unfolding prepare_object strip
  prepare_input_data none decoupled = ok none
  prepare_input_data (some input_data) decoupled =
      if strip input_data == ""
      then ok none
      else prepare_parsed input_data decoupled (loads (strip input_data))

-- `direct_perf_input_argument`
unfoldable pub direct_perf_input_argument : String → Option String
unfolding strip lower has_char
direct_perf_input_argument text =
    let raw = strip text in
    if raw == ""
    then none
    else if one_of (lower raw) ("zero" ∷ "random" ∷ [])
    then some (lower raw)
    else if not (has_char 10 raw)
        && not (has_char b'{' raw)
        && not (has_char b'[' raw)
        && has_char b'/' raw
    then some raw
    else none
