-- ===== src/Inference/Generate.antt =====
-- services/triton/models.py: which models are asked by the generate endpoint, and the parameters that a
-- request to it gets. `str` of what is no text, `json.loads`, and `json.dumps` with the encoding of
-- its text in UTF-8, are parameters. `loads` answers `none` where it raises the TypeError or the
-- ValueError that is caught; it may raise a RecursionError, and the encoding fails for a text with a
-- lone surrogate.
use triton_control.Prelude.{
  String, Bool, true, false, not, ◌&&◌, ◌||◌, Option, some, lower, has_part, replace, one_of, List,
  [], ◌∷◌, ◌++◌, ◌==◌, map, if◌then◌else◌,
}
use triton_control.Prelude.Int.{ℤ, pos}
use triton_control.Errors.{Result, ok, err, uncaught, ◌>>=◌}
use triton_control.Json.{
  Json, null, bool, num, str, arr, obj, Items, nil, cons, Fields, end, field, get, has_key, value,
  is_truthy,
}
use triton_control.Json.Entries.{set}

unfoldable pub normalize_backend : String → String
unfolding lower
normalize_backend v = replace " " "_" (replace "-" "_" (lower v))

module _ (shown : Json → String) where
  -- str(v)
  abbrev pub text_of : Json → String
  text_of (str s) = s
  text_of v = shown v

  -- the texts of a value that is not `None`
  unfoldable pub part_of : Json → List String
  part_of null = []
  part_of v = text_of v ∷ []

  -- the part that a parameter gives
  unfoldable pub parameter_part : Json → List String
  unfolding part_of
  parameter_part (obj fs) = part_of (value "string_value" fs)
  parameter_part v = part_of v

  unfoldable pub parameter_parts : Fields → List String
  unfolding parameter_part
  parameter_parts end = []
  parameter_parts (field k v fs) = parameter_part v ++ parameter_parts fs

  abbrev pub parts_in : Json → List String
  parts_in (obj fs) = parameter_parts fs
  parts_in _ = []

  unfoldable pub config_parts : Json → List String
  unfolding part_of parameter_parts
  config_parts (obj fs) =
      part_of (value "backend" fs)
      ++ (part_of (value "platform" fs) ++ parts_in (value "parameters" fs))
  config_parts _ = []

  -- str(item.get("name") or "")
  abbrev pub name_of : Json → String
  name_of v = if is_truthy v then text_of v else ""

  unfoldable pub has_item : String → Items → Bool
  has_item name nil = false
  has_item name (cons (obj fs) items) = name_of (value "name" fs) == name || has_item name items
  has_item name (cons _ items) = has_item name items

  -- the loop over the inputs: texts and dictionaries have no items that are dictionaries, and a value
  -- that is no collection raises a TypeError
  unfoldable pub has_input_in : String → Json → Result Bool
  unfolding has_item
  has_input_in name (arr items) = ok (has_item name items)
  has_input_in name (bool true) = err (uncaught "TypeError")
  has_input_in name (num n) = if is_truthy (num n) then err (uncaught "TypeError") else ok false
  has_input_in name _ = ok false

  -- `_model_config_has_input`
  unfoldable pub model_config_has_input : Json → String → Result Bool
  unfolding has_input_in
  model_config_has_input (obj fs) name =
      has_input_in name
        (if is_truthy (value "input" fs) then value "input" fs else value "inputs" fs)
  model_config_has_input _ name = ok false

  -- `_model_config_uses_generate_endpoint`
  unfoldable pub model_config_uses_generate_endpoint : Json → Result Bool
  unfolding config_parts model_config_has_input normalize_backend
  model_config_uses_generate_endpoint config =
      let parts = map normalize_backend (config_parts config) in
      if one_of "vllm" parts
      then ok true
      else if one_of "tensorrtllm" parts || one_of "tensorrt_llm" parts || one_of "trtllm" parts
      then model_config_has_input config "text_input"
      else ok false

-- `DEFAULT_GENERATE_MAX_TOKENS`
abbrev pub default_generate_max_tokens : ℤ
default_generate_max_tokens = pos 2048

-- `if key not in parameters: parameters[key] = v`
unfoldable pub set_default : String → Json → Fields → Fields
unfolding set
set_default key v fs = if has_key key fs then fs else set key v fs

unfoldable pub with_defaults : Fields → Fields
unfolding set_default
with_defaults fs =
    set_default "ignore_eos" (bool false)
      (set_default "max_tokens" (num default_generate_max_tokens) fs)

module _ (loads : String → Result (Option Json)) (dumps : Json → Result String) where
  -- the branches on the parameters of a payload that is an object
  unfoldable pub default_parameters : String → (payload : Fields) → Option Json → Result String
  unfolding with_defaults set
  default_parameters bytes payload (some (obj fs)) =
      if has_key "max_tokens" fs && has_key "ignore_eos" fs
      then ok bytes
      else dumps (obj (set "parameters" (obj (with_defaults fs)) payload))
  default_parameters bytes payload _ = ok bytes

  abbrev pub default_payload : String → Option Json → Result String
  default_payload bytes (some (obj payload)) =
      default_parameters bytes payload (get "parameters" payload)
  default_payload bytes _ = ok bytes

  -- `_with_default_generate_parameters`
  unfoldable pub with_default_generate_parameters : (bytes content_type : String) → Result String
  unfolding default_parameters lower has_part
  with_default_generate_parameters bytes content_type =
      if not
        (has_part "json" (lower (if content_type == "" then "application/json" else content_type)))
      then ok bytes
      else loads bytes >>= default_payload bytes
