-- ===== src/Tests/Inference.antt =====
-- An inference by a model of vLLM, and the defaults of a request without parameters.
use triton_control.Prelude.{
  Bool, one_of, replace_from, List, ◌∷◌, ◌≡◌, refl, String, true, none, some, Option, lower,
  has_part, [], ◌==◌, if◌then◌else◌,
}
use mathlib.Core.List.{Perm}
use triton_control.Prelude.Sort.{text_le}
use triton_control.Inference.Snapshot.{
  RepositoryModel, normalize_repository_models, unavailable_repository_model_count,
}
use triton_control.Inference.Snapshot.Stored.{
  Collected, InOrder, normalize_repository_models-Stored,
}
use triton_control.Errors.{Result, ok, err, bad_gateway_error, ◌>>=◌}
use triton_control.Json.{Json, null, str, obj, Fields, end, field, get}
use triton_control.Store.Data.{TritonInstanceEntity}
use triton_control.Inference.Defaults.{
  Defaulted, with_parameters, with_default_generate_parameters-Defaulted,
}
use triton_control.Inference.Generate.{
  model_config_uses_generate_endpoint, with_default_generate_parameters,
}
use triton_control.Inference.Triton.{
  Response, HttpAnswer, answered, raised, InferenceMetrics, TritonService,
}
use triton_control.Inference.Proxy.{infer_model}
use triton_control.Inference.Sent.{AskedOnce, infer_model-AskedOnce}
use triton_control.Inference.Relay.{RelayedIfOk, infer_model-Relayed}

abbrev parameters : Fields
parameters = field "top_p" (str "1") end

abbrev payload : Fields
payload = field "text_input" (str "hello") (field "parameters" (obj parameters) end)

abbrev loads : String → Result (Option Json)
loads text =
    if text == "payload"
    then ok (some (obj payload))
    else if text == "document"
    then ok (some (with_parameters payload parameters))
    else ok none

abbrev dumps : Json → Result String
dumps v = ok "document"

with_default_generate_parameters-Defaulted_example :
    Defaulted payload parameters
      (with_default_generate_parameters loads dumps "payload" "" >>= loads)
unfolding lower has_part get
with_default_generate_parameters-Defaulted_example =
    with_default_generate_parameters-Defaulted loads dumps payload parameters "payload" ""
      "document" refl refl refl refl refl

abbrev answer : HttpAnswer
answer = record { status = 200; json = none; text = "hi"; content = "hi"; content_type = none }

abbrev latency : InferenceMetrics
latency = record {
  available = true;
  error = none;
  models = null;
  source = none;
  before_series_count = none;
  after_series_count = none;
}

abbrev triton : TritonService
triton = record {
  config = λ log. some (obj (field "backend" (str "vllm") end));
  snapshot = λ source log. record { series = end; error = none };
  send = λ c log. answered answer;
  inference_metrics_delta = λ earlier later. ok latency;
}

abbrev instance_row : TritonInstanceEntity
instance_row = record {
  id = 1;
  name = "llm";
  url = "http://llm:8000";
  metrics_url = some "http://llm:8002/metrics";
  is_self_deployed = true;
  deployment_namespace = none;
  deployment_name = none;
  deployment_service_name = none;
}

abbrev shown : Json → String
shown v = ""

abbrev sendable : Response → Bool
sendable r = true

abbrev header_of : InferenceMetrics → String
header_of m = "e30="

infer_model-AskedOnce_example : AskedOnce [] (
    infer_model triton shown loads dumps header_of sendable "llm" "1"
      (ok instance_row)
      "payload"
      ""
      [])
infer_model-AskedOnce_example =
    infer_model-AskedOnce triton shown loads dumps header_of sendable "llm" "1" (ok instance_row)
      "payload" "" []

infer_model-Relayed_example :
    RelayedIfOk triton shown loads dumps header_of sendable "llm" "1" "payload" ""
      (infer_model triton shown loads dumps header_of sendable "llm" "1"
        (ok instance_row)
        "payload"
        ""
        []).0
infer_model-Relayed_example =
    infer_model-Relayed triton shown loads dumps header_of sendable "llm" "1" "payload" ""
      (ok instance_row) []

abbrev rows : List Fields
rows =
    field "name" (str " b ") end
    ∷ field "name" (str "A") end
    ∷ field "name" (str " ") end
    ∷ field "name" (str "c") (field "state" (str "unavailable ") end)
    ∷ []

one_unavailable : unavailable_repository_model_count lower shown rows ≡ 1
unfolding unavailable_repository_model_count get lower text_le
one_unavailable = refl

normalize_repository_models-Stored_example :
    (models : List RepositoryModel) × Collected lower shown rows models
    × Perm (normalize_repository_models lower shown rows) models
    × InOrder lower shown (normalize_repository_models lower shown rows)
normalize_repository_models-Stored_example = normalize_repository_models-Stored lower shown rows

-- the model is not there, and its server says so
abbrev gone : HttpAnswer
gone = record answer { status = 404; json = some (obj (field "error" (str " no such model ") end)) }

abbrev silent : TritonService
silent = record triton { send = λ c log. raised (some gone) }

missing_model :
    (infer_model silent shown loads dumps header_of sendable "llm" "1"
      (ok instance_row)
      "payload"
      ""
      []).0
    ≡ err (bad_gateway_error "no such model")
unfolding infer_model model_config_uses_generate_endpoint get lower has_part one_of replace_from
    triton_control.Inference.Proxy.◌>>=◌ triton_control.Inference.Proxy.pure
missing_model = refl
