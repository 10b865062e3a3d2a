-- ===== src/Inference/Refusals.antt =====
-- Why a request for an inference is refused.
use triton_control.Prelude.{◌≡◌, ◌≢◌, ◌⊎◌, String, Bool, false, Option, none, some, List}
use triton_control.Errors.{AppError, Result, ok, err, bad_request_error, bad_gateway_error}
use triton_control.Json.{Json}
use triton_control.Store.Data.{TritonInstanceEntity}
use triton_control.Inference.Generate.{model_config_uses_generate_endpoint}
use triton_control.Inference.Triton.{
  Source, Call, HttpAnswer, raised, InferenceMetrics, TritonService, Response,
  extract_triton_error_detail,
}
use triton_control.Inference.Proxy.{request_of}

module _ (triton : TritonService) (shown : Json → String) (loads : String → Result (Option Json))
    (dumps : Json → Result String) (encode_metrics_header : InferenceMetrics → String)
    (is_sendable : Response → Bool) (model_name version bytes content_type : String) where
  -- why the proxy answers with 502, with the response that the exception has
  pub data Cause : Option HttpAnswer → Type 0 where
    -- the configuration does not say which endpoint to use
    undecided :
        (log : List Call) (config : Json) (e : AppError)
        → triton.config log ≡ some config
        → model_config_uses_generate_endpoint shown config ≡ err e
        → Cause none
    -- the defaults cannot be written into the request
    unprepared :
        (generates : Bool) (e : AppError)
        → request_of triton shown loads dumps encode_metrics_header is_sendable model_name version
            generates bytes content_type
          ≡ err e
        → Cause none
    -- the model does not answer the request
    unanswered :
        (generates : Bool) (request : Call) (log : List Call) (response : Option HttpAnswer)
        → request_of triton shown loads dumps encode_metrics_header is_sendable model_name version
            generates bytes content_type
          ≡ ok request
        → triton.send request log ≡ raised response
        → Cause response
    -- the counters cannot be compared
    uncounted :
        (source : Source) (first later : List Call) (e : AppError)
        → triton.inference_metrics_delta
            (triton.snapshot source first)
            (triton.snapshot source later)
          ≡ err e
        → Cause none
    -- the headers of the response cannot be encoded
    unsendable : (r : Response) → is_sendable r ≡ false → Cause none

  -- why a request is refused, and when it can be answered
  abbrev pub Outcome :
      Result TritonInstanceEntity → List Call → Result Response × List Call → Type 0
  Outcome found before (ok r, log) =
      (bytes ≢ "") × (instance_row : TritonInstanceEntity) × (found ≡ ok instance_row)
  Outcome found before (err e, log) =
      ((bytes ≡ "") × (e ≡ bad_request_error "Request body is required") × (log ≡ before))
      ⊎ ((bytes ≢ "") × (found ≡ err e) × (log ≡ before))
      ⊎ ((bytes ≢ "")
          × (response : Option HttpAnswer) × (e
              ≡ bad_gateway_error (extract_triton_error_detail response))
          × Cause response)
