-- ===== src/Inference/Proxy.antt =====
-- services/triton/models.py: the proxy of an inference, with the metrics that it reads around it.
-- Waiting between two reads is left out. Parameters are `str`, `json.loads` and `json.dumps`, the
-- encoding of the metrics in the header, and whether the headers of a response can be encoded.
use triton_control.Prelude.{
  ℕ, String, Bool, true, false, Option, none, some, truthy, List, [], ◌∷◌, ◌==◌, if◌then◌else◌,
}
use triton_control.Errors
use triton_control.Errors.{Result, ok, err, bad_request_error, bad_gateway_error}
use triton_control.Json.{Json}
use triton_control.Store.Data.{TritonInstanceEntity}
use triton_control.Inference.Generate.{
  model_config_uses_generate_endpoint, with_default_generate_parameters,
}
use triton_control.Inference.Triton.{
  Source, Call, HttpAnswer, Reply, Snapshot, InferenceMetrics, TritonService, Response, or_text,
  extract_triton_error_detail, is_metrics_snapshot_available, with_metric_context, delays,
  fallback_delays, metrics, stats, collect_counters, get_model_config, generate_model_raw,
  infer_model_raw, raised, answered,
}

-- A step of the proxy: the calls that were made are kept after an exception too.
abbrev pub Ask : Type 0 → Type 0
Ask A = List Call → Reply A × List Call

module _ {A : Type 0} where
  unfoldable pub pure : A → Ask A
  pure a log = (answered a, log)

  unfoldable pub fail : Option HttpAnswer → Ask A
  fail response log = (raised response, log)

  -- a pure step; its exceptions have no response
  unfoldable pub lift : Result A → Ask A
  lift (err e) log = (raised none, log)
  lift (ok a) log = (answered a, log)

  unfoldable pub call : Call → (List Call → Reply A) → Ask A
  call c answer log = (answer log, c ∷ log)

  unfoldable pub continue_with :
      {B : Type 0} → (A → Ask B) → Reply A × List Call → Reply B × List Call
  continue_with f (raised response, log) = (raised response, log)
  continue_with f (answered a, log) = f a log

infixl 5 ◌>>=◌
unfoldable pub ◌>>=◌ : {A B : Type 0} → Ask A → (A → Ask B) → Ask B
unfolding continue_with
◌>>=◌ m f log = continue_with f (m log)

module _ (triton : TritonService) where
  unfoldable pub collect_snapshot : Source → Ask Snapshot
  unfolding call
  collect_snapshot source =
      call (collect_counters source) (λ log. answered (triton.snapshot source log))

  -- what the counters show since the first snapshot
  unfoldable pub delta : (before after : Snapshot) → Ask InferenceMetrics
  unfolding lift
  delta before after = lift (triton.inference_metrics_delta before after)

  -- the loop over the delays: it ends as soon as the metrics are available
  unfoldable pub poll :
      Source
      → (before : Snapshot) → (waits : List ℕ) → (after : Snapshot) → InferenceMetrics
      → Ask (Snapshot × InferenceMetrics)
  unfolding collect_snapshot delta
  poll source before [] after m = pure (after, m)
  poll source before (wait ∷ waits) after m =
      let again = collect_snapshot source >>= λ next.
      delta before next >>= λ changed. poll source before waits next changed in
      if m.available then pure (after, m) else again

  -- the counters after the inference, read again until they have changed
  unfoldable pub measure : Source → (before : Snapshot) → (waits : List ℕ) → Ask InferenceMetrics
  unfolding poll
  measure source before waits = do
    after ← collect_snapshot source
    first ← delta before after
    read ← poll source before waits after first
    pure (with_metric_context read.1 source before read.0)

  -- statistics where the metrics endpoint shows no change
  unfoldable pub measured : Source → (before fallback_before : Snapshot) → Ask InferenceMetrics
  unfolding measure
  measured stats before fallback_before = measure stats before delays
  measured metrics before fallback_before = do
    m ← measure metrics before delays
    if m.available then pure m else measure stats fallback_before fallback_delays

  module _ (shown : Json → String) (loads : String → Result (Option Json))
      (dumps : Json → Result String) (encode_metrics_header : InferenceMetrics → String)
      (is_sendable : Response → Bool) (model_name version : String) where
    abbrev pub uses_generate : Option Json → Ask Bool
    uses_generate none = pure false
    uses_generate (some config) = lift (model_config_uses_generate_endpoint shown config)

    -- `_uses_generate_endpoint_backend`
    unfoldable pub uses_generate_endpoint_backend : Ask Bool
    unfolding model_config_uses_generate_endpoint
    uses_generate_endpoint_backend =
        call (get_model_config model_name version) (λ log. answered (triton.config log))
        >>= uses_generate

    -- the request that is proxied
    unfoldable pub request_of : (generates : Bool) → (bytes content_type : String) → Result Call
    unfolding with_default_generate_parameters
    request_of true bytes content_type =
        Errors.◌>>=◌ (with_default_generate_parameters loads dumps bytes content_type)
          (λ prepared. ok (generate_model_raw model_name prepared content_type))
    request_of false bytes content_type = ok (infer_model_raw model_name version bytes content_type)

    abbrev pub send_request : Call → Ask HttpAnswer
    send_request c = call c (triton.send c)

    abbrev pub response_of : HttpAnswer → InferenceMetrics → Response
    response_of answer m = record {
      content = answer.content;
      status_code = answer.status;
      media_type = or_text answer.content_type "application/json";
      inference_metrics = encode_metrics_header m;
    }

    -- the response is built; its headers may have no encoding
    unfoldable pub respond : Response → Ask Response
    respond r = if is_sendable r then pure r else fail none

    -- the body of the `try`
    unfoldable pub proxied :
        Source → (before fallback_before : Snapshot) → (bytes content_type : String) → Ask Response
    unfolding uses_generate_endpoint_backend request_of measured call lift respond
    proxied source before fallback_before bytes content_type = do
      generates ← uses_generate_endpoint_backend
      request ← lift (request_of generates bytes content_type)
      answer ← send_request request
      m ← measured source before fallback_before
      respond (response_of answer m)

    -- the counters before the inference: statistics are read in either case
    unfoldable pub from_metrics : (bytes content_type : String) → Option Snapshot → Ask Response
    unfolding proxied is_metrics_snapshot_available
    from_metrics bytes content_type none = do
      stats_before ← collect_snapshot stats
      proxied stats stats_before stats_before bytes content_type
    from_metrics bytes content_type (some metrics_before) = do
      stats_before ← collect_snapshot stats
      if is_metrics_snapshot_available (some metrics_before)
          then proxied metrics metrics_before stats_before bytes content_type
          else proxied stats stats_before stats_before bytes content_type

    abbrev pub optional_metrics : Bool → Ask (Option Snapshot)
    optional_metrics true = collect_snapshot metrics >>= λ s. pure (some s)
    optional_metrics false = pure none

    -- `except Exception`
    abbrev pub handled : Reply Response × List Call → Result Response × List Call
    handled (raised response, log) =
        (err (bad_gateway_error (extract_triton_error_detail response)), log)
    handled (answered r, log) = (ok r, log)

    abbrev pub proxy_found :
        Result TritonInstanceEntity
        → (bytes content_type : String) → List Call
        → Result Response × List Call
    proxy_found (err e) bytes content_type log = (err e, log)
    proxy_found (ok instance) bytes content_type log =
        handled
          ((optional_metrics (truthy instance.metrics_url) >>= from_metrics bytes content_type) log)

    -- `infer_model`, where `get_instance_or_404` answers `found`
    unfoldable pub infer_model :
        (found : Result TritonInstanceEntity)
        → (bytes content_type : String) → List Call
        → Result Response × List Call
    unfolding from_metrics extract_triton_error_detail
    infer_model found bytes content_type log =
        if bytes == ""
        then (err (bad_request_error "Request body is required"), log)
        else proxy_found found bytes content_type log
