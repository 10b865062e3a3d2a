-- ===== src/Inference/Sent.antt =====
-- How many calls the proxy of an inference makes, and that the model is asked once.
use triton_control.Prelude.{
  subst, refl, ℕ, suc, ◌+◌, ◌≤◌, ◌≡◌, String, Bool, true, false, Option, none, some, truthy, List,
  [], ◌∷◌, ◌==◌, arith, if◌then◌else◌,
}
use triton_control.Errors
use triton_control.Errors.{Result, ok, err}
use triton_control.Json.{Json}
use triton_control.Store.Data.{TritonInstanceEntity}
use triton_control.Inference.Generate.{model_config_uses_generate_endpoint}
use triton_control.Inference.Costs.{
  lift-Costs, lift_bind-Costs, calls, inferences, asks, Spent, Costs, pure-Costs, fail-Costs,
  more-Costs, call-Costs, if-Costs, bind-Costs,
}
use triton_control.Inference.Triton.{
  Source, metrics, stats, Call, collect_counters, get_model_config, generate_model_raw, Reply,
  raised, answered, Snapshot, InferenceMetrics, TritonService, Response,
  is_metrics_snapshot_available, delays, fallback_delays,
}
use triton_control.Inference.Proxy.{
  delta, call, respond, ◌>>=◌, collect_snapshot, poll, send_request, measure, measured,
  uses_generate, uses_generate_endpoint_backend, request_of, proxied, from_metrics,
  optional_metrics, handled, proxy_found, infer_model,
}

-- the number of times that a loop over the delays can read
unfoldable rounds : List ℕ → ℕ
rounds [] = 0
rounds (wait ∷ waits) = suc (rounds waits)

module _ (triton : TritonService) where
  collect_snapshot-Costs : (source : Source) → Costs 1 0 (collect_snapshot triton source)
  unfolding collect_snapshot asks
  collect_snapshot-Costs source = call-Costs (collect_counters source) _

  delta-Costs : (before after : Snapshot) → Costs 0 0 (delta triton before after)
  unfolding delta
  delta-Costs before after = lift-Costs (triton.inference_metrics_delta before after)

  poll-Costs :
      (source : Source) (before : Snapshot) (waits : List ℕ) (after : Snapshot)
      (m : InferenceMetrics)
      → Costs (rounds waits) 0 (poll triton source before waits after m)
  unfolding poll rounds
  poll-Costs source before [] after m = pure-Costs (after, m)
  poll-Costs source before (wait ∷ waits) after m =
      if-Costs m.available _ _
        (more-Costs (suc (rounds waits)) (omega arith) (pure-Costs (after, m)))
        (more-Costs (suc (rounds waits)) (omega arith) (
          bind-Costs (collect_snapshot-Costs source) (λ next.
            bind-Costs (delta-Costs before next)
              (λ changed. poll-Costs source before waits next changed))))

  measure-Costs :
      (source : Source) (before : Snapshot) (waits : List ℕ)
      → Costs (1 + rounds waits) 0 (measure triton source before waits)
  unfolding measure
  measure-Costs source before waits = more-Costs (1 + rounds waits) (omega arith) (
      bind-Costs (collect_snapshot-Costs source) (λ after.
        bind-Costs (delta-Costs before after) (λ first.
          bind-Costs (poll-Costs source before waits after first) (λ read. pure-Costs _))))

  measured-Costs :
      (source : Source) (before fallback_before : Snapshot)
      → Costs 9 0 (measured triton source before fallback_before)
  unfolding measured rounds
  measured-Costs stats before fallback_before =
      more-Costs 9 (omega arith) (measure-Costs stats before delays)
  measured-Costs metrics before fallback_before =
      bind-Costs (measure-Costs metrics before delays) (λ m.
        if-Costs m.available _ _ (more-Costs 4 (omega arith) (pure-Costs m))
          (measure-Costs stats fallback_before fallback_delays))

  module _ (shown : Json → String) (loads : String → Result (Option Json))
      (dumps : Json → Result String) (encode_metrics_header : InferenceMetrics → String)
      (is_sendable : Response → Bool) (model_name version : String) where
    uses_generate-Costs :
        (config : Option Json)
        → Costs 0 0 (
            uses_generate triton shown loads dumps encode_metrics_header is_sendable model_name
              version config)
    uses_generate-Costs none = pure-Costs false
    uses_generate-Costs (some config) =
        lift-Costs (model_config_uses_generate_endpoint shown config)

    uses_endpoint-Costs : Costs 1 0 (
        uses_generate_endpoint_backend triton shown loads dumps encode_metrics_header is_sendable
          model_name version)
    unfolding uses_generate_endpoint_backend asks
    uses_endpoint-Costs =
        bind-Costs (call-Costs (get_model_config model_name version) _) uses_generate-Costs

    -- the request, if it can be prepared, asks for one inference
    abbrev AsksOnce : Result Call → Type 0
    AsksOnce (err e) = Unit
    AsksOnce (ok c) = asks c ≡ 1

    prepared_once :
        (r : Result String) (content_type : String)
        → AsksOnce
            (Errors.◌>>=◌ r (λ prepared. ok (generate_model_raw model_name prepared content_type)))
    unfolding asks
    prepared_once (err e) content_type = tt
    prepared_once (ok prepared) content_type = refl

    request_of-AsksOnce :
        (generates : Bool) (bytes content_type : String)
        → AsksOnce (
            request_of triton shown loads dumps encode_metrics_header is_sendable model_name version
              generates bytes content_type)
    unfolding request_of asks
    request_of-AsksOnce true bytes content_type = prepared_once _ content_type
    request_of-AsksOnce false bytes content_type = refl

    send_request-Costs :
        (r : Result Call) (c : Call)
        → AsksOnce r
        → r ≡ ok c
        → Costs 1 1 (
            send_request triton shown loads dumps encode_metrics_header is_sendable model_name
              version c)
    send_request-Costs r c h p =
        subst (λ n. Costs 1 n (call c (triton.send c))) (subst AsksOnce p h)
          (call-Costs c (triton.send c))

    respond-Costs :
        (r : Response)
        → Costs 0 0 (
            respond triton shown loads dumps encode_metrics_header is_sendable model_name version r)
    unfolding respond
    respond-Costs r = if-Costs (is_sendable r) _ _ (pure-Costs r) (fail-Costs none)

    proxied-Costs :
        (source : Source) (before fallback_before : Snapshot) (bytes content_type : String)
        → Costs 11 1 (
            proxied triton shown loads dumps encode_metrics_header is_sendable model_name version
              source before fallback_before bytes content_type)
    unfolding proxied
    proxied-Costs source before fallback_before bytes content_type =
        bind-Costs uses_endpoint-Costs (λ generates.
          lift_bind-Costs
            (request_of triton shown loads dumps encode_metrics_header is_sendable model_name
              version generates bytes content_type)
            (λ c p.
              bind-Costs
                (send_request-Costs _ c (request_of-AsksOnce generates bytes content_type) p)
                (λ answer.
                  bind-Costs (measured-Costs source before fallback_before)
                    (λ m. respond-Costs _))))

    from_metrics-Costs :
        (bytes content_type : String) (found : Option Snapshot)
        → Costs 12 1 (
            from_metrics triton shown loads dumps encode_metrics_header is_sendable model_name
              version bytes content_type found)
    unfolding from_metrics
    from_metrics-Costs bytes content_type none =
        bind-Costs (collect_snapshot-Costs stats) (λ s. proxied-Costs stats s s bytes content_type)
    from_metrics-Costs bytes content_type (some before) =
        bind-Costs (collect_snapshot-Costs stats) (λ s.
          if-Costs (is_metrics_snapshot_available (some before)) _ _
            (proxied-Costs metrics before s bytes content_type)
            (proxied-Costs stats s s bytes content_type))

    optional_metrics-Costs :
        (b : Bool)
        → Costs 1 0 (
            optional_metrics triton shown loads dumps encode_metrics_header is_sendable model_name
              version b)
    optional_metrics-Costs true =
        bind-Costs (collect_snapshot-Costs metrics) (λ s. pure-Costs (some s))
    optional_metrics-Costs false = more-Costs 1 (omega arith) (pure-Costs none)

-- at most 13 calls, and one inference: exactly one for an answer, one at most for an exception
abbrev pub AskedOnce : List Call → Result Response × List Call → Type 0
AskedOnce before (err e, log) =
    (calls log ≤ 13 + calls before) × (inferences log ≤ 1 + inferences before)
AskedOnce before (ok r, log) =
    (calls log ≤ 13 + calls before) × (inferences log ≡ 1 + inferences before)

module _ (triton : TritonService) (shown : Json → String) (loads : String → Result (Option Json))
    (dumps : Json → Result String) (encode_metrics_header : InferenceMetrics → String)
    (is_sendable : Response → Bool) (model_name version : String) where
  handled-AskedOnce :
      (log : List Call) (r : Reply Response × List Call)
      → Spent 13 1 log r
      → AskedOnce log
          (handled triton shown loads dumps encode_metrics_header is_sendable model_name version r)
  handled-AskedOnce log (raised response, l) h = h
  handled-AskedOnce log (answered a, l) h = h

  if-AskedOnce :
      (b : Bool) (log : List Call) (r s : Result Response × List Call)
      → AskedOnce log r
      → AskedOnce log s
      → AskedOnce log (if b then r else s)
  if-AskedOnce true log r s p q = p
  if-AskedOnce false log r s p q = q

  proxy_found-AskedOnce :
      (found : Result TritonInstanceEntity) (bytes content_type : String) (log : List Call)
      → AskedOnce log (
          proxy_found triton shown loads dumps encode_metrics_header is_sendable model_name version
            found bytes content_type log)
  proxy_found-AskedOnce (err e) bytes content_type log = (omega arith, omega arith)
  proxy_found-AskedOnce (ok instance) bytes content_type log =
      handled-AskedOnce log _ (steps.spent log)
    where
      steps : Costs 13 1 (
          optional_metrics triton shown loads dumps encode_metrics_header is_sendable model_name
            version
            (truthy instance.metrics_url)
          >>= from_metrics triton shown loads dumps encode_metrics_header is_sendable model_name
              version bytes content_type)
      steps =
          bind-Costs
            (optional_metrics-Costs triton shown loads dumps encode_metrics_header is_sendable
              model_name version (truthy instance.metrics_url))
            (from_metrics-Costs triton shown loads dumps encode_metrics_header is_sendable
              model_name version bytes content_type)

  -- A request for an inference makes at most 13 calls of the Triton server, however often the counters
  -- are read, and asks the model once if it is answered, and at most once if it is refused.
  pub infer_model-AskedOnce :
      (found : Result TritonInstanceEntity) (bytes content_type : String) (log : List Call)
      → AskedOnce log (
          infer_model triton shown loads dumps encode_metrics_header is_sendable model_name version
            found bytes content_type log)
  unfolding infer_model
  infer_model-AskedOnce found bytes content_type log =
      if-AskedOnce (bytes == "") log _ _ (omega arith, omega arith)
        (proxy_found-AskedOnce found bytes content_type log)
