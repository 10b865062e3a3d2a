-- ===== src/Inference/Relay.antt =====
-- The answer of the model reaches the caller.
use triton_control.Prelude.{
  ◌≡◌, refl, String, Bool, true, false, Option, none, some, truthy, List, ◌∷◌, ◌==◌, if◌then◌else◌,
}
use triton_control.Errors.{Result, ok, err}
use triton_control.Json.{Json}
use triton_control.Store.Data.{TritonInstanceEntity}
use triton_control.Inference.Triton.{
  Source, metrics, stats, Call, HttpAnswer, Reply, raised, answered, Snapshot, InferenceMetrics,
  TritonService, Response, is_metrics_snapshot_available,
}
use triton_control.Inference.Proxy.{
  lift, fail, respond, Ask, pure, call, continue_with, ◌>>=◌, proxied, from_metrics,
  optional_metrics, handled, proxy_found, infer_model, request_of,
}

-- what a step returns passes the predicate
abbrev Holds : {A : Type 0} → (A → Type 0) → Reply A → Type 0
Holds P (raised response) = Unit
Holds P (answered a) = P a

record Yields {A : Type 0} (P : A → Type 0) (m : Ask A) : Type 0 where
  holds : (log : List Call) → Holds P (m log).0

module _ {A B : Type 0} (P : B → Type 0) where
  bind-Yields : (m : Ask A) (f : A → Ask B) → ((a : A) → Yields P (f a)) → Yields P (m >>= f)
  unfolding ◌>>=◌ continue_with
  bind-Yields m f rest = record { holds = λ log. step (m log) }
    where
      step : (r : Reply A × List Call) → Holds P (continue_with f r).0
      step (raised response, l) = tt
      step (answered a, l) = (rest a).holds l

  lift-Yields :
      (r : Result A) (f : A → Ask B)
      → ((a : A) → r ≡ ok a → Yields P (f a))
      → Yields P (lift r >>= f)
  unfolding ◌>>=◌ continue_with lift
  lift-Yields (err e) f rest = record { holds = λ log. tt }
  lift-Yields (ok a) f rest = record { holds = λ log. (rest a refl).holds log }

  call-Yields :
      (c : Call) (answer : List Call → Reply A) (f : A → Ask B)
      → ((log : List Call) (a : A) → answer log ≡ answered a → Yields P (f a))
      → Yields P (call c answer >>= f)
  unfolding ◌>>=◌ continue_with call
  call-Yields c answer f rest = record { holds = λ log. step log (answer log) refl }
    where
      step :
          (log : List Call) (r : Reply A)
          → answer log ≡ r
          → Holds P (continue_with f (r, c ∷ log)).0
      step log (raised response) p = tt
      step log (answered a) p = (rest log a p).holds (c ∷ log)

fail-Yields :
    {A : Type 0} (P : A → Type 0) (response : Option HttpAnswer) → Yields P (fail response)
unfolding fail
fail-Yields P response = record { holds = λ log. tt }

if-Yields :
    {A : Type 0} (P : A → Type 0) (b : Bool) (m k : Ask A)
    → Yields P m
    → Yields P k
    → Yields P (if b then m else k)
if-Yields P true m k p q = p
if-Yields P false m k p q = q

pure-Yields : {A : Type 0} (P : A → Type 0) (a : A) → P a → Yields P (pure a)
unfolding pure
pure-Yields P a p = record { holds = λ log. p }

module _ (triton : TritonService) (shown : Json → String) (loads : String → Result (Option Json))
    (dumps : Json → Result String) (encode_metrics_header : InferenceMetrics → String)
    (is_sendable : Response → Bool) (model_name version bytes content_type : String) where
  -- the model answered the request, and the response carries its answer
  pub record Relayed (r : Response) : Type 0 where
    pub generates : Bool
    pub asked_after : List Call
    pub answer : HttpAnswer
    pub request : Call
    pub prepared :
        request_of triton shown loads dumps encode_metrics_header is_sendable model_name version
          generates bytes content_type
        ≡ ok request
    pub sends : triton.send request asked_after ≡ answered answer
    pub same_content : r.content ≡ answer.content
    pub same_status : r.status_code ≡ answer.status

  respond-Yields :
      (r : Response)
      → Relayed r
      → Yields Relayed
          (respond triton shown loads dumps encode_metrics_header is_sendable model_name version r)
  unfolding respond
  respond-Yields r h =
      if-Yields Relayed (is_sendable r) _ _ (pure-Yields Relayed r h) (fail-Yields Relayed none)

  proxied-Yields :
      (source : Source) (before fallback_before : Snapshot)
      → Yields Relayed (
          proxied triton shown loads dumps encode_metrics_header is_sendable model_name version
            source before fallback_before bytes content_type)
  unfolding proxied
  proxied-Yields source before fallback_before = bind-Yields Relayed _ _ λ generates.
      lift-Yields Relayed _ _ λ request p. call-Yields Relayed _ _ _ λ log answer q.
        bind-Yields Relayed _ _ λ m. respond-Yields _ record {
          generates = generates;
          asked_after = log;
          answer = answer;
          request = request;
          prepared = p;
          sends = q;
          same_content = refl;
          same_status = refl;
        }

  from_metrics-Yields :
      (found : Option Snapshot)
      → Yields Relayed (
          from_metrics triton shown loads dumps encode_metrics_header is_sendable model_name version
            bytes content_type found)
  unfolding from_metrics
  from_metrics-Yields none = bind-Yields Relayed _ _ λ s. proxied-Yields stats s s
  from_metrics-Yields (some before) = bind-Yields Relayed _ _ λ s.
      if-Yields Relayed (is_metrics_snapshot_available (some before)) _ _
        (proxied-Yields metrics before s) (proxied-Yields stats s s)

  abbrev pub RelayedIfOk : Result Response → Type 0
  RelayedIfOk (err e) = Unit
  RelayedIfOk (ok r) = Relayed r

  handled-Relayed :
      (r : Reply Response × List Call)
      → Holds Relayed r.0
      → RelayedIfOk
          (handled triton shown loads dumps encode_metrics_header is_sendable model_name version
            r).0
  handled-Relayed (raised response, l) h = tt
  handled-Relayed (answered a, l) h = h

  if-Relayed :
      (b : Bool) (r s : Result Response × List Call)
      → RelayedIfOk r.0
      → RelayedIfOk s.0
      → RelayedIfOk (if b then r else s).0
  if-Relayed true r s p q = p
  if-Relayed false r s p q = q

  proxy_found-Relayed :
      (found : Result TritonInstanceEntity) (log : List Call)
      → RelayedIfOk
          (proxy_found triton shown loads dumps encode_metrics_header is_sendable model_name version
            found bytes content_type log).0
  proxy_found-Relayed (err e) log = tt
  proxy_found-Relayed (ok instance) log = handled-Relayed _ (
      (bind-Yields Relayed
          (optional_metrics triton shown loads dumps encode_metrics_header is_sendable model_name
            version (truthy instance.metrics_url))
          (from_metrics triton shown loads dumps encode_metrics_header is_sendable model_name
            version bytes content_type)
          from_metrics-Yields).holds
        log)

  -- If a request for an inference is answered, then the model answered the request as the proxy sent
  -- it, and the response has the body and the status of that answer.
  pub infer_model-Relayed :
      (found : Result TritonInstanceEntity) (log : List Call)
      → RelayedIfOk
          (infer_model triton shown loads dumps encode_metrics_header is_sendable model_name version
            found bytes content_type log).0
  unfolding infer_model
  infer_model-Relayed found log = if-Relayed (bytes == "") _ _ tt (proxy_found-Relayed found log)
