-- ===== src/Inference/Triton.antt =====
-- services/triton/models.py, services/triton/config.py: what the proxy of an inference reads of
-- TritonService, as the answers of its calls after the calls that were made before, the latest first; a
-- read of counters never raises. The context of metrics, and the message of a failed call.
use triton_control.Prelude.{
  ℕ, suc, String, Bool, true, false, Option, none, some, truthy, strip, is_blank, List, [], ◌∷◌,
  ◌^^◌, beq, ltb, if◌then◌else◌,
}
use triton_control.Prelude.Int.{decimal}
use triton_control.Errors.{Result}
use triton_control.Json.{Json, str, obj, Fields, end, field, value}

pub data Source : Type 0 where
  metrics stats : Source

pub data Call : Type 0 where
  collect_counters : Source → Call
  get_model_config : (model_name version : String) → Call
  generate_model_raw : (model_name bytes content_type : String) → Call
  infer_model_raw : (model_name version bytes content_type : String) → Call

-- what an HTTP call answers; `json` is none where the body is no JSON
pub record HttpAnswer : Type 0 where
  pub status : ℕ
  pub json : Option Json
  pub text : String
  pub content : String
  pub content_type : Option String

-- what a call returns, or the response of the exception that it raises, if that has one
pub data Reply (A : Type 0) : Type 0 where
  raised : Option HttpAnswer → Reply A
  answered : A → Reply A

pub record Snapshot : Type 0 where
  pub series : Fields
  pub error : Option String

pub record InferenceMetrics : Type 0 where
  pub available : Bool
  pub error : Option String
  pub models : Json
  pub source : Option Source
  pub before_series_count : Option ℕ
  pub after_series_count : Option ℕ

pub record TritonService : Type 0 where
  pub config : List Call → Option Json
  pub snapshot : Source → List Call → Snapshot
  pub send : Call → List Call → Reply HttpAnswer
  -- it raises for a counter that is no finite number
  pub inference_metrics_delta : (before after : Snapshot) → Result InferenceMetrics

pub record Response : Type 0 where
  pub content : String
  pub status_code : ℕ
  pub media_type : String
  pub inference_metrics : String

-- v, if it is a text and not blank, stripped
unfoldable pub message_in : Json → Option String
unfolding is_blank strip
message_in (str s) = if is_blank s then none else some (strip s)
message_in _ = none

abbrev pub or_text : Option String → String → String
or_text none other = other
or_text (some s) other = s

abbrev pub body_message : Option Json → Option String
body_message (some (obj fs)) = elim (message_in (value "error" fs)) [
  | none ↦ message_in (value "detail" fs)
  | some s ↦ some s
]
body_message _ = none

-- `extract_triton_error_detail`
unfoldable pub extract_triton_error_detail : Option HttpAnswer → String
unfolding message_in decimal
extract_triton_error_detail none = "Triton request failed"
extract_triton_error_detail (some r) = or_text (body_message r.json) (
    or_text (message_in (str r.text)) (
      if beq r.status 0
      then "Triton request failed"
      else "Triton request failed with HTTP " ^^ decimal r.status))

-- `_is_metrics_snapshot_available`
unfoldable pub is_metrics_snapshot_available : Option Snapshot → Bool
unfolding is_blank
is_metrics_snapshot_available none = false
is_metrics_snapshot_available (some s) = elim s.error [ none ↦ true | some e ↦ is_blank e ]

-- len(series)
unfoldable pub entries : Fields → ℕ
entries end = 0
entries (field k v fs) = suc (entries fs)

unfoldable pub source_label : Source → String
source_label metrics = "/metrics"
source_label stats = "/v2/models/stats"

unfoldable pub context_error : Source → ℕ → Option String → String
unfolding source_label decimal
context_error source after existing =
    if ltb 0 after
    then source_label source
      ^^ " exposed "
      ^^ decimal after
      ^^ " inference metric row(s), but the counters did not "
      ^^ "change during this backend inference request. Check that the configured Triton inference "
      ^^ "URL and metrics endpoint point to the same Triton server."
    else source_label source
      ^^ " did not expose inference metric rows for this backend request"
      ^^ (if truthy existing then ": " ^^ or_text existing "" else ".")

-- `_with_metric_context`
unfoldable pub with_metric_context :
    InferenceMetrics → Source → (before after : Snapshot) → InferenceMetrics
unfolding context_error entries
with_metric_context m source before after =
    if m.available then record m { source = some source } else record m {
      error = some (context_error source (entries after.series) m.error);
      source = some source;
      before_series_count = some (entries before.series);
      after_series_count = some (entries after.series);
    }

-- the waits before another read, in milliseconds
abbrev pub delays : List ℕ
delays = 100 ∷ 300 ∷ 750 ∷ 1500 ∷ []

abbrev pub fallback_delays : List ℕ
fallback_delays = 100 ∷ 300 ∷ 750 ∷ []
