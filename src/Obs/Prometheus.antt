-- ===== src/Obs/Prometheus.antt =====
-- obs/metrics.py: the text for Prometheus and the dictionary of a summary.
pub mod Types
use netflix_flaky_test_triag.Base.{
  ℕ, ◌+◌, Bool, Option, none, some, List, [], ◌∷◌, ◌++◌, map, Text, codes, text_leb, starts_with,
  any, decimal, String, sort_by, join, if◌then◌else◌,
}
use netflix_flaky_test_triag.Runtime.{Runtime, Json, Fields}
use netflix_flaky_test_triag.Models.Enums.{CauseCode, DowngradeReason}
use netflix_flaky_test_triag.Obs.Summary.{
  MetricsSummary, abstention_rate, cache_hit_rate, cost_per_classification_usd,
}

-- `cause.value`
abbrev pub cause_value : CauseCode → Text
cause_value CauseCode.race_condition = codes "RACE_CONDITION"
cause_value CauseCode.timing_dependency = codes "TIMING_DEPENDENCY"
cause_value CauseCode.test_order_dependency = codes "TEST_ORDER_DEPENDENCY"
cause_value CauseCode.external_dependency = codes "EXTERNAL_DEPENDENCY"
cause_value CauseCode.shared_state_leak = codes "SHARED_STATE_LEAK"
cause_value CauseCode.resource_exhaustion = codes "RESOURCE_EXHAUSTION"
cause_value CauseCode.infra_flake = codes "INFRA_FLAKE"
cause_value CauseCode.real_regression = codes "REAL_REGRESSION"
cause_value CauseCode.unknown = codes "UNKNOWN"

-- `downgrade_reason.value`
abbrev pub reason_value : DowngradeReason → Text
reason_value DowngradeReason.none = codes "none"
reason_value DowngradeReason.invalid_json = codes "invalid_json"
reason_value DowngradeReason.schema_invalid = codes "schema_invalid"
reason_value DowngradeReason.unknown_cause = codes "unknown_cause"
reason_value DowngradeReason.below_confidence_floor = codes "below_confidence_floor"
reason_value DowngradeReason.no_evidence = codes "no_evidence"
reason_value DowngradeReason.model_abstained = codes "model_abstained"
reason_value DowngradeReason.budget_exhausted = codes "budget_exhausted"
reason_value DowngradeReason.prefiltered = codes "prefiltered"
reason_value DowngradeReason.api_error = codes "api_error"
reason_value DowngradeReason.llm_disabled = codes "llm_disabled"
reason_value DowngradeReason.empty_response = codes "empty_response"

-- The arguments of the function `metric`.
pub record Metric (F : Type 0) : Type 0 where
  pub name : Text
  pub kind : Text
  pub help_text : Text
  pub value : F
  pub labels : Text

-- `f"# TYPE {full} "` for `f"{METRIC_PREFIX}_{name}"`.
abbrev pub type_prefix : Text → Text
type_prefix name = codes "# TYPE flaketriage_" ++ (name ++ codes " ")

-- The groups of a summary by the text of their keys, in its order.
abbrev pub named : {A : Type 0} → (A → Text) → List (A × ℕ) → List (Text × ℕ)
named value_of groups = sort_by (λ a b. text_leb a.0 b.0) (map (λ g. (value_of g.0, g.1)) groups)

-- `show_g` is `f"{value:g}"` of a number.
module _ {F : Type 0} (rt : Runtime F) (show_g : F → Text) where
  -- `metric`
  unfoldable pub add_metric : Metric F → List Text → List Text
  add_metric m lines =
      let full = codes "flaketriage_" ++ m.name in
      let sample = full ++ m.labels ++ codes " " ++ show_g m.value in
      if any (starts_with (type_prefix m.name)) lines
      then lines ++ sample ∷ []
      else lines
        ++ (codes "# HELP " ++ full ++ codes " " ++ m.help_text)
          ∷ (codes "# TYPE flaketriage_" ++ (m.name ++ b' ' ∷ m.kind))
          ∷ sample
          ∷ []

  unfoldable pub add_metrics : List (Metric F) → List Text → List Text
  unfolding add_metric
  add_metrics [] lines = lines
  add_metrics (m ∷ ms) lines = add_metrics ms (add_metric m lines)

  abbrev pub counter : String → String → ℕ → Metric F
  counter name help_text value = record {
    name = codes name;
    kind = codes "counter";
    help_text = codes help_text;
    value = rt.of_nat value;
    labels = [];
  }

  abbrev pub gauge : String → String → F → Text → Metric F
  gauge name help_text value labels = record {
    name = codes name;
    kind = codes "gauge";
    help_text = codes help_text;
    value = value;
    labels = labels;
  }

  -- A series with one label, over the groups of a summary.
  abbrev pub labelled : String → String → String → List (Text × ℕ) → List (Metric F)
  labelled name help_text label = map (λ g. record {
    name = codes name;
    kind = codes "counter";
    help_text = codes help_text;
    value = rt.of_nat g.1;
    labels = codes "{" ++ codes label ++ codes "=\"" ++ g.0 ++ codes "\"}";
  })

  -- The calls of `metric`, in their order.
  unfoldable pub metrics_of : MetricsSummary F → List (Metric F)
  metrics_of s =
      (counter "runs_total" "CI runs ingested." s.runs
        ∷ counter "llm_calls_total" "Model calls made." s.api_calls
        ∷ counter "llm_call_errors_total" "Model calls that failed." s.errors
        ∷ record {
          name = codes "llm_cost_usd_total";
          kind = codes "counter";
          help_text = codes "Cumulative model spend in USD.";
          value = s.total_cost_usd;
          labels = [];
        }
        ∷ counter "llm_input_tokens_total" "Input tokens consumed." s.total_input_tokens
        ∷ counter "llm_output_tokens_total" "Output tokens produced." s.total_output_tokens
        ∷ counter "classifications_total" "Classifications produced." s.classifications
        ∷ counter "abstentions_total" "Classifications that declined to assign a cause."
            s.abstentions
        ∷ gauge "abstention_ratio" "Abstentions over classifications." (abstention_rate rt s) []
        ∷ gauge "cache_hit_ratio" "Cache hits over classification attempts." (cache_hit_rate rt s)
            []
        ∷ gauge "llm_latency_ms" "Classification latency in milliseconds." s.latency_p50_ms
            (codes "{quantile=\"0.5\"}")
        ∷ gauge "llm_latency_ms" "Classification latency in milliseconds." s.latency_p95_ms
            (codes "{quantile=\"0.95\"}")
        ∷ [])
      ++ (labelled "classifications_by_cause_total" "Classifications grouped by proposed cause."
            "cause" (named cause_value s.by_cause)
          ++ labelled "downgrades_total" "Abstentions grouped by reason." "reason"
              (named reason_value s.by_downgrade_reason))

  -- The lines of `render_prometheus`.
  unfoldable pub prometheus_lines : MetricsSummary F → List Text
  unfolding add_metrics metrics_of
  prometheus_lines s = add_metrics (metrics_of s) []

  -- `render_prometheus`
  unfoldable pub render_prometheus : MetricsSummary F → Text
  unfolding prometheus_lines
  render_prometheus s = join (codes "\n") (prometheus_lines s) ++ codes "\n"

abbrev pub fields_of : {F : Type 0} → List (Text × Json F) → Fields F
fields_of [] = Fields.end
fields_of ((name, value) ∷ rest) = Fields.field name value (fields_of rest)

abbrev pub text_or_null : {F : Type 0} → Option Text → Json F
text_or_null none = Json.null
text_or_null (some s) = Json.str s

module _ {F : Type 0} (rt : Runtime F) where
  abbrev pub counts_object : List (Text × ℕ) → Json F
  counts_object groups = Json.obj (fields_of (map (λ g. (g.0, Json.num (rt.of_nat g.1))) groups))

  -- `as_dict`
  unfoldable pub as_dict : Option Text → MetricsSummary F → Json F
  as_dict since s =
      let count : ℕ → Json F = λ n. Json.num (rt.of_nat n) in
      let rounded : F → ℕ → Json F = λ x digits. Json.num (rt.round x digits) in
      Json.obj (
        fields_of (
          (codes "since", text_or_null since)
          ∷ (codes "runs", count s.runs)
          ∷ (codes "api_calls", count s.api_calls)
          ∷ (codes "llm_call_errors", count s.errors)
          ∷ (codes "classifications", count s.classifications)
          ∷ (codes "abstentions", count s.abstentions)
          ∷ (codes "abstention_rate", rounded (abstention_rate rt s) 4)
          ∷ (codes "cache_hits", count s.cache_hits)
          ∷ (codes "cache_hit_rate", rounded (cache_hit_rate rt s) 4)
          ∷ (codes "total_cost_usd", rounded s.total_cost_usd 6)
          ∷ (codes "cost_per_classification_usd", rounded (cost_per_classification_usd rt s) 6)
          ∷ (codes "total_input_tokens", count s.total_input_tokens)
          ∷ (codes "total_output_tokens", count s.total_output_tokens)
          ∷ (codes "latency_p50_ms", rounded s.latency_p50_ms 1)
          ∷ (codes "latency_p95_ms", rounded s.latency_p95_ms 1)
          ∷ (codes "by_cause", counts_object (named cause_value s.by_cause))
          ∷ (codes "by_downgrade_reason", counts_object (named reason_value s.by_downgrade_reason))
          ∷ []))
