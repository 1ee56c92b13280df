-- ===== src/Obs/Summary.antt =====
-- obs/metrics.py: the aggregates over calls and classifications, and the last classification of a
-- test from store/repositories.py.
pub mod Latest
use netflix_flaky_test_triag.Base.{
  ℕ, zero, suc, ◌+◌, ◌-◌, ◌/◌, Bool, true, false, not, ◌&&◌, ◌||◌, Option, none, some, List, [],
  ◌∷◌, ◌++◌, map, Text, codes, text_leb, keep, length, count_of, sum_of, get_elem?, leb, ltb, ◌==◌,
  min, sort_by, or_else, if◌then◌else◌, ◌>>=◌,
}
use netflix_flaky_test_triag.Runtime.{Runtime}
use netflix_flaky_test_triag.Models.Enums.{CauseCode, DowngradeReason}
use netflix_flaky_test_triag.Models.Records.{Classification}
use netflix_flaky_test_triag.Store.Tables.{RunRow, fetch_one}
use netflix_flaky_test_triag.Classify.Classifier.{CallKind}
use netflix_flaky_test_triag.Obs.Metrics.{CallMetric, CallRow, ClassificationRow, MetricTables}

-- `MetricsSummary`, less the time it echoes.
pub record MetricsSummary (F : Type 0) : Type 0 where
  pub runs : ℕ
  pub api_calls : ℕ
  pub cache_hits : ℕ
  pub errors : ℕ
  pub total_cost_usd : F
  pub total_input_tokens : ℕ
  pub total_output_tokens : ℕ
  pub latency_p50_ms : F
  pub latency_p95_ms : F
  pub classifications : ℕ
  pub abstentions : ℕ
  pub by_cause : List (CauseCode × ℕ)
  pub by_downgrade_reason : List (DowngradeReason × ℕ)

-- The place of a value in its enumeration.
abbrev pub cause_index : CauseCode → ℕ
cause_index CauseCode.race_condition = 0
cause_index CauseCode.timing_dependency = 1
cause_index CauseCode.test_order_dependency = 2
cause_index CauseCode.external_dependency = 3
cause_index CauseCode.shared_state_leak = 4
cause_index CauseCode.resource_exhaustion = 5
cause_index CauseCode.infra_flake = 6
cause_index CauseCode.real_regression = 7
cause_index CauseCode.unknown = 8

abbrev pub reason_index : DowngradeReason → ℕ
reason_index DowngradeReason.none = 0
reason_index DowngradeReason.invalid_json = 1
reason_index DowngradeReason.schema_invalid = 2
reason_index DowngradeReason.unknown_cause = 3
reason_index DowngradeReason.below_confidence_floor = 4
reason_index DowngradeReason.no_evidence = 5
reason_index DowngradeReason.model_abstained = 6
reason_index DowngradeReason.budget_exhausted = 7
reason_index DowngradeReason.prefiltered = 8
reason_index DowngradeReason.api_error = 9
reason_index DowngradeReason.llm_disabled = 10
reason_index DowngradeReason.empty_response = 11

-- `GROUP BY key` with `COUNT(*)`, in the order of the last occurrences.
abbrev pub raised : {A : Type 0} → (A → ℕ) → A → List (A × ℕ) → List (A × ℕ)
raised index key [] = (key, 1) ∷ []
raised index key ((k, n) ∷ rest) =
    let later = raised index key rest in
    if index k == index key then (k, n + 1) ∷ rest else (k, n) ∷ later

unfoldable pub group_counts : {A : Type 0} → (A → ℕ) → List A → List (A × ℕ)
group_counts index [] = []
group_counts index (key ∷ keys) = raised index key (group_counts index keys)

abbrev pub is_classify : CallKind → Bool
is_classify CallKind.classify_call = true
is_classify _ = false

abbrev pub is_some : {A : Type 0} → Option A → Bool
is_some none = false
is_some (some a) = true

-- `downgrade_reason != 'none'`
abbrev pub is_downgraded : DowngradeReason → Bool
is_downgraded DowngradeReason.none = false
is_downgraded _ = true

-- `created_at >= cutoff`, where the cutoff is the empty text without a time.
abbrev pub is_since : Option Text → Text → Bool
is_since since created_at = text_leb (or_else since []) created_at

module _ {F : Type 0} (rt : Runtime F) where
  -- `SUM` of a column.
  abbrev pub sum_from : {A : Type 0} → (A → F) → F → List A → F
  sum_from f total [] = total
  sum_from f total (x ∷ xs) = sum_from f (rt.add total (f x)) xs

  -- `_percentile`, of floats that are finite: the fallback of `or_else` is not reached.
  unfoldable pub percentile : List F → F → F
  percentile [] fraction = rt.of_nat 0
  percentile (x ∷ xs) fraction =
      let last = length xs in
      let rank = or_else (rt.round_to_int (rt.mul fraction (rt.of_nat last))) 0 in
      or_else (get_elem? (x ∷ xs) (min rank last)) (rt.of_nat 0)

  -- The calls, classifications and runs since a time.
  unfoldable pub calls_since : Option Text → MetricTables F → List (CallRow F)
  calls_since since t = keep (λ c. is_since since c.created_at) t.llm_calls

  unfoldable pub classifications_since : Option Text → MetricTables F → List (ClassificationRow F)
  classifications_since since t = keep (λ c. is_since since c.created_at) t.classifications

  -- The latencies of the classify calls without an error, in order.
  unfoldable pub latencies_since : Option Text → MetricTables F → List F
  unfolding calls_since
  latencies_since since t = sort_by rt.le (
      map (λ c. c.call.latency_ms)
        (keep (λ c. is_classify c.call.kind && not (is_some c.call.error)) (calls_since since t)))

  -- `summarize`
  unfoldable pub summarize : Option Text → MetricTables F → MetricsSummary F
  unfolding calls_since classifications_since latencies_since percentile group_counts
  summarize since t =
      let calls = calls_since since t in
      let rows = classifications_since since t in
      let latencies = latencies_since since t in
      record {
        runs = count_of (λ r. is_since since r.started_at) t.runs;
        api_calls = length calls;
        cache_hits = count_of (λ r. r.cache_hit) rows;
        errors = count_of (λ c. is_some c.call.error) calls;
        total_cost_usd = sum_from (λ c. c.call.cost_usd) (rt.of_nat 0) calls;
        total_input_tokens = sum_of (λ c. c.call.input_tokens) calls;
        total_output_tokens = sum_of (λ c. c.call.output_tokens) calls;
        latency_p50_ms = percentile latencies (rt.div (rt.of_nat 1) (rt.of_nat 2));
        latency_p95_ms = percentile latencies (rt.div (rt.of_nat 95) (rt.of_nat 100));
        classifications = length rows;
        abstentions = count_of (λ r. r.abstained) rows;
        by_cause = group_counts cause_index (map (λ r. r.cause) rows);
        by_downgrade_reason =
            group_counts reason_index (keep is_downgraded (map (λ r. r.downgrade_reason) rows));
      }

  -- A ratio over the classifications, or 0 without one.
  abbrev pub over_classifications : F → MetricsSummary F → F
  over_classifications value s =
      if s.classifications == 0 then rt.of_nat 0 else rt.div value (rt.of_nat s.classifications)

  -- `MetricsSummary.abstention_rate`
  unfoldable pub abstention_rate : MetricsSummary F → F
  abstention_rate s = over_classifications (rt.of_nat s.abstentions) s

  -- `MetricsSummary.cache_hit_rate`
  unfoldable pub cache_hit_rate : MetricsSummary F → F
  cache_hit_rate s = over_classifications (rt.of_nat s.cache_hits) s

  -- `MetricsSummary.cost_per_classification_usd`
  unfoldable pub cost_per_classification_usd : MetricsSummary F → F
  cost_per_classification_usd s = over_classifications s.total_cost_usd s

module _ {F : Type 0} where
  -- The classification that a row stands for.
  unfoldable pub classification_of : ClassificationRow F → Classification F
  classification_of r = record {
    cause = r.cause;
    confidence = r.confidence;
    reasoning = or_else r.reasoning [];
    evidence = or_else r.evidence [];
    suggested_action = or_else r.suggested_action [];
    abstained = r.abstained;
    downgrade_reason = r.downgrade_reason;
    model = r.model;
    prompt_version = r.prompt_version;
  }

  -- The row with the largest id among some.
  abbrev pub newest :
      Option (ClassificationRow F) → List (ClassificationRow F) → Option (ClassificationRow F)
  newest best [] = best
  newest none (r ∷ rows) = newest (some r) rows
  newest (some b) (r ∷ rows) = newest (some (if leb b.id r.id then r else b)) rows

  -- `RunStore.latest_classification`
  unfoldable pub latest_classification : ℕ → MetricTables F → Option (Classification F)
  unfolding classification_of
  latest_classification identity_id t = do
    row ← newest none (keep (λ r. r.identity_id == identity_id) t.classifications)
    some (classification_of row)
