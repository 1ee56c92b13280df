-- ===== src/Report/Findings.antt =====
-- report/renderers.py: the order of findings, their counts and the JSON form.
pub mod Order
use netflix_flaky_test_triag.Base.{
  ℕ, ◌+◌, Bool, true, false, not, Option, none, some, List, [], ◌∷◌, ◌++◌, map, Text, codes,
  text_eq, text_leb, keep, count_of, length, ltb, ◌==◌, sort_by, or_else, if◌then◌else◌,
}
use netflix_flaky_test_triag.Runtime.{Runtime, Json, Items, Fields}
use netflix_flaky_test_triag.Models.Enums.{Outcome}
use netflix_flaky_test_triag.Models.Records.{Classification, display_name}
use netflix_flaky_test_triag.Detect.Results.{Verdict, SignalEvidence, Detection}
use netflix_flaky_test_triag.Classify.Context.{
  verdict_value, confidence_value, signal_value, outcome_value,
}
use netflix_flaky_test_triag.Obs.Prometheus.{cause_value, reason_value, fields_of, text_or_null}

-- The place in `_VERDICT_ORDER`, which has every verdict.
abbrev pub verdict_order : Verdict → ℕ
verdict_order Verdict.regression = 0
verdict_order Verdict.flaky = 1
verdict_order Verdict.persistent_failure = 2
verdict_order Verdict.new_failure = 3
verdict_order Verdict.healthy = 4

-- The classification of a test, if the dictionary has one.
abbrev pub lookup : {A : Type 0} → ℕ → List (ℕ × A) → Option A
lookup key [] = none
lookup key ((k, a) ∷ rest) = if k == key then some a else lookup key rest

abbrev pub count_verdict : {F : Type 0} → Verdict → List (Detection F) → ℕ
count_verdict v detections = count_of (λ d. verdict_order d.verdict == verdict_order v) detections

-- `summarize`
unfoldable pub summarize : {F : Type 0} → List (Detection F) → List (Text × ℕ)
summarize detections =
    (codes "regression", count_verdict Verdict.regression detections)
    ∷ (codes "flaky", count_verdict Verdict.flaky detections)
    ∷ (codes "persistent_failure", count_verdict Verdict.persistent_failure detections)
    ∷ (codes "new_failure", count_verdict Verdict.new_failure detections)
    ∷ (codes "healthy", count_verdict Verdict.healthy detections)
    ∷ (codes "total", length detections)
    ∷ (codes "merged_uncertain", count_of (λ d. d.merged_uncertain) detections)
    ∷ []

module _ {F : Type 0} (rt : Runtime F) where
  -- The key of `sort_for_report`; the smaller of two negated rates is that of the larger.
  unfoldable pub report_leb : Detection F → Detection F → Bool
  report_leb a b =
      if verdict_order a.verdict == verdict_order b.verdict
      then (if rt.eq a.flake_rate b.flake_rate
          then text_leb (display_name a.identity) (display_name b.identity)
          else rt.lt b.flake_rate a.flake_rate)
      else ltb (verdict_order a.verdict) (verdict_order b.verdict)

  -- `sort_for_report`
  unfoldable pub sort_for_report : List (Detection F) → List (Detection F)
  unfolding report_leb
  sort_for_report detections = sort_by report_leb detections

  abbrev pub items_of : List (Json F) → Items F
  items_of [] = Items.nil
  items_of (j ∷ js) = Items.cons j (items_of js)

  abbrev pub texts_of : List Text → Json F
  texts_of texts = Json.arr (items_of (map Json.str texts))

  abbrev pub count_json : ℕ → Json F
  count_json n = Json.num (rt.of_nat n)

  abbrev pub signal_json : SignalEvidence → Json F
  signal_json e = Json.obj (
      fields_of (
        (codes "signal", Json.str (signal_value e.signal))
        ∷ (codes "detail", Json.str e.detail)
        ∷ (codes "observations", count_json e.observations)
        ∷ []))

  -- The record of `to_dict` without a classification.
  unfoldable pub detection_fields : Detection F → List (Text × Json F)
  detection_fields d =
      (codes "test", Json.str (display_name d.identity))
      ∷ (codes "identity_id", count_json d.identity_id)
      ∷ (codes "fingerprint", Json.str d.identity.fingerprint)
      ∷ (codes "suite_path", Json.str d.identity.suite_path)
      ∷ (codes "test_name", Json.str d.identity.test_name)
      ∷ (codes "parameters", Json.str d.identity.parameters)
      ∷ (codes "verdict", Json.str (verdict_value d.verdict))
      ∷ (codes "confidence", Json.str (confidence_value d.confidence))
      ∷ (codes "signals", Json.arr (items_of (map signal_json d.signals)))
      ∷ (codes "flake_rate", Json.num (rt.round d.flake_rate 4))
      ∷ (codes "divergence_rate", Json.num (rt.round d.divergence_rate 4))
      ∷ (codes "intermittency_rate", Json.num (rt.round d.intermittency_rate 4))
      ∷ (codes "retry_data_available", Json.bool d.retry_data_available)
      ∷ (codes "observations", count_json d.observations)
      ∷ (codes "commits_observed", count_json d.windows)
      ∷ (codes "infra_excluded", count_json d.infra_excluded)
      ∷ (codes "latest_sha", text_or_null d.latest_sha)
      ∷ (
        codes "latest_outcome",
        elim d.latest_outcome [ none ↦ Json.null | some o ↦ Json.str (outcome_value o) ],
      )
      ∷ (codes "regression_sha", text_or_null d.regression_sha)
      ∷ (codes "failure_type", text_or_null d.failure_type)
      ∷ (codes "failure_message", text_or_null d.failure_message)
      ∷ (codes "footprint", texts_of d.footprint)
      ∷ (codes "failing_shards", texts_of d.failing_shards)
      ∷ (codes "merged_uncertain", Json.bool d.merged_uncertain)
      ∷ []

  -- The nested record of a classification.
  unfoldable pub classification_fields : Classification F → List (Text × Json F)
  classification_fields c =
      (codes "cause", Json.str (cause_value c.cause))
      ∷ (codes "confidence", Json.num (rt.round c.confidence 3))
      ∷ (codes "reasoning", Json.str c.reasoning)
      ∷ (codes "evidence", texts_of c.evidence)
      ∷ (codes "suggested_action", Json.str c.suggested_action)
      ∷ (codes "abstained", Json.bool c.abstained)
      ∷ (codes "downgrade_reason", Json.str (reason_value c.downgrade_reason))
      ∷ (codes "model", Json.str c.model)
      ∷ (codes "prompt_version", Json.str c.prompt_version)
      ∷ []

  -- `to_dict`
  unfoldable pub to_dict : Detection F → Option (Classification F) → Json F
  unfolding detection_fields classification_fields
  to_dict d none = Json.obj (fields_of (detection_fields d))
  to_dict d (some c) = Json.obj (
      fields_of (
        detection_fields d
        ++ (codes "classification", Json.obj (fields_of (classification_fields c))) ∷ []))

  -- What `render_json` dumps.
  unfoldable pub json_payload : Bool → List (ℕ × Classification F) → List (Detection F) → Json F
  unfolding to_dict sort_for_report summarize
  json_payload llm_enabled classifications detections = Json.obj (
      fields_of (
        (codes "schema_version", count_json 1)
        ∷ (codes "llm_enabled", Json.bool llm_enabled)
        ∷ (
          codes "summary",
          Json.obj (fields_of (map (λ g. (g.0, count_json g.1)) (summarize detections))),
        )
        ∷ (
          codes "detections",
          Json.arr (
              items_of (
                map (λ d. to_dict d (lookup d.identity_id classifications))
                  (sort_for_report detections))),
        )
        ∷ []))
