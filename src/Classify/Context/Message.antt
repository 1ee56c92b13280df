-- ===== src/Classify/Context/Message.antt =====
-- classify/prompt.py: the sections of the message, put together.
use netflix_flaky_test_triag.Base.{
  ℕ, Bool, true, false, not, Option, none, some, List, [], ◌∷◌, ◌++◌, map, Text, codes, is_empty,
  if◌then◌else◌, strip, join, decimal, ◌==◌,
}
use netflix_flaky_test_triag.Runtime.{Runtime}
use netflix_flaky_test_triag.Models.Records.{display_name}
use netflix_flaky_test_triag.Models.Diff.{FileChange}
use netflix_flaky_test_triag.Detect.Results.{Detection}
use netflix_flaky_test_triag.Classify.Context.{
  outcome_value, verdict_value, confidence_value, signal_value, relevant_diff, outcome_line,
  signals_summary, failure_block,
}

abbrev when : Bool → Text → List Text
when true line = line ∷ []
when false line = []

module _ {F : Type 0} (rt : Runtime F) where
  -- `history_summary`
  unfoldable pub history_summary : Detection F → Text
  history_summary d =
      let rate =
        codes "- flake rate: "
        ++ rt.percent d.flake_rate
        ++ codes " over "
        ++ decimal d.observations
        ++ codes " observations across "
        ++ decimal d.windows
        ++ codes " commit(s)" in
      let verdict =
        codes "- verdict: "
        ++ verdict_value d.verdict
        ++ codes " (detector confidence: "
        ++ confidence_value d.confidence
        ++ codes ")" in
      let retries =
        if d.retry_data_available
        then codes "- same-commit divergence rate: "
          ++ rt.percent d.divergence_rate
          ++ codes " (this pipeline retries, so divergence is directly observable)"
        else codes
            "- this pipeline does not retry, so same-commit divergence cannot be observed; cross-commit flip rate is "
          ++ rt.percent d.intermittency_rate in
      join (codes "\n") (
        verdict
          ∷ rate
          ∷ retries
          ∷ when (not (is_empty d.failing_shards)) (
              codes "- failures are confined to shard(s) "
              ++ join (codes ", ") d.failing_shards
              ++ codes ", which can indicate order dependency")
        ++ when (not (d.infra_excluded == 0)) (
            codes "- "
            ++ decimal d.infra_excluded
            ++ codes
                " execution(s) were excluded as platform failures and are not in the rate above")
        ++ when d.merged_uncertain (
            codes
              "- this history was merged across an inferred rename and may combine two tests; treat the history as less reliable than the trace"))

  -- `int(budget * _HEAD_FRACTION)` of the trace.
  module _ (head_budget : ℕ → ℕ) where
    -- `build_context`
    unfoldable pub build_context : Detection F → Option (List FileChange) → ℕ → Option Text → Text
    build_context d diff budget test_source =
        let diff_text = relevant_diff diff d.footprint in
        let source = elim test_source as (λ o. List Text) [
          | none ↦ []
          | some text ↦
              when (not (is_empty text))
                (codes "## Test source\n```\n" ++ strip text ++ codes "\n```")
        ] in
        join (codes "\n\n") (
          (codes "## Test\n" ++ display_name d.identity)
            ∷ (codes "## Outcome\n" ++ outcome_line d)
            ∷ (codes "## Failure detail\n" ++ failure_block rt head_budget d budget)
            ∷ source
          ++ (codes "## Execution history\n" ++ history_summary d)
            ∷ (codes "## Detector signals\n" ++ signals_summary d)
            ∷ when (not (is_empty diff_text))
                (codes "## Change under test (only files this failure mentions)\n" ++ diff_text)
          ++ codes
              "## Task\nClassify the most likely cause. Cite evidence from the sections above. Answer UNKNOWN if the evidence does not distinguish one cause."
            ∷ [])

    -- `build_prefilter_context`
    unfoldable pub build_prefilter_context : Detection F → ℕ → Text
    build_prefilter_context d budget =
        let signals = join (codes ", ") (map (λ e. signal_value e.signal) d.signals) in
        let outcome = elim d.latest_outcome as (λ o. Text) [
          | none ↦ codes "?"
          | some o ↦ outcome_value o
        ] in
        join (codes "\n") (
          (codes "Test: " ++ display_name d.identity)
          ∷ (codes "Outcome: " ++ outcome)
          ∷ failure_block rt head_budget d budget
          ∷ (codes "Signals: " ++ (if is_empty signals then codes "none" else signals))
          ∷ [])
