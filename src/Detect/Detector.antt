-- ===== src/Detect/Detector.antt =====
-- detect/detector.py: the precedence of the signals, and the detection of one test.
pub mod Precedence
pub mod Healthy
use netflix_flaky_test_triag.Base.{
  ℕ, ◌*◌, Bool, true, false, ◌&&◌, ◌||◌, not, Option, none, some, List, [], ◌∷◌, ◌++◌, Text, codes,
  text_leb, is_empty, length, last?, count_of, any, before, sort_by, ltb, leb, or_else,
  if◌then◌else◌,
}
use netflix_flaky_test_triag.Runtime.{Runtime}
use netflix_flaky_test_triag.Config.{DetectConfig}
use netflix_flaky_test_triag.Models.Enums.{Outcome}
use netflix_flaky_test_triag.Models.Records.{TestIdentity}
use netflix_flaky_test_triag.Store.Execution.{ExecutionRecord}
use netflix_flaky_test_triag.Detect.Window.{ShaWindow, has_failure, is_diverged, failing_shards}
use netflix_flaky_test_triag.Detect.History.{
  History, observations, latest, latest_failure, retry_data_available,
}
use netflix_flaky_test_triag.Detect.Rates.{flake_rate, divergence_rate, intermittency_rate}
use netflix_flaky_test_triag.Detect.Footprint.{footprint}
use netflix_flaky_test_triag.Detect.Results.{
  FlakeSignal, Verdict, Confidence, SignalEvidence, Detection,
}
use netflix_flaky_test_triag.Detect.Signals.{
  RegressionFinding, find_same_sha_divergence, find_regression, find_branch_independent,
  find_historical_instability,
}

-- `signal in {SAME_SHA_DIVERGENCE, CROSS_ATTEMPT_DIVERGENCE}`
abbrev pub is_divergence : FlakeSignal → Bool
is_divergence FlakeSignal.same_sha_divergence = true
is_divergence FlakeSignal.cross_attempt_divergence = true
is_divergence _ = false

abbrev is_historical : FlakeSignal → Bool
is_historical FlakeSignal.historical_instability = true
is_historical _ = false

-- `_confidence`
unfoldable pub confidence :
    {F : Type 0} → DetectConfig F → List SignalEvidence → History → Confidence
confidence config signals h =
    if any (λ e. is_divergence e.signal) signals
    then if leb 2 (count_of is_diverged h.windows) then Confidence.high else Confidence.medium
    else if any (λ e. is_historical e.signal) signals
    then if retry_data_available h && leb (config.min_observations * 2) (observations h)
      then Confidence.medium
      else Confidence.low
    else Confidence.low

-- `signals and signals[0].signal in {...}`
abbrev leads_with_divergence : List SignalEvidence → Bool
leads_with_divergence [] = false
leads_with_divergence (e ∷ es) = is_divergence e.signal

abbrev pub latest_fails : History → Bool
latest_fails h = elim (latest h) [ none ↦ false | some w ↦ has_failure w ]

module _ {F : Type 0} (config : DetectConfig F) where
  -- The branches of `_decide` once divergence and regression are excluded.
  decide_weak : History → List SignalEvidence → Verdict × Confidence
  decide_weak h signals =
      if not (latest_fails h)
      then (Verdict.healthy, Confidence.high)
      else if not (is_empty signals)
      then (Verdict.flaky, confidence config signals h)
      else if leb (length h.windows) 1
      then (Verdict.new_failure, Confidence.low)
      else if ltb (observations h) config.min_observations
      then (Verdict.persistent_failure, Confidence.low)
      else (Verdict.persistent_failure, Confidence.medium)

  regression_confidence : RegressionFinding → Confidence
  regression_confidence r =
      if leb (config.regression_pass_streak * 2) r.pass_streak
        && leb config.regression_fail_streak r.fail_streak
      then Confidence.high
      else Confidence.medium

  -- `_decide`
  unfoldable pub decide :
      History → List SignalEvidence → Option RegressionFinding → Verdict × Confidence
  unfolding decide_weak regression_confidence
  decide h signals regression =
      if leads_with_divergence signals
      then (Verdict.flaky, confidence config signals h)
      else elim regression [
        | some r ↦ (Verdict.regression, regression_confidence r)
        | none ↦ decide_weak h signals
      ]

-- A signal that fired, appended.
abbrev append_signal : List SignalEvidence → Option SignalEvidence → List SignalEvidence
append_signal signals none = signals
append_signal signals (some e) = signals ++ e ∷ []

-- `identity.file_path or identity.suite_path.split("::")[0]`
unfoldable pub test_file : TestIdentity → Text
test_file i =
    let suite = before (codes "::") i.suite_path in
    elim i.file_path [ none ↦ suite | some p ↦ if is_empty p then suite else p ]

module _ {F : Type 0} (rt : Runtime F) (config : DetectConfig F) where
  unfoldable pub footprint_of : TestIdentity → History → List Text
  unfolding test_file
  footprint_of i h = elim (latest_failure h) [
    | none ↦ footprint rt (test_file i) none none
    | some r ↦ footprint rt (test_file i) r.stack_trace r.failure_message
  ]

  -- The regression is looked for only without a divergence.
  unfoldable pub regression_of : History → Option RegressionFinding
  regression_of h =
      let found = find_regression config h in
      if is_empty (find_same_sha_divergence h) then found else none

  unfoldable pub signals_of : History → List Text → List Text → List SignalEvidence
  unfolding regression_of
  signals_of h diff_paths test_footprint =
      let signals = find_same_sha_divergence h in
      let weak =
        append_signal
          (append_signal signals (find_branch_independent config h diff_paths test_footprint))
          (find_historical_instability rt config h) in
      elim (regression_of h) [ some _ ↦ signals | none ↦ weak ]

  latest_outcome_of : History → Option Outcome
  latest_outcome_of h = elim (latest h) [
    | none ↦ none
    | some w ↦ elim (latest_failure h) [
      | none ↦ last? w.outcomes
      | some r ↦ if has_failure w then some r.outcome else last? w.outcomes
    ]
  ]

  -- `detect_for_history`
  unfoldable pub detect_for_history : TestIdentity → ℕ → History → List Text → Bool → Detection F
  unfolding footprint_of regression_of signals_of latest_outcome_of
  detect_for_history identity identity_id h diff_paths merged_uncertain =
      let test_footprint = footprint_of identity h in
      let regression = regression_of h in
      let signals = signals_of h diff_paths test_footprint in
      let (verdict, conf) = decide config h signals regression in
      let failure = latest_failure h in
      record {
        identity = identity;
        identity_id = identity_id;
        verdict = verdict;
        confidence = conf;
        signals = signals;
        flake_rate = flake_rate rt config h;
        divergence_rate = divergence_rate rt config h;
        intermittency_rate = intermittency_rate rt config h;
        retry_data_available = retry_data_available h;
        observations = observations h;
        windows = length h.windows;
        infra_excluded = h.infra_excluded;
        latest_outcome = latest_outcome_of h;
        latest_sha = elim (latest h) [ none ↦ none | some w ↦ some w.commit_sha ];
        regression_sha = elim regression [ none ↦ none | some r ↦ some r.pivot_sha ];
        failure_message = elim failure [ none ↦ none | some r ↦ r.failure_message ];
        failure_type = elim failure [ none ↦ none | some r ↦ r.failure_type ];
        stack_trace = elim failure [ none ↦ none | some r ↦ r.stack_trace ];
        footprint = sort_by text_leb test_footprint;
        failing_shards = elim (latest h) [ none ↦ [] | some w ↦ failing_shards w ];
        merged_uncertain = merged_uncertain;
      }
