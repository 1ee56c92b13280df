-- ===== src/Policy/Quarantine/Veto.antt =====
-- `evaluate` of policy/quarantine.py with and without a classification, and on a regression.
use netflix_flaky_test_triag.Base.{
  ℕ, ◌≡◌, Bool, true, false, Option, none, some, List, Text, any, arith,
}
use netflix_flaky_test_triag.Runtime.{Runtime}
use netflix_flaky_test_triag.Config.{PolicyConfig, DetectConfig}
use netflix_flaky_test_triag.Models.Enums.{CauseCode}
use netflix_flaky_test_triag.Models.Records.{Classification, TestIdentity}
use netflix_flaky_test_triag.Detect.Window.{is_diverged}
use netflix_flaky_test_triag.Detect.History.{History}
use netflix_flaky_test_triag.Detect.Results.{Detection, Verdict}
use netflix_flaky_test_triag.Detect.Signals.{RegressionFinding, find_regression}
use netflix_flaky_test_triag.Detect.Detector.{detect_for_history}
use netflix_flaky_test_triag.Detect.Detector.Precedence.{regression_reported}
use netflix_flaky_test_triag.Policy.Ownership.{Rule}
use netflix_flaky_test_triag.Policy.Quarantine.{RefusalReason, evaluate}

module _ {F : Type 0} (rt : Runtime F) (config : PolicyConfig F) where
  -- Whatever a model says, a quarantine recommended with its classification is recommended without
  -- any classification too, with the same owner, lifetime and expiry: the classification can veto
  -- a quarantine and never cause one.
  pub classification_only_vetoes :
      (d : Detection F) (c : Classification F) (already : Bool) (rules : Option (List Rule))
      (allow_git : Bool) (moment : ℕ)
      → (evaluate rt config d (some c) already rules allow_git moment).is_recommended ≡ true
      → evaluate rt config d none already rules allow_git moment
        ≡ record (evaluate rt config d (some c) already rules allow_git moment) {
          cause = CauseCode.unknown;
        }
  unfolding evaluate
  classification_only_vetoes d c already rules allow_git moment h = ground arith

  refused_regression :
      (d : Detection F) (c : Option (Classification F)) (already : Bool)
      (rules : Option (List Rule)) (allow_git : Bool) (moment : ℕ)
      → d.verdict ≡ Verdict.regression
      → let q = evaluate rt config d c already rules allow_git moment in
        (q.is_recommended ≡ false) × (q.refusal ≡ RefusalReason.cause_is_regression)
  unfolding evaluate
  refused_regression d c already rules allow_git moment h = ground arith

  -- From executions to decision: a history with no diverged window in which a regression was found
  -- is refused a quarantine as a regression, whatever the classification, the flake rate, the
  -- number of observations, the owners and the time are.
  pub regression_never_quarantined :
      (detect : DetectConfig F) (i : TestIdentity) (n : ℕ) (h : History) (diff_paths : List Text)
      (uncertain : Bool) (r : RegressionFinding) (c : Option (Classification F)) (already : Bool)
      (rules : Option (List Rule)) (allow_git : Bool) (moment : ℕ)
      → any is_diverged h.windows ≡ false
      → find_regression detect h ≡ some r
      → let d = detect_for_history rt detect i n h diff_paths uncertain in
        let q = evaluate rt config d c already rules allow_git moment in
        (q.is_recommended ≡ false) × (q.refusal ≡ RefusalReason.cause_is_regression)
  regression_never_quarantined detect i n h diff_paths uncertain r c already rules allow_git moment
        clean found =
      refused_regression (detect_for_history rt detect i n h diff_paths uncertain) c already rules
        allow_git moment (regression_reported rt detect i n h diff_paths uncertain r clean found).0
