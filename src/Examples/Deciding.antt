-- ===== src/Examples/Deciding.antt =====
-- The policy's theorems on one flaky test and one broken one.
use netflix_flaky_test_triag.Base.{
  join, replace, ℕ, ◌≡◌, ◌↔◌, refl, true, false, none, some, [], ◌∷◌, codes, Elem, inl, arith,
}
use netflix_flaky_test_triag.Models.Enums.{Outcome, CauseCode, DowngradeReason}
use netflix_flaky_test_triag.Models.Records.{Classification}
use netflix_flaky_test_triag.Detect.Window.{sha_window, status}
use netflix_flaky_test_triag.Detect.History.{History}
use netflix_flaky_test_triag.Detect.Results.{Verdict, Confidence, Detection}
use netflix_flaky_test_triag.Detect.Signals.{RegressionFinding, find_regression, regression_in}
use netflix_flaky_test_triag.Detect.Detector.{detect_for_history}
use netflix_flaky_test_triag.Policy.Owners.{OwnerSource}
use netflix_flaky_test_triag.Policy.Ownership.{matches, target_of, Rule, resolve_owner}
use netflix_flaky_test_triag.Policy.Ownership.Rules.{resolve_owner_last_rule}
use netflix_flaky_test_triag.Policy.Quarantine.{
  QuarantineState, RefusalReason, QuarantineRecommendation, cause_of, evaluate,
}
use netflix_flaky_test_triag.Policy.Quarantine.Decision.{IsEligible, evaluate-IsEligible}
use netflix_flaky_test_triag.Policy.Quarantine.Veto.{
  classification_only_vetoes, regression_never_quarantined,
}
use netflix_flaky_test_triag.Policy.Records.{
  QuarantineRecord, Table, insert_recommendation, record_recommendation, release,
}
use netflix_flaky_test_triag.Policy.Records.Invariant.{IsValid, Step, Reach, Reach-IsValid}
use netflix_flaky_test_triag.Policy.Records.Closing.{closed_final}
use netflix_flaky_test_triag.Examples.Sample.{
  runtime, detect_config, policy_config, execution, login,
}

abbrev python_rule : Rule
python_rule = record { pattern = codes "*.py"; owners = codes "@py" ∷ [] }

abbrev package_rule : Rule
package_rule = record { pattern = codes "/pkg/"; owners = codes "@pkg" ∷ codes "@qa" ∷ [] }

abbrev other_rule : Rule
other_rule = record { pattern = codes "docs/"; owners = codes "@docs" ∷ [] }

resolve_owner_last_rule_example :
    resolve_owner runtime
      (codes "pkg/suite.py")
      (some (python_rule ∷ package_rule ∷ other_rule ∷ []))
      true
    ≡ record { name = codes "@pkg, @qa"; source = OwnerSource.codeowners }
unfolding matches target_of replace join
resolve_owner_last_rule_example =
    resolve_owner_last_rule runtime (codes "pkg/suite.py") (python_rule ∷ []) package_rule
      (other_rule ∷ []) true refl refl refl

abbrev flaky : Detection ℕ
flaky = record {
  identity = login;
  identity_id = 1;
  verdict = Verdict.flaky;
  confidence = Confidence.medium;
  signals = [];
  flake_rate = 1;
  divergence_rate = 1;
  intermittency_rate = 1;
  retry_data_available = true;
  observations = 4;
  windows = 2;
  infra_excluded = 0;
  latest_outcome = some Outcome.fail;
  latest_sha = none;
  regression_sha = none;
  failure_message = none;
  failure_type = none;
  stack_trace = none;
  footprint = [];
  failing_shards = [];
  merged_uncertain = false;
}

abbrev timing : Classification ℕ
timing = record {
  cause = CauseCode.timing_dependency;
  confidence = 1;
  reasoning = [];
  evidence = codes "sleep(1)" ∷ [];
  suggested_action = [];
  abstained = false;
  downgrade_reason = DowngradeReason.none;
  model = [];
  prompt_version = [];
}

evaluate-IsEligible_example :
    let q = evaluate runtime policy_config flaky (some timing) false none false 7 in
    ((q.is_recommended ≡ true)
      ↔ IsEligible runtime policy_config flaky (cause_of (some timing)) false)
    × ((q.is_recommended ≡ true) ↔ (q.refusal ≡ RefusalReason.no_refusal))
evaluate-IsEligible_example =
    evaluate-IsEligible runtime policy_config flaky (some timing) false none false 7

classification_only_vetoes_example :
    evaluate runtime policy_config flaky none false none false 7
    ≡ record (evaluate runtime policy_config flaky (some timing) false none false 7) {
      cause = CauseCode.unknown;
    }
unfolding evaluate
classification_only_vetoes_example =
    classification_only_vetoes runtime policy_config flaky timing false none false 7 refl

abbrev broken_history : History
broken_history = record {
  windows =
      sha_window (codes "a") (execution 1 Outcome.pass (codes "a") 1) []
      ∷ sha_window (codes "b") (execution 2 Outcome.fail (codes "b") 1) []
      ∷ [];
  infra_excluded = 0;
  skipped = 0;
}

abbrev found : RegressionFinding
found = record { pivot_sha = codes "b"; pass_streak = 1; fail_streak = 1 }

regression_never_quarantined_example :
    let d = detect_for_history runtime detect_config login 1 broken_history [] false in
    let q = evaluate runtime policy_config d (some timing) false none false 7 in
    (q.is_recommended ≡ false) × (q.refusal ≡ RefusalReason.cause_is_regression)
unfolding find_regression regression_in sha_window status
regression_never_quarantined_example =
    regression_never_quarantined runtime policy_config detect_config login 1 broken_history [] false
      found (some timing) false none false 7 refl refl

abbrev recommended : QuarantineRecommendation ℕ
recommended = evaluate runtime policy_config flaky (some timing) false none false 7

abbrev one_row : Table ℕ
one_row = (insert_recommendation (codes "now") QuarantineState.recommended recommended []).0

abbrev closed_row : Table ℕ
closed_row = (release (codes "later") 1 3 one_row).0

empty-IsValid : IsValid {F = ℕ} []
empty-IsValid = record { one_open = λ i. omega arith; rows_valid = tt }

Reach-IsValid_example : IsValid closed_row
unfolding record_recommendation evaluate
Reach-IsValid_example = Reach-IsValid runtime empty-IsValid (
    Reach.next
      (Reach.next Reach.here
        (Step.recommend (1 ∷ []) (codes "now") recommended [] (one_row, some 1) refl))
      (Step.free (codes "later") 1 3 one_row))

abbrev old_row : QuarantineRecord ℕ
old_row = record {
  record_id = 1;
  identity_id = 1;
  state = QuarantineState.released;
  cause = CauseCode.unknown;
  reason = [];
  flake_rate = 1;
  observations = 4;
  owner = [];
  owner_source = OwnerSource.unresolved;
  ttl_days = 14;
  clean_runs_required = 3;
  created_at = codes "a";
  expires_at = codes "b";
  closed_at = some (codes "c");
  close_reason = some (codes "clean");
}

closed_final_example :
    Elem old_row
      (insert_recommendation (codes "now") QuarantineState.recommended recommended (old_row ∷ [])).0
unfolding record_recommendation evaluate
closed_final_example = closed_final runtime old_row (inl refl) refl (
    Reach.next Reach.here (
      Step.recommend (1 ∷ []) (codes "now") recommended (old_row ∷ [])
        (insert_recommendation (codes "now") QuarantineState.recommended recommended (old_row ∷ []))
        refl))
