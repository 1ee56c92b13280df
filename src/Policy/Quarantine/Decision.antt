-- ===== src/Policy/Quarantine/Decision.antt =====
-- When `evaluate` recommends a quarantine, and what a recommendation or a refusal holds.
use netflix_flaky_test_triag.Base.{
  ℕ, ◌≤◌, ◌≡◌, ◌≢◌, ◌↔◌, Bool, true, false, Option, List, [], arith,
}
use netflix_flaky_test_triag.Runtime.{Runtime}
use netflix_flaky_test_triag.Config.{PolicyConfig}
use netflix_flaky_test_triag.Models.Enums.{CauseCode}
use netflix_flaky_test_triag.Models.Records.{Classification}
use netflix_flaky_test_triag.Detect.Results.{Detection, Verdict}
use netflix_flaky_test_triag.Detect.Detector.{test_file}
use netflix_flaky_test_triag.Policy.Owners.{OwnerSource}
use netflix_flaky_test_triag.Policy.Ownership.{Rule, resolve_owner}
use netflix_flaky_test_triag.Policy.Quarantine.{
  RefusalReason, refusal_of, cause_of, evaluate, expiry,
}

-- The four conditions of a quarantine, and that the detector found a flake.
pub record IsEligible {F : Type 0} (rt : Runtime F) (config : PolicyConfig F) (d : Detection F)
    (cause : CauseCode) (already : Bool) : Type 0 where
  pub flaky : d.verdict ≡ Verdict.flaky
  pub no_defect : cause ≢ CauseCode.real_regression
  pub no_infra : cause ≢ CauseCode.infra_flake
  pub fresh : already ≡ false
  pub observed : config.quarantine_min_observations ≤ d.observations
  pub unstable : rt.le d.flake_rate config.quarantine_flake_rate ≡ false

module _ {F : Type 0} (rt : Runtime F) (config : PolicyConfig F) where
  refusal_of-IsEligible :
      (d : Detection F) (cause : CauseCode) (already : Bool)
      → refusal_of rt config d cause already ≡ RefusalReason.no_refusal
      → IsEligible rt config d cause already
  unfolding refusal_of
  refusal_of-IsEligible d cause already h = ground arith

  eligible-refusal_of :
      (d : Detection F) (cause : CauseCode) (already : Bool)
      → IsEligible rt config d cause already
      → refusal_of rt config d cause already ≡ RefusalReason.no_refusal
  unfolding refusal_of
  eligible-refusal_of d cause already h = ground arith

  -- A recommendation is made exactly when the verdict is flaky, the cause is neither a regression
  -- nor the platform's, no quarantine is open, there are enough observations and the flake rate is
  -- above the threshold; every refusal names a reason.
  pub evaluate-IsEligible :
      (d : Detection F) (c : Option (Classification F)) (already : Bool)
      (rules : Option (List Rule)) (allow_git : Bool) (moment : ℕ)
      → let q = evaluate rt config d c already rules allow_git moment in
        ((q.is_recommended ≡ true) ↔ IsEligible rt config d (cause_of c) already)
        × ((q.is_recommended ≡ true) ↔ (q.refusal ≡ RefusalReason.no_refusal))
  unfolding evaluate
  evaluate-IsEligible d c already rules allow_git moment = (
    (
      λ h. refusal_of-IsEligible d (cause_of c) already (ground arith),
      λ h. ground (arith, eligible-refusal_of d (cause_of c) already h),
    ),
    (λ h. ground arith, λ h. ground arith),
  )

  -- What a decision carries: a recommendation has the configured lifetime, release condition and
  -- expiry and the resolved owner of the test's file; a refusal has none of them.
  evaluate_terms :
      (d : Detection F) (c : Option (Classification F)) (already : Bool)
      (rules : Option (List Rule)) (allow_git : Bool) (moment : ℕ)
      → let q = evaluate rt config d c already rules allow_git moment in
        let owner = resolve_owner rt (test_file d.identity) rules allow_git in
        (q.is_recommended ≡ true
          → (q.ttl_days ≡ config.quarantine_ttl_days)
            × (q.clean_runs_required ≡ config.dequarantine_clean_runs)
            × (q.expires_at ≡ expiry rt config moment)
            × (q.owner ≡ owner.name)
            × (q.owner_source ≡ owner.source))
        × (q.is_recommended ≡ false
            → (q.ttl_days ≡ 0)
              × (q.clean_runs_required ≡ 0)
              × (q.expires_at ≡ [])
              × (q.owner ≡ [])
              × (q.owner_source ≡ OwnerSource.unresolved))
  unfolding evaluate
  evaluate_terms d c already rules allow_git moment = (λ h. ground arith, λ h. ground arith)
