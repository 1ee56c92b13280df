-- ===== src/Detect/Results.antt =====
-- detect/models.py: what the detector reports.
use netflix_flaky_test_triag.Base.{ℕ, Bool, true, false, Option, List, Text}
use netflix_flaky_test_triag.Models.Enums.{Outcome}
use netflix_flaky_test_triag.Models.Records.{TestIdentity}

pub data FlakeSignal : Type 0 where
  same_sha_divergence cross_attempt_divergence : FlakeSignal
  branch_independent historical_instability : FlakeSignal

pub data Verdict : Type 0 where
  flaky regression new_failure persistent_failure healthy : Verdict

-- `Verdict.is_failure_state`
abbrev pub is_failure_state : Verdict → Bool
is_failure_state Verdict.healthy = false
is_failure_state _ = true

-- `verdict is Verdict.FLAKY`
abbrev pub is_flaky_verdict : Verdict → Bool
is_flaky_verdict Verdict.flaky = true
is_flaky_verdict _ = false

pub data Confidence : Type 0 where
  high medium low : Confidence

pub record SignalEvidence : Type 0 where
  pub signal : FlakeSignal
  pub detail : Text
  pub observations : ℕ

pub record Detection (F : Type 0) : Type 0 where
  pub identity : TestIdentity
  pub identity_id : ℕ
  pub verdict : Verdict
  pub confidence : Confidence
  pub signals : List SignalEvidence
  pub flake_rate : F
  pub divergence_rate : F
  pub intermittency_rate : F
  pub retry_data_available : Bool
  pub observations : ℕ
  pub windows : ℕ
  pub infra_excluded : ℕ
  pub latest_outcome : Option Outcome
  pub latest_sha : Option Text
  pub regression_sha : Option Text
  pub failure_message : Option Text
  pub failure_type : Option Text
  pub stack_trace : Option Text
  pub footprint : List Text
  pub failing_shards : List Text
  pub merged_uncertain : Bool

-- `Detection.is_flaky`
abbrev pub is_flaky : {F : Type 0} → Detection F → Bool
is_flaky d = is_flaky_verdict d.verdict

-- `Detection.needs_classification`
unfoldable pub needs_classification : {F : Type 0} → Detection F → Bool
needs_classification d = elim d.verdict [
  | Verdict.flaky ↦ true
  | Verdict.persistent_failure ↦ true
  | _ ↦ false
]

-- `Detection.priority`
unfoldable pub priority : {F : Type 0} → Detection F → F × ℕ
priority d = (d.flake_rate, d.observations)
