-- ===== src/Policy/Quarantine.antt =====
-- policy/quarantine.py: the quarantine decision. Times are microseconds in UTC.
pub mod Decision
pub mod Veto
use netflix_flaky_test_triag.Base.{
  ℕ, ◌+◌, ◌*◌, Bool, true, false, ◌&&◌, not, Option, none, some, List, [], ◌∷◌, Text, leb, ltb,
  if◌then◌else◌,
}
use netflix_flaky_test_triag.Runtime.{Runtime}
use netflix_flaky_test_triag.Config.{PolicyConfig}
use netflix_flaky_test_triag.Models.Enums.{CauseCode}
use netflix_flaky_test_triag.Models.Records.{Classification, display_name}
use netflix_flaky_test_triag.Detect.Results.{Detection, Verdict, is_flaky_verdict}
use netflix_flaky_test_triag.Detect.Detector.{test_file}
use netflix_flaky_test_triag.Policy.Owners.{Owner, OwnerSource, unresolved_owner}
use netflix_flaky_test_triag.Policy.Ownership.{Rule, resolve_owner}

pub data QuarantineState : Type 0 where
  recommended active expired released : QuarantineState

-- `QuarantineState.is_open`
abbrev pub is_open : QuarantineState → Bool
is_open QuarantineState.recommended = true
is_open QuarantineState.active = true
is_open _ = false

pub data RefusalReason : Type 0 where
  no_refusal flake_rate_below_threshold insufficient_observations : RefusalReason
  cause_is_regression cause_is_infra verdict_ineligible : RefusalReason
  already_quarantined not_flaky : RefusalReason

pub record QuarantineRecommendation (F : Type 0) : Type 0 where
  pub identity_id : ℕ
  pub test : Text
  pub is_recommended : Bool
  pub refusal : RefusalReason
  pub flake_rate : F
  pub observations : ℕ
  pub cause : CauseCode
  pub verdict : Verdict
  pub owner : Text
  pub owner_source : OwnerSource
  pub ttl_days : ℕ
  pub expires_at : Text
  pub clean_runs_required : ℕ
  pub merged_uncertain : Bool

-- `classification.cause if classification is not None else CauseCode.UNKNOWN`
abbrev pub cause_of : {F : Type 0} → Option (Classification F) → CauseCode
cause_of none = CauseCode.unknown
cause_of (some c) = c.cause

abbrev day : ℕ
day = 86_400_000_000

module _ {F : Type 0} (rt : Runtime F) (config : PolicyConfig F) where
  -- The chain of early returns of `evaluate`: the first condition that refuses.
  unfoldable pub refusal_of : Detection F → CauseCode → Bool → RefusalReason
  refusal_of d cause already = elim d.verdict [
    | Verdict.regression ↦ RefusalReason.cause_is_regression
    | Verdict.new_failure ↦ RefusalReason.verdict_ineligible
    | other ↦ elim cause [
      | CauseCode.real_regression ↦ RefusalReason.cause_is_regression
      | CauseCode.infra_flake ↦ RefusalReason.cause_is_infra
      | _ ↦
          if not (is_flaky_verdict other)
          then RefusalReason.not_flaky
          else if already
          then RefusalReason.already_quarantined
          else if ltb d.observations config.quarantine_min_observations
          then RefusalReason.insufficient_observations
          else if rt.le d.flake_rate config.quarantine_flake_rate
          then RefusalReason.flake_rate_below_threshold
          else RefusalReason.no_refusal
    ]
  ]

  -- `build`, the record with the shared evidence.
  unfoldable pub build :
      Detection F → CauseCode → Bool → RefusalReason → Owner → Text → QuarantineRecommendation F
  build d cause accepted reason owner expires_at = record {
    identity_id = d.identity_id;
    test = display_name d.identity;
    is_recommended = accepted;
    refusal = reason;
    flake_rate = d.flake_rate;
    observations = d.observations;
    cause = cause;
    verdict = d.verdict;
    owner = owner.name;
    owner_source = owner.source;
    ttl_days = if accepted then config.quarantine_ttl_days else 0;
    expires_at = expires_at;
    clean_runs_required = if accepted then config.dequarantine_clean_runs else 0;
    merged_uncertain = d.merged_uncertain;
  }

  abbrev pub expiry : ℕ → Text
  expiry moment = rt.iso_format (moment + config.quarantine_ttl_days * day)

  -- `evaluate`
  unfoldable pub evaluate :
      Detection F
      → Option (Classification F)
      → Bool
      → Option (List Rule)
      → Bool
      → ℕ
      → QuarantineRecommendation F
  unfolding refusal_of build
  evaluate d classification already rules allow_git moment =
      let cause = cause_of classification in
      let owner = resolve_owner rt (test_file d.identity) rules allow_git in
      elim (refusal_of d cause already) [
        | RefusalReason.no_refusal ↦
            build d cause true RefusalReason.no_refusal owner (expiry moment)
        | reason ↦ build d cause false reason unresolved_owner []
      ]

  -- `should_release`
  unfoldable pub should_release : ℕ → Bool
  should_release clean_runs = leb config.dequarantine_clean_runs clean_runs

-- `consecutive_clean_runs`: the loop stops at the first run that is not clean.
unfoldable pub consecutive_clean_runs : List Bool → ℕ
consecutive_clean_runs [] = 0
consecutive_clean_runs (clean ∷ rest) =
    let more = 1 + consecutive_clean_runs rest in if clean then more else 0

module _ {F : Type 0} (rt : Runtime F) where
  -- `is_expiring`: a text that is no date never expires.
  unfoldable pub is_expiring : Text → ℕ → ℕ → Bool
  is_expiring expires_at within_days moment = elim (rt.from_iso_format expires_at) [
    | none ↦ false
    | some e ↦ leb e (moment + within_days * day)
  ]

  -- `is_expired`
  unfoldable pub is_expired : Text → ℕ → Bool
  is_expired expires_at moment = elim (rt.from_iso_format expires_at) [
    | none ↦ false
    | some e ↦ leb e moment
  ]
