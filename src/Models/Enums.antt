-- ===== src/Models/Enums.antt =====
-- The enumerations of models.py and what they answer of themselves.
use netflix_flaky_test_triag.Base.{Bool, true, false}

pub data Outcome : Type 0 where
  pass fail error skip : Outcome

-- `Outcome.is_failure`
abbrev pub is_failure : Outcome → Bool
is_failure Outcome.fail = true
is_failure Outcome.error = true
is_failure _ = false

-- `Outcome.is_pass`
abbrev pub is_pass : Outcome → Bool
is_pass Outcome.pass = true
is_pass _ = false

-- `Outcome.counts_as_observation`
abbrev pub counts_as_observation : Outcome → Bool
counts_as_observation Outcome.skip = false
counts_as_observation _ = true

pub data CauseCode : Type 0 where
  race_condition timing_dependency test_order_dependency external_dependency : CauseCode
  shared_state_leak resource_exhaustion infra_flake real_regression unknown : CauseCode

-- `CauseCode.is_flake_category`
abbrev pub is_flake_category : CauseCode → Bool
is_flake_category CauseCode.real_regression = false
is_flake_category CauseCode.infra_flake = false
is_flake_category CauseCode.unknown = false
is_flake_category _ = true

-- `cause is CauseCode.UNKNOWN`
abbrev pub is_unknown : CauseCode → Bool
is_unknown CauseCode.unknown = true
is_unknown _ = false

pub data DowngradeReason : Type 0 where
  none invalid_json schema_invalid unknown_cause below_confidence_floor : DowngradeReason
  no_evidence model_abstained budget_exhausted prefiltered api_error : DowngradeReason
  llm_disabled empty_response : DowngradeReason

pub data ChangeType : Type 0 where
  added modified deleted renamed : ChangeType
