-- ===== src/Models/Records.antt =====
-- The records of models.py that the detector, the classifier and the policy share.
use netflix_flaky_test_triag.Base.{
  ℕ, Bool, ◌&&◌, ◌||◌, not, Option, List, Text, codes, ◌++◌, is_empty, if◌then◌else◌,
}
use netflix_flaky_test_triag.Runtime.{ℤ}
use netflix_flaky_test_triag.Models.Enums.{
  Outcome, CauseCode, DowngradeReason, is_unknown, is_flake_category,
}

pub record Classification (F : Type 0) : Type 0 where
  pub cause : CauseCode
  pub confidence : F
  pub reasoning : Text
  pub evidence : List Text
  pub suggested_action : Text
  pub abstained : Bool
  pub downgrade_reason : DowngradeReason
  pub model : Text
  pub prompt_version : Text

-- `Classification.is_abstention`
abbrev pub is_abstention : {F : Type 0} → Classification F → Bool
is_abstention c = c.abstained || is_unknown c.cause

-- `Classification.is_actionable`
abbrev pub is_actionable : {F : Type 0} → Classification F → Bool
is_actionable c = not (is_abstention c) && is_flake_category c.cause

pub record TestIdentity : Type 0 where
  pub fingerprint : Text
  pub suite_path : Text
  pub test_name : Text
  pub parameters : Text
  pub file_path : Option Text

pub record RunMetadata : Type 0 where
  pub commit_sha : Text
  pub run_id : Text
  pub attempt : ℕ
  pub branch : Option Text
  pub shard_id : Option Text
  pub worker_id : Option Text
  -- microseconds in UTC, since the constructor refuses a time without a zone
  pub started_at : ℕ

pub record TestCaseResult : Type 0 where
  pub name : Text
  pub classname : Text
  pub suite_path : Text
  pub file_path : Option Text
  pub line : Option ℤ
  pub duration_ms : Option ℕ
  pub outcome : Outcome
  pub failure_type : Option Text
  pub failure_message : Option Text
  pub stack_trace : Option Text
  pub stdout : Option Text
  pub stderr : Option Text
  pub rerun_observed : Bool
  pub source_file : Option Text

pub record ParseWarning : Type 0 where
  pub origin : Text
  pub reason : Text
  pub detail : Option Text

-- `TestIdentity.display_name`
unfoldable pub display_name : TestIdentity → Text
display_name i =
    let base =
      if is_empty i.suite_path then i.test_name else i.suite_path ++ codes "::" ++ i.test_name in
    if is_empty i.parameters then base else base ++ codes "[" ++ i.parameters ++ codes "]"
