-- ===== src/Store/Execution.antt =====
-- store/repositories.py: one persisted execution with its run context.
use netflix_flaky_test_triag.Base.{ℕ, Bool, Option, Text}
use netflix_flaky_test_triag.Models.Enums.{Outcome}

pub record ExecutionRecord : Type 0 where
  pub execution_id : ℕ
  pub identity_id : ℕ
  pub outcome : Outcome
  pub duration_ms : Option ℕ
  pub failure_type : Option Text
  pub failure_message : Option Text
  pub stack_trace : Option Text
  pub rerun_observed : Bool
  pub run_id : Text
  pub attempt : ℕ
  pub commit_sha : Text
  pub branch : Text
  pub shard_id : Text
  pub started_at : Text
