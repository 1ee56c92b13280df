-- ===== src/Config.antt =====
-- config.py: the validated thresholds.
use netflix_flaky_test_triag.Base.{ℕ, Bool, ◌&&◌, Text, List, leb}
use netflix_flaky_test_triag.Runtime.{Runtime}

pub record DetectConfig (F : Type 0) : Type 0 where
  pub window_executions : ℕ
  pub min_observations : ℕ
  pub flake_rate_threshold : F
  pub ewma_alpha : F
  pub regression_pass_streak : ℕ
  pub regression_fail_streak : ℕ
  pub main_branch : Text
  pub infra_error_patterns : List Text

pub record IdentityConfig (F : Type 0) : Type 0 where
  pub alias_max_distance : F
  pub alias_certain_distance : F

pub record ClassifyConfig (F : Type 0) : Type 0 where
  pub prefilter_model : Text
  pub classifier_model : Text
  pub confidence_floor : F
  pub temperature : F
  pub budget_usd : F
  pub max_tests : ℕ
  pub trace_budget_chars : ℕ
  pub max_output_tokens : ℕ
  pub prefilter_enabled : Bool
  pub prefilter_max_output_tokens : ℕ

pub record PolicyConfig (F : Type 0) : Type 0 where
  pub quarantine_flake_rate : F
  pub quarantine_min_observations : ℕ
  pub quarantine_ttl_days : ℕ
  pub dequarantine_clean_runs : ℕ

module _ {F : Type 0} (rt : Runtime F) where
  in_unit : F → Bool
  in_unit x = rt.le (rt.of_nat 0) x && rt.le x (rt.of_nat 1)

  -- What the field constraints of `DetectConfig` accept.
  unfoldable pub valid_detect : DetectConfig F → Bool
  unfolding in_unit
  valid_detect c =
      leb 1 c.window_executions
      && leb 1 c.min_observations
      && in_unit c.flake_rate_threshold
      && rt.lt (rt.of_nat 0) c.ewma_alpha
      && rt.le c.ewma_alpha (rt.of_nat 1)
      && leb 1 c.regression_pass_streak
      && leb 1 c.regression_fail_streak

  -- What the field constraints of `PolicyConfig` accept.
  unfoldable pub valid_policy : PolicyConfig F → Bool
  unfolding in_unit
  valid_policy c =
      in_unit c.quarantine_flake_rate
      && leb 1 c.quarantine_min_observations
      && leb 1 c.quarantine_ttl_days
      && leb 1 c.dequarantine_clean_runs
