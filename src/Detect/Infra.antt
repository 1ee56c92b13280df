-- ===== src/Detect/Infra.antt =====
-- detect/infra.py: which failures are the platform's.
use netflix_flaky_test_triag.Base.{
  ◌≡◌, Bool, true, false, Option, none, some, List, [], ◌∷◌, Text, codes, is_empty, any, map,
  contains, join, if◌then◌else◌, arith,
}
use netflix_flaky_test_triag.Runtime.{Runtime}
use netflix_flaky_test_triag.Config.{DetectConfig}
use netflix_flaky_test_triag.Models.Enums.{Outcome}
use netflix_flaky_test_triag.Store.Execution.{ExecutionRecord}

-- The parts that are present and not empty.
abbrev present : List (Option Text) → List Text
present [] = []
present (none ∷ ps) = present ps
present (some t ∷ ps) = let rest = present ps in if is_empty t then rest else t ∷ rest

module _ {F : Type 0} (rt : Runtime F) (config : DetectConfig F) where
  haystack : ExecutionRecord → Text
  haystack r =
      join (codes " ")
        (map rt.lower (present (r.failure_type ∷ r.failure_message ∷ r.stack_trace ∷ [])))

  matches_pattern : ExecutionRecord → Bool
  matches_pattern r =
      let hay = haystack r in
      if is_empty hay
      then false
      else any (λ p. contains (rt.lower p) hay) config.infra_error_patterns

  -- `is_infra_failure`
  unfoldable pub is_infra_failure : ExecutionRecord → Bool
  unfolding haystack matches_pattern
  is_infra_failure r = elim r.outcome [ Outcome.error ↦ matches_pattern r | _ ↦ false ]

  -- An execution that counts as a platform failure has the outcome error.
  pub is_infra_failure-error :
      (r : ExecutionRecord) → is_infra_failure r ≡ true → r.outcome ≡ Outcome.error
  unfolding is_infra_failure
  is_infra_failure-error r h = ground arith
