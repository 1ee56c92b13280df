-- ===== src/Classify/Classifier/Batch.antt =====
-- classify/classifier.py: `classify_many`, a batch in order of priority.
use netflix_flaky_test_triag.Base.{
  ℕ, ◌+◌, Bool, true, false, Option, none, some, List, [], ◌∷◌, ◌++◌, codes, if◌then◌else◌, or_else,
  leb, ◌==◌, decimal, sort_by,
}
use netflix_flaky_test_triag.Runtime.{Runtime}
use netflix_flaky_test_triag.Models.Enums.{DowngradeReason}
use netflix_flaky_test_triag.Models.Records.{Classification}
use netflix_flaky_test_triag.Detect.Results.{Detection}
use netflix_flaky_test_triag.Classify.Classifier.{Setup, ClassifierState, ModelClient, priority_leb}
use netflix_flaky_test_triag.Classify.Classifier.Run.{refuse, classify}
pub mod Entries

-- `results[id] = c` of a dict, in the order of its keys.
unfoldable pub set_result : {A : Type 0} → ℕ → A → List (ℕ × A) → List (ℕ × A)
set_result id c [] = (id, c) ∷ []
set_result id c ((key, old) ∷ rest) =
    let after = set_result id c rest in if key == id then (key, c) ∷ rest else (key, old) ∷ after

module _ {F : Type 0} (rt : Runtime F) (setup : Setup F) where
  -- The loop of `classify_many`, `room` classifications below the limit.
  unfoldable pub classify_each :
      Option (ModelClient F)
      → ℕ
      → ℕ
      → List (Detection F)
      → List (ℕ × Classification F)
      → ClassifierState F
      → ClassifierState F × List (ℕ × Classification F)
  classify_each client limit index [] results s = (s, results)
  classify_each client limit index (d ∷ ds) results s =
      let refused =
        refuse rt setup DowngradeReason.budget_exhausted []
          (codes "beyond the per-invocation cap of " ++ decimal limit ++ codes " tests") in
      let step = if leb limit index then (s, refused) else classify rt setup client d s in
      classify_each client limit (index + 1) ds (set_result d.identity_id step.1 results) step.0

  -- `classify_many`
  unfoldable pub classify_many :
      Option (ModelClient F)
      → List (Detection F)
      → Option ℕ
      → ClassifierState F
      → ClassifierState F × List (ℕ × Classification F)
  classify_many client detections max_tests s =
      let limit = or_else max_tests setup.config.max_tests in
      classify_each client limit 0 (sort_by (priority_leb rt) detections) [] s
