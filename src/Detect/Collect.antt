-- ===== src/Detect/Collect.antt =====
-- detect/detector.py: detection over every logical test of a store.
use netflix_flaky_test_triag.Base.{
  ℕ, Bool, true, false, not, Option, none, some, List, [], ◌∷◌, ◌++◌, Text, text_leb, keep,
  is_empty, ltb, if◌then◌else◌, or_else, sort_by,
}
use netflix_flaky_test_triag.Runtime.{Runtime}
use netflix_flaky_test_triag.Config.{DetectConfig}
use netflix_flaky_test_triag.Models.Records.{TestIdentity, display_name}
use netflix_flaky_test_triag.Store.Execution.{ExecutionRecord}
use netflix_flaky_test_triag.Store.Aliases.{IdentityGroup, has_id, identity_group}
use netflix_flaky_test_triag.Store.Reads.{
  RunStore, identity_by_id, all_identity_ids, executions_for_group, diff_paths_for_sha,
}
use netflix_flaky_test_triag.Detect.History.{History, build_history, latest}
use netflix_flaky_test_triag.Detect.Results.{Detection}
use netflix_flaky_test_triag.Detect.Detector.{detect_for_history}
pub mod Once

-- `max(group.identity_ids)`; a group is not empty.
unfoldable pub max_of : List ℕ → ℕ
max_of [] = 0
max_of (x ∷ []) = x
max_of (x ∷ y ∷ ys) = let m = max_of (y ∷ ys) in if ltb x m then m else x

module _ {F : Type 0} (rt : Runtime F) (config : DetectConfig F) (store : RunStore F) where
  -- `_diff_paths_for_latest`
  unfoldable pub diff_paths_for_latest : History → List Text
  diff_paths_for_latest h = elim (latest h) [
    | none ↦ []
    | some w ↦ diff_paths_for_sha store w.commit_sha
  ]

  unfoldable pub since_of : Option Text → List ExecutionRecord → List ExecutionRecord
  since_of none records = records
  since_of (some since) records = keep (λ r. text_leb since r.started_at) records

  -- The body of the loop for a group that was not reported.
  unfoldable pub detect_group : Option Text → ℕ → IdentityGroup → Option (Detection F)
  detect_group since id group =
      let primary = max_of group.identity_ids in
      let records =
        since_of since (executions_for_group store (some config.window_executions) id) in
      let h = build_history rt config records in
      elim (identity_by_id store primary) [
        | none ↦ none
        | some identity ↦
            if is_empty records
            then none
            else some (
                detect_for_history rt config identity primary h (diff_paths_for_latest h)
                  group.merged_uncertain)
      ]

  abbrev append_found : Option (Detection F) → List (Detection F) → List (Detection F)
  append_found none ds = ds
  append_found (some d) ds = d ∷ ds

  -- The loop over the candidates.
  unfoldable pub detect_each : Option Text → List ℕ → List ℕ → List (Detection F)
  detect_each since [] reported = []
  detect_each since (id ∷ ids) reported =
      let group = identity_group store.identity_aliases id in
      let skipped = detect_each since ids reported in
      let rest = detect_each since ids (reported ++ group.identity_ids) in
      if has_id id reported then skipped else append_found (detect_group since id group) rest

  -- `(-flake_rate, display_name)`
  unfoldable pub detection_leb : Detection F → Detection F → Bool
  detection_leb a b =
      if rt.lt b.flake_rate a.flake_rate
      then true
      else if rt.lt a.flake_rate b.flake_rate
      then false
      else text_leb (display_name a.identity) (display_name b.identity)

  -- `detect_all`
  unfoldable pub detect_all : Option (List ℕ) → Option Text → List (Detection F)
  detect_all identity_ids since =
      sort_by detection_leb (detect_each since (or_else identity_ids (all_identity_ids store)) [])
