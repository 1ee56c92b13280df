-- ===== src/Store/Reads.antt =====
-- store/repositories.py: what the detector and the policy read of the store. An execution is
-- joined with its run, as every query joins them.
use netflix_flaky_test_triag.Base.{
  ℕ, Bool, Option, none, some, List, [], ◌∷◌, ◌++◌, map, Text, text_eq, text_leb, keep, take, leb,
  ◌==◌, if◌then◌else◌, sort_by,
}
use netflix_flaky_test_triag.Models.Enums.{is_pass, counts_as_observation}
use netflix_flaky_test_triag.Models.Records.{TestIdentity}
use netflix_flaky_test_triag.Store.Execution.{ExecutionRecord}
use netflix_flaky_test_triag.Store.Aliases.{AliasEdge, identity_group}

-- The tables of `RunStore`; `diff_files` is joined with the commit of its run.
pub record RunStore (F : Type 0) : Type 0 where
  pub test_identities : List (ℕ × TestIdentity)
  pub executions : List ExecutionRecord
  pub identity_aliases : List (AliasEdge F)
  pub diff_files : List (Text × Text)

-- `ORDER BY started_at DESC, id DESC`
unfoldable pub newest_leb : ExecutionRecord → ExecutionRecord → Bool
newest_leb a b =
    if text_eq a.started_at b.started_at
    then leb b.execution_id a.execution_id
    else text_leb b.started_at a.started_at

-- `LIMIT`, none for no limit.
unfoldable pub limited : {A : Type 0} → Option ℕ → List A → List A
limited none xs = xs
limited (some n) xs = take n xs

unfoldable pub find_identity : ℕ → List (ℕ × TestIdentity) → Option TestIdentity
find_identity id [] = none
find_identity id ((key, identity) ∷ rest) =
    if key == id then some identity else find_identity id rest

module _ {F : Type 0} (store : RunStore F) where
  -- `identity_by_id`
  unfoldable pub identity_by_id : ℕ → Option TestIdentity
  identity_by_id id = find_identity id store.test_identities

  -- `all_identity_ids`
  unfoldable pub all_identity_ids : List ℕ
  all_identity_ids = sort_by leb (map (λ r. r.0) store.test_identities)

  -- `executions_for_identity`
  unfoldable pub executions_for_identity : Option ℕ → ℕ → List ExecutionRecord
  executions_for_identity limit id =
      limited limit (sort_by newest_leb (keep (λ e. e.identity_id == id) store.executions))

  -- The loop over the members of a group.
  unfoldable pub executions_of : Option ℕ → List ℕ → List ExecutionRecord
  executions_of limit [] = []
  executions_of limit (id ∷ ids) = executions_for_identity limit id ++ executions_of limit ids

  -- `executions_for_group`
  unfoldable pub executions_for_group : Option ℕ → ℕ → List ExecutionRecord
  executions_for_group limit id =
      let group = identity_group store.identity_aliases id in
      limited limit (sort_by newest_leb (executions_of limit group.identity_ids))

  -- `recent_outcomes`
  unfoldable pub recent_outcomes : ℕ → ℕ → List Bool
  recent_outcomes limit id =
      map (λ e. is_pass e.outcome)
        (keep (λ e. counts_as_observation e.outcome) (executions_for_group (some limit) id))

  -- `diff_paths_for_sha`, as a list that is only searched.
  unfoldable pub diff_paths_for_sha : Text → List Text
  diff_paths_for_sha sha = map (λ r. r.1) (keep (λ r. text_eq r.0 sha) store.diff_files)
