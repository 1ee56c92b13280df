-- ===== src/Store/Tables.antt =====
-- store/schema.py: the rows of the tables, and the join of an execution with its run. A table is
-- the list of its rows, the newest first; the rows have the columns of the schema.
use netflix_flaky_test_triag.Base.{
  ℕ, ◌+◌, Bool, Option, none, some, List, [], ◌∷◌, Text, ◌==◌, max, if◌then◌else◌,
}
use netflix_flaky_test_triag.Models.Enums.{Outcome, ChangeType}
use netflix_flaky_test_triag.Models.Records.{TestIdentity, ParseWarning}
use netflix_flaky_test_triag.Store.Execution.{ExecutionRecord}
use netflix_flaky_test_triag.Store.Aliases.{AliasEdge}

pub record RunRow : Type 0 where
  pub id : ℕ
  pub run_id : Text
  pub attempt : ℕ
  pub commit_sha : Text
  pub branch : Text
  pub shard_id : Text
  pub worker_id : Text
  pub started_at : Text
  pub ingested_at : Text

pub record IdentityRow : Type 0 where
  pub id : ℕ
  pub fingerprint : Text
  pub suite_path : Text
  pub test_name : Text
  pub parameters : Text
  pub file_path : Option Text
  pub first_seen : Text
  pub last_seen : Text

pub record ExecutionRow : Type 0 where
  pub id : ℕ
  pub run_pk : ℕ
  pub identity_id : ℕ
  pub outcome : Outcome
  pub duration_ms : Option ℕ
  pub failure_type : Option Text
  pub failure_message : Option Text
  pub stack_trace : Option Text
  pub stdout : Option Text
  pub stderr : Option Text
  pub rerun_observed : Bool
  pub source_file : Option Text
  pub created_at : Text

pub record DiffFileRow : Type 0 where
  pub id : ℕ
  pub run_pk : ℕ
  pub path : Text
  pub old_path : Option Text
  pub change_type : ChangeType
  pub binary : Bool

-- `CHECK (side IN ('new', 'old'))`
pub data Side : Type 0 where
  new old : Side

pub record DiffHunkRow : Type 0 where
  pub diff_file_id : ℕ
  pub side : Side
  pub start_line : ℕ
  pub end_line : ℕ

pub record WarningRow : Type 0 where
  pub run_pk : Option ℕ
  pub warning : ParseWarning
  pub created_at : Text

pub record Database (F : Type 0) : Type 0 where
  pub runs : List RunRow
  pub test_identities : List IdentityRow
  pub identity_aliases : List (AliasEdge F)
  pub executions : List ExecutionRow
  pub diff_files : List DiffFileRow
  pub diff_hunks : List DiffHunkRow
  pub parse_warnings : List WarningRow

-- The first row that a query matches.
abbrev pub fetch_one : {R : Type 0} → (R → Bool) → List R → Option R
fetch_one p [] = none
fetch_one p (r ∷ rows) = if p r then some r else fetch_one p rows

-- The id that an `INTEGER PRIMARY KEY` gets: one more than the largest.
abbrev pub next_id : {R : Type 0} → (R → ℕ) → List R → ℕ
next_id id [] = 1
next_id id (r ∷ rows) = max (id r + 1) (next_id id rows)

-- `_identity_from_row`
abbrev pub identity_from_row : IdentityRow → TestIdentity
identity_from_row r = record {
  fingerprint = r.fingerprint;
  suite_path = r.suite_path;
  test_name = r.test_name;
  parameters = r.parameters;
  file_path = r.file_path;
}

abbrev pub joined : ExecutionRow → RunRow → ExecutionRecord
joined e r = record {
  execution_id = e.id;
  identity_id = e.identity_id;
  outcome = e.outcome;
  duration_ms = e.duration_ms;
  failure_type = e.failure_type;
  failure_message = e.failure_message;
  stack_trace = e.stack_trace;
  rerun_observed = e.rerun_observed;
  run_id = r.run_id;
  attempt = r.attempt;
  commit_sha = r.commit_sha;
  branch = r.branch;
  shard_id = r.shard_id;
  started_at = r.started_at;
}

-- A row of `executions e JOIN runs r ON r.id = e.run_pk`, if the run is there.
abbrev pub join_run : List RunRow → ExecutionRow → List ExecutionRecord → List ExecutionRecord
join_run runs e rest = elim (fetch_one (λ r. r.id == e.run_pk) runs) [
  | none ↦ rest
  | some r ↦ joined e r ∷ rest
]

unfoldable pub join_runs : List RunRow → List ExecutionRow → List ExecutionRecord
join_runs runs [] = []
join_runs runs (e ∷ es) = join_run runs e (join_runs runs es)
