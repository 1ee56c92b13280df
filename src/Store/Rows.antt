-- ===== src/Store/Rows.antt =====
-- store/repositories.py and store/schema.py: the unique keys, and the rows that are written.
use netflix_flaky_test_triag.Base.{
  ℕ, Bool, ◌&&◌, Option, none, some, List, [], ◌∷◌, Text, text_eq, map, ◌==◌, if◌then◌else◌,
}
use netflix_flaky_test_triag.Models.Records.{TestIdentity, TestCaseResult, ParseWarning}
use netflix_flaky_test_triag.Models.Diff.{LineRange}
use netflix_flaky_test_triag.Store.Tables.{
  RunRow, IdentityRow, ExecutionRow, DiffFileRow, Side, DiffHunkRow, WarningRow, next_id,
}

-- The unique keys of the schema.
abbrev pub is_run : Text → ℕ → Text → RunRow → Bool
is_run run_id attempt shard_id r =
    text_eq r.run_id run_id && (r.attempt == attempt && text_eq r.shard_id shard_id)

abbrev pub has_fingerprint : Text → IdentityRow → Bool
has_fingerprint fingerprint r = text_eq r.fingerprint fingerprint

abbrev pub is_execution : ℕ → ℕ → ExecutionRow → Bool
is_execution run_pk identity_id r = r.run_pk == run_pk && r.identity_id == identity_id

abbrev pub is_diff_file : ℕ → Text → DiffFileRow → Bool
is_diff_file run_pk path r = r.run_pk == run_pk && text_eq r.path path

-- `COALESCE(?, file_path)`
abbrev pub coalesce : Option Text → Option Text → Option Text
coalesce none known = known
coalesce (some path) known = some path

-- The update of `upsert_identity`.
unfoldable pub refresh : Text → Option Text → ℕ → List IdentityRow → List IdentityRow
refresh now file_path id [] = []
refresh now file_path id (r ∷ rows) =
    (if r.id == id
      then record r { last_seen = now; file_path = coalesce file_path r.file_path }
      else r)
    ∷ refresh now file_path id rows

-- The insert of `upsert_identity`.
unfoldable pub new_identity : Text → TestIdentity → List IdentityRow → IdentityRow
new_identity now i rows = record {
  id = next_id (λ r. r.id) rows;
  fingerprint = i.fingerprint;
  suite_path = i.suite_path;
  test_name = i.test_name;
  parameters = i.parameters;
  file_path = i.file_path;
  first_seen = now;
  last_seen = now;
}

-- The row of `record_executions` for one case.
unfoldable pub new_execution : Text → ℕ → ℕ → TestCaseResult → List ExecutionRow → ExecutionRow
new_execution now run_pk identity_id case rows = record {
  id = next_id (λ r. r.id) rows;
  run_pk = run_pk;
  identity_id = identity_id;
  outcome = case.outcome;
  duration_ms = case.duration_ms;
  failure_type = case.failure_type;
  failure_message = case.failure_message;
  stack_trace = case.stack_trace;
  stdout = case.stdout;
  stderr = case.stderr;
  rerun_observed = case.rerun_observed;
  source_file = case.source_file;
  created_at = now;
}

-- The rows of `diff_hunks` for one side of a file.
abbrev pub hunk_rows : ℕ → Side → List LineRange → List DiffHunkRow
hunk_rows id side =
    map (λ r. record { diff_file_id = id; side = side; start_line = r.start; end_line = r.end })

abbrev pub prepend_warnings :
    Text → Option ℕ → List ParseWarning → List WarningRow → List WarningRow
prepend_warnings now run_pk [] rows = rows
prepend_warnings now run_pk (w ∷ ws) rows =
    prepend_warnings now run_pk ws
      (record { run_pk = run_pk; warning = w; created_at = now } ∷ rows)
