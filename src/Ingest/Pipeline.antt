-- ===== src/Ingest/Pipeline.antt =====
-- ingest/pipeline.py: one ingest, from the parsed cases to the tables. A failed write raises, which
-- is none.
pub mod Identities
pub mod Steps
pub mod Total
pub mod Again
use netflix_flaky_test_triag.Base.{
  ℕ, ◌+◌, Bool, true, false, Option, none, some, List, [], ◌∷◌, ◌++◌, Text, is_empty, length,
  if◌then◌else◌, ◌>>=◌,
}
use netflix_flaky_test_triag.Runtime.{Runtime}
use netflix_flaky_test_triag.Config.{IdentityConfig}
use netflix_flaky_test_triag.Models.Records.{
  TestIdentity, TestCaseResult, RunMetadata, ParseWarning,
}
use netflix_flaky_test_triag.Models.Diff.{FileChange}
use netflix_flaky_test_triag.Identity.Fingerprint.{CaseNames, identity_for}
use netflix_flaky_test_triag.Identity.Alias.{AliasCandidate}
use netflix_flaky_test_triag.Identity.Reconcile.{recorded, uncertain, reconcile_renames}
use netflix_flaky_test_triag.Store.Tables.{Database}
use netflix_flaky_test_triag.Store.Writes.{
  record_run, upsert_identity, record_executions, record_diff, record_warnings,
}
use netflix_flaky_test_triag.Ingest.Junit.{JunitParseResult}

-- `IngestSummary`
pub record IngestSummary : Type 0 where
  pub run_pk : ℕ
  pub cases_ingested : ℕ
  pub cases_skipped_duplicate : ℕ
  pub new_identities : ℕ
  pub diff_files : ℕ
  pub warnings : List ParseWarning
  pub aliases_recorded : ℕ
  pub uncertain_aliases : ℕ

-- The arguments of `ingest` besides the store, with the report files already parsed.
pub record IngestInput : Type 0 where
  pub metadata : RunMetadata
  pub parsed : JunitParseResult
  pub diff : Option (List FileChange)
  pub extra_warnings : List ParseWarning

abbrev pub names_of : TestCaseResult → CaseNames
names_of c = record {
  name = c.name;
  classname = c.classname;
  suite_path = c.suite_path;
  file_path = c.file_path;
}

-- The state of the loop over the cases: the tables, the rows and the number of new identities.
pub record Resolved (F : Type 0) : Type 0 where
  pub db : Database F
  pub rows : List (ℕ × TestCaseResult)
  pub new_identities : ℕ

abbrev pub one_if_created : Bool → ℕ
one_if_created true = 1
one_if_created false = 0

module _ {F : Type 0} where
  -- The summary that `ingest` returns.
  abbrev pub summary_of :
      ℕ → ℕ × ℕ → ℕ → ℕ → List ParseWarning → List (AliasCandidate F) → IngestSummary
  summary_of run_pk (inserted, skipped) new_identities diff_files warnings aliases = record {
    run_pk = run_pk;
    cases_ingested = inserted;
    cases_skipped_duplicate = skipped;
    new_identities = new_identities;
    diff_files = diff_files;
    warnings = warnings;
    aliases_recorded = recorded aliases;
    uncertain_aliases = uncertain aliases;
  }

  -- `store.record_diff(run_pk, diff) if diff is not None else 0`
  unfoldable pub diff_step : ℕ → Option (List FileChange) → Database F → Option (Database F × ℕ)
  diff_step run_pk none db = some (db, 0)
  diff_step run_pk (some files) db = record_diff run_pk files db

  unfoldable pub warnings_step : Text → ℕ → List ParseWarning → Database F → Option (Database F × ℕ)
  warnings_step now run_pk warnings db =
      if is_empty warnings then some (db, 0) else record_warnings now (some run_pk) warnings db

-- `clock k` is what the clock shows at the k-th write of an ingest.
module _ {F : Type 0} (rt : Runtime F) (clock : ℕ → Text) where
  -- The loop over the cases.
  unfoldable pub resolve : ℕ → List TestCaseResult → Database F → Resolved F
  resolve k [] db = record { db = db; rows = []; new_identities = 0 }
  resolve k (case ∷ cases) db =
      let (next, (id, created)) = upsert_identity (clock k) (identity_for rt (names_of case)) db in
      let rest = resolve (k + 1) cases next in
      record {
        db = rest.db;
        rows = (id, case) ∷ rest.rows;
        new_identities = one_if_created created + rest.new_identities;
      }

  -- The rest of `ingest`, after the executions are recorded.
  unfoldable pub finish_ingest :
      IdentityConfig F
      → IngestInput
      → ℕ
      → ℕ × ℕ
      → ℕ
      → Database F
      → Option (Database F × IngestSummary)
  unfolding diff_step warnings_step
  finish_ingest config input run_pk (inserted, skipped) new_identities db = do
    let (db_aliases, aliases) = reconcile_renames rt config run_pk db
    (db_diff, diff_files) ← diff_step run_pk input.diff db_aliases
    let warnings = input.parsed.warnings ++ input.extra_warnings
    (db_warnings, n) ← warnings_step (clock (length input.parsed.cases + 2)) run_pk warnings db_diff
    some (
      db_warnings,
      summary_of run_pk (inserted, skipped) new_identities diff_files warnings aliases,
    )

  -- `ingest`
  unfoldable pub ingest :
      IdentityConfig F → IngestInput → Database F → Option (Database F × IngestSummary)
  unfolding resolve finish_ingest
  ingest config input db = do
    (db_run, run_pk) ← record_run rt (clock 0) input.metadata db
    let resolved = resolve 1 input.parsed.cases db_run
    (db_executions, counts) ←
        record_executions (clock (length input.parsed.cases + 1)) run_pk resolved.rows resolved.db
    finish_ingest config input run_pk counts resolved.new_identities db_executions
