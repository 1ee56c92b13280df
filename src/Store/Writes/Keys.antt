-- ===== src/Store/Writes/Keys.antt =====
-- store/schema.py: the unique keys and the references between the tables, as an invariant, and the
-- writes of a store as steps.
pub mod Fresh
pub mod Kept
pub mod Steps
use netflix_flaky_test_triag.Base.{
  ℕ, ◌≡◌, Bool, true, false, Option, some, List, [], ◌∷◌, Text, any, All, ◌==◌, ◌>>=◌,
}
use netflix_flaky_test_triag.Runtime.{Runtime}
use netflix_flaky_test_triag.Models.Records.{
  TestIdentity, TestCaseResult, RunMetadata, ParseWarning,
}
use netflix_flaky_test_triag.Models.Diff.{FileChange}
use netflix_flaky_test_triag.Store.Tables.{RunRow, IdentityRow, ExecutionRow, DiffFileRow, Database}
use netflix_flaky_test_triag.Store.Rows.{is_run, has_fingerprint, is_execution, is_diff_file}
use netflix_flaky_test_triag.Store.Writes.{
  has_run, has_identity, record_alias, record_run, upsert_identity, record_executions, record_diff,
  record_warnings,
}

-- No two rows of a table have the same key.
abbrev pub Unique : {R : Type 0} → (R → R → Bool) → List R → Type 0
Unique same [] = Unit
Unique same (x ∷ xs) = (any (same x) xs ≡ false) × Unique same xs

abbrev pub same_run : RunRow → RunRow → Bool
same_run a = is_run a.run_id a.attempt a.shard_id

abbrev pub same_fingerprint : IdentityRow → IdentityRow → Bool
same_fingerprint a = has_fingerprint a.fingerprint

abbrev pub same_execution : ExecutionRow → ExecutionRow → Bool
same_execution a = is_execution a.run_pk a.identity_id

abbrev pub same_diff_file : DiffFileRow → DiffFileRow → Bool
same_diff_file a = is_diff_file a.run_pk a.path

abbrev pub RefersToBoth : List RunRow → List IdentityRow → ExecutionRow → Type 0
RefersToBoth runs identities e =
    (any (λ r. r.id == e.run_pk) runs ≡ true) × (any (λ i. i.id == e.identity_id) identities ≡ true)

abbrev pub RefersToRun : List RunRow → DiffFileRow → Type 0
RefersToRun runs d = any (λ r. r.id == d.run_pk) runs ≡ true

-- What the constraints of the schema promise.
pub record HasKeys {F : Type 0} (db : Database F) : Type 0 where
  pub run_keys : Unique same_run db.runs
  pub run_ids : Unique (λ a b. b.id == a.id) db.runs
  pub fingerprints : Unique same_fingerprint db.test_identities
  pub identity_ids : Unique (λ a b. b.id == a.id) db.test_identities
  pub execution_keys : Unique same_execution db.executions
  pub execution_refs : All (RefersToBoth db.runs db.test_identities) db.executions
  pub diff_keys : Unique same_diff_file db.diff_files
  pub diff_refs : All (RefersToRun db.runs) db.diff_files

-- A write, with its arguments.
pub data Write (F : Type 0) : Type 0 where
  run : Text → RunMetadata → Write F
  identity : Text → TestIdentity → Write F
  executions : Text → ℕ → List (ℕ × TestCaseResult) → Write F
  diff : ℕ → List FileChange → Write F
  warnings : Text → Option ℕ → List ParseWarning → Write F
  alias : ℕ → ℕ → F → Bool → Option ℕ → Write F

abbrev pub empty_database : {F : Type 0} → Database F
empty_database = record {
  runs = [];
  test_identities = [];
  identity_aliases = [];
  executions = [];
  diff_files = [];
  diff_hunks = [];
  parse_warnings = [];
}

-- The tables after a result.
abbrev pub tables : {F A : Type 0} → Option (Database F × A) → Option (Database F)
tables o = o >>= λ p. some p.0

module _ {F : Type 0} (rt : Runtime F) (max_of : F → F → F) where
  abbrev pub perform : Write F → Database F → Option (Database F)
  perform (Write.run now m) db = tables (record_run rt now m db)
  perform (Write.identity now i) db = some (upsert_identity now i db).0
  perform (Write.executions now run_pk rows) db = tables (record_executions now run_pk rows db)
  perform (Write.diff run_pk files) db = tables (record_diff run_pk files db)
  perform (Write.warnings now run_pk ws) db = tables (record_warnings now run_pk ws db)
  perform (Write.alias old new similarity certain run_pk) db =
      tables (record_alias max_of old new similarity certain run_pk db)

  -- The stores that writes make out of an empty one.
  pub data Written : Database F → Type 0 where
    start : Written empty_database
    then_write :
        (w : Write F) {db next : Database F} → Written db → perform w db ≡ some next → Written next
