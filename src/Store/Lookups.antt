-- ===== src/Store/Lookups.antt =====
-- store/repositories.py: the queries on the tables that ingestion and the command line use.
use netflix_flaky_test_triag.Base.{
  ℕ, Bool, false, Option, none, some, List, [], ◌∷◌, map, reverse, Text, text_eq, text_leb, keep,
  length, leb, ◌==◌, ◌&&◌, not, if◌then◌else◌, sort_by, ◌>>=◌,
}
use netflix_flaky_test_triag.Models.Enums.{is_failure}
use netflix_flaky_test_triag.Models.Records.{TestIdentity, ParseWarning}
use netflix_flaky_test_triag.Store.Aliases.{has_id}
use netflix_flaky_test_triag.Store.Execution.{ExecutionRecord}
use netflix_flaky_test_triag.Store.Reads.{RunStore}
use netflix_flaky_test_triag.Store.Rows.{has_fingerprint}
use netflix_flaky_test_triag.Store.Tables.{
  RunRow, IdentityRow, DiffFileRow, WarningRow, Database, fetch_one, identity_from_row, join_runs,
}

-- `SELECT DISTINCT`: an id that comes later is left out.
abbrev pub distinct : List ℕ → List ℕ
distinct [] = []
distinct (id ∷ ids) = let rest = distinct ids in if has_id id rest then rest else id ∷ rest

-- `MAX(started_at)` over the executions of an identity in runs that started before a time.
abbrev pub later : Option Text → Text → Text
later none t = t
later (some s) t = if text_leb s t then t else s

unfoldable pub last_started : Text → ℕ → List ExecutionRecord → Option Text
last_started before id [] = none
last_started before id (e ∷ es) =
    let rest = last_started before id es in
    if e.identity_id == id && not (text_leb before e.started_at)
    then some (later rest e.started_at)
    else rest

-- A group of `identities_before_run`: when it ran last, and its identity.
pub record Earlier : Type 0 where
  pub last : Text
  pub id : ℕ
  pub identity : TestIdentity

-- `ORDER BY last_started DESC, i.id`
unfoldable pub earlier_leb : Earlier → Earlier → Bool
earlier_leb a b = if text_eq a.last b.last then leb a.id b.id else text_leb b.last a.last

abbrev pub earlier_row : Option Text → IdentityRow → List Earlier → List Earlier
earlier_row none r rest = rest
earlier_row (some last) r rest =
    record { last = last; id = r.id; identity = identity_from_row r } ∷ rest

unfoldable pub earlier_rows : Text → List ExecutionRecord → List IdentityRow → List Earlier
unfolding last_started
earlier_rows before es [] = []
earlier_rows before es (r ∷ rows) =
    earlier_row (last_started before r.id es) r (earlier_rows before es rows)

abbrev pub all_earlier : Option RunRow → List ExecutionRecord → List IdentityRow → List Earlier
all_earlier none es rows = []
all_earlier (some run) es rows = earlier_rows run.started_at es rows

-- The warnings of one run, from the newest to the oldest.
abbrev pub is_warning_of : ℕ → WarningRow → Bool
is_warning_of run_pk w = elim w.run_pk [ none ↦ false | some k ↦ k == run_pk ]

module _ {F : Type 0} (db : Database F) where
  -- `identity_ids_for_run`
  unfoldable pub identity_ids_for_run : ℕ → List ℕ
  identity_ids_for_run run_pk =
      sort_by leb
        (distinct (map (λ e. e.identity_id) (keep (λ e. e.run_pk == run_pk) db.executions)))

  -- `identities_before_run`; without the run, the comparison with NULL keeps no row.
  unfoldable pub identities_before_run : ℕ → List (ℕ × TestIdentity)
  unfolding earlier_leb earlier_rows
  identities_before_run run_pk =
      map (λ e. (e.id, e.identity))
        (sort_by earlier_leb (
          all_earlier (fetch_one (λ r. r.id == run_pk) db.runs) (join_runs db.runs db.executions)
            db.test_identities))

  -- `identity_by_fingerprint`
  unfoldable pub identity_by_fingerprint : Text → Option TestIdentity
  identity_by_fingerprint value = do
    row ← fetch_one (has_fingerprint value) db.test_identities
    some (identity_from_row row)

  -- `identity_id_by_fingerprint`
  unfoldable pub identity_id_by_fingerprint : Text → Option ℕ
  identity_id_by_fingerprint value = do
    row ← fetch_one (has_fingerprint value) db.test_identities
    some row.id

  -- `count_identities`
  unfoldable pub count_identities : ℕ
  count_identities = length db.test_identities

  -- `count_executions`
  unfoldable pub count_executions : ℕ
  count_executions = length db.executions

  -- `executions_for_run`
  unfoldable pub executions_for_run : ℕ → List ExecutionRecord
  executions_for_run run_pk =
      sort_by (λ a b. leb a.execution_id b.execution_id)
        (join_runs db.runs (keep (λ e. e.run_pk == run_pk) db.executions))

  -- `failing_identities_at_sha`
  unfoldable pub failing_identities_at_sha : Text → List ℕ
  failing_identities_at_sha sha = sort_by leb (
      distinct (
        map (λ e. e.identity_id)
          (keep (λ e. text_eq e.commit_sha sha && is_failure e.outcome)
            (join_runs db.runs db.executions))))

  -- `warnings_for_run`
  unfoldable pub warnings_for_run : ℕ → List ParseWarning
  warnings_for_run run_pk =
      reverse (map (λ w. w.warning) (keep (is_warning_of run_pk) db.parse_warnings))

  -- `d.path` with the commit of its run, over `diff_files d JOIN runs r`.
  abbrev pub diff_row : DiffFileRow → List (Text × Text) → List (Text × Text)
  diff_row d rest = elim (fetch_one (λ r. r.id == d.run_pk) db.runs) [
    | none ↦ rest
    | some r ↦ (r.commit_sha, d.path) ∷ rest
  ]

  abbrev pub diff_rows : List DiffFileRow → List (Text × Text)
  diff_rows [] = []
  diff_rows (d ∷ ds) = diff_row d (diff_rows ds)

  -- What the other queries see of the tables.
  unfoldable pub joined_view : RunStore F
  joined_view = record {
    test_identities = map (λ r. (r.id, identity_from_row r)) db.test_identities;
    executions = join_runs db.runs db.executions;
    identity_aliases = db.identity_aliases;
    diff_files = diff_rows db.diff_files;
  }
