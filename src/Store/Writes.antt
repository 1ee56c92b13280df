-- ===== src/Store/Writes.antt =====
-- store/repositories.py: the operations that write. A failed `FOREIGN KEY`, or an integer that
-- SQLite can not bind, rolls the transaction back and raises, which is none.
pub mod Known
pub mod Repeated
pub mod Keys
use netflix_flaky_test_triag.Base.{
  ℕ, ◌+◌, ◌-◌, Bool, true, false, ◌&&◌, Option, none, some, List, [], ◌∷◌, ◌++◌, Text, ◌||◌,
  is_empty, any, all, not, leb, length, ◌==◌, or_else, if◌then◌else◌, ◌>>=◌,
}
use netflix_flaky_test_triag.Runtime.{Runtime}
use netflix_flaky_test_triag.Models.Records.{
  TestIdentity, TestCaseResult, RunMetadata, ParseWarning,
}
use netflix_flaky_test_triag.Models.Diff.{FileChange}
use netflix_flaky_test_triag.Store.Aliases.{has_edge, upsert_alias}
use netflix_flaky_test_triag.Store.Tables.{RunRow, IdentityRow, Side, Database, fetch_one, next_id}
use netflix_flaky_test_triag.Store.Rows.{
  is_run, has_fingerprint, is_execution, is_diff_file, refresh, new_identity, new_execution,
  hunk_rows, prepend_warnings,
}

-- An integer that SQLite can bind, of 64 bits with a sign.
unfoldable pub fits : ℕ → Bool
fits n = leb n 0x7fff_ffff_ffff_ffff

unfoldable pub fits_duration : Option ℕ → Bool
unfolding fits
fits_duration none = true
fits_duration (some ms) = fits ms

-- The line numbers of a change.
unfoldable pub fits_ranges : FileChange → Bool
unfolding fits
fits_ranges c = all (λ r. fits r.start && fits r.end) (c.new_ranges ++ c.old_ranges)

-- The references between the tables.
abbrev pub has_run : {F : Type 0} → Database F → ℕ → Bool
has_run db run_pk = any (λ r. r.id == run_pk) db.runs

abbrev pub has_identity : {F : Type 0} → Database F → ℕ → Bool
has_identity db id = any (λ r. r.id == id) db.test_identities

module _ {F : Type 0} where
  -- The insert of `record_run`, unless the key is there.
  unfoldable pub insert_run : Runtime F → Text → RunMetadata → List RunRow → List RunRow
  insert_run rt now m runs =
      let shard_id = or_else m.shard_id [] in
      if any (is_run m.run_id m.attempt shard_id) runs
      then runs
      else record {
        id = next_id (λ r. r.id) runs;
        run_id = m.run_id;
        attempt = m.attempt;
        commit_sha = m.commit_sha;
        branch = or_else m.branch [];
        shard_id = shard_id;
        worker_id = or_else m.worker_id [];
        started_at = rt.iso_format m.started_at;
        ingested_at = now;
      }
        ∷ runs

  -- `RunStore.record_run`
  unfoldable pub record_run : Runtime F → Text → RunMetadata → Database F → Option (Database F × ℕ)
  unfolding insert_run fits
  record_run rt now m db =
      if fits m.attempt
      then (do
        let runs = insert_run rt now m db.runs
        row ← fetch_one (is_run m.run_id m.attempt (or_else m.shard_id [])) runs
        some (record db { runs = runs }, row.id))
      else none

  unfoldable pub upsert_found :
      Text → TestIdentity → Option IdentityRow → Database F → Database F × (ℕ × Bool)
  unfolding refresh new_identity
  upsert_found now i (some row) db = (
    record db { test_identities = refresh now i.file_path row.id db.test_identities },
    (row.id, false),
  )
  upsert_found now i none db =
      let row = new_identity now i db.test_identities in
      (record db { test_identities = row ∷ db.test_identities }, (row.id, true))

  -- `RunStore.upsert_identity`
  unfoldable pub upsert_identity : Text → TestIdentity → Database F → Database F × (ℕ × Bool)
  unfolding upsert_found
  upsert_identity now i db =
      upsert_found now i (fetch_one (has_fingerprint i.fingerprint) db.test_identities) db

  -- The insert of `record_executions`, with the number of rows inserted.
  unfoldable pub insert_execution :
      Text → ℕ → ℕ → TestCaseResult → Database F → Option (Database F × ℕ)
  unfolding new_execution fits_duration
  insert_execution now run_pk identity_id case db =
      if not (fits_duration case.duration_ms)
      then none
      else if any (is_execution run_pk identity_id) db.executions
      then some (db, 0)
      else if has_run db run_pk && has_identity db identity_id
      then some (
        record db {
          executions = new_execution now run_pk identity_id case db.executions ∷ db.executions;
        },
        1,
      )
      else none

  -- The loop of `record_executions`.
  unfoldable pub insert_executions :
      Text → ℕ → List (ℕ × TestCaseResult) → Database F → Option (Database F × ℕ)
  unfolding insert_execution
  insert_executions now run_pk [] db = some (db, 0)
  insert_executions now run_pk ((identity_id, case) ∷ rows) db = do
    (next, one) ← insert_execution now run_pk identity_id case db
    (last, more) ← insert_executions now run_pk rows next
    some (last, one + more)

  -- `RunStore.record_executions`
  unfoldable pub record_executions :
      Text → ℕ → List (ℕ × TestCaseResult) → Database F → Option (Database F × (ℕ × ℕ))
  unfolding insert_executions
  record_executions now run_pk rows db = do
    (next, inserted) ← insert_executions now run_pk rows db
    some (next, (inserted, length rows - inserted))

  -- The insert of `record_diff`, with the ranges of the file.
  unfoldable pub add_diff_file : ℕ → FileChange → Database F → Database F
  add_diff_file run_pk c db =
      let id = next_id (λ r. r.id) db.diff_files in
      record db {
        diff_files =
            record {
              id = id;
              run_pk = run_pk;
              path = c.path;
              old_path = c.old_path;
              change_type = c.change_type;
              binary = c.binary;
            }
            ∷ db.diff_files;
        diff_hunks =
            hunk_rows id Side.new c.new_ranges
            ++ hunk_rows id Side.old c.old_ranges
            ++ db.diff_hunks;
      }

  -- One turn of the loop of `record_diff`.
  unfoldable pub insert_diff_file : ℕ → FileChange → Database F → Option (Database F)
  unfolding add_diff_file fits_ranges
  insert_diff_file run_pk c db =
      if any (is_diff_file run_pk c.path) db.diff_files
      then some db
      else if has_run db run_pk && fits_ranges c
      then some (add_diff_file run_pk c db)
      else none

  unfoldable pub insert_diff_files : ℕ → List FileChange → Database F → Option (Database F)
  unfolding insert_diff_file
  insert_diff_files run_pk [] db = some db
  insert_diff_files run_pk (c ∷ cs) db = do
    next ← insert_diff_file run_pk c db
    insert_diff_files run_pk cs next

  -- `RunStore.record_diff`
  unfoldable pub record_diff : ℕ → List FileChange → Database F → Option (Database F × ℕ)
  unfolding insert_diff_files
  record_diff run_pk files db = do
    next ← insert_diff_files run_pk files db
    some (next, length files)

  abbrev pub refers_to_run : Database F → Option ℕ → Bool
  refers_to_run db none = true
  refers_to_run db (some run_pk) = has_run db run_pk

  -- `RunStore.record_warnings`
  unfoldable pub record_warnings :
      Text → Option ℕ → List ParseWarning → Database F → Option (Database F × ℕ)
  record_warnings now run_pk ws db =
      if refers_to_run db run_pk || is_empty ws
      then some (
        record db { parse_warnings = prepend_warnings now run_pk ws db.parse_warnings },
        length ws,
      )
      else none

  -- `RunStore.record_alias`, in a store with these references; a new edge needs them.
  unfoldable pub record_alias :
      (F → F → F) → ℕ → ℕ → F → Bool → Option ℕ → Database F → Option (Database F × Bool)
  record_alias max_of old new similarity certain run_pk db =
      let (edges, created) = upsert_alias max_of old new similarity certain db.identity_aliases in
      if has_edge old new db.identity_aliases
        || (has_identity db old && has_identity db new && refers_to_run db run_pk)
      then some (record db { identity_aliases = edges }, created)
      else none
