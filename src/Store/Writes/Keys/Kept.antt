-- ===== src/Store/Writes/Keys/Kept.antt =====
-- store/repositories.py and store/schema.py: every write keeps the keys and the references.
use mathlib.Core.Path.{subst}
use netflix_flaky_test_triag.Base.{
  ℕ, ◌≡◌, refl, ap, ◌∙◌, sym, ◌>>=◌, Bool, false, ◌&&◌, Option, none, some, List, [], ◌∷◌, Text,
  any, All_weaken, arith, ◌==◌, Bool-cases, bind-eq-some, some_unique, inl, inr, or_else,
  &&-eq_true,
}
use netflix_flaky_test_triag.Runtime.{Runtime}
use netflix_flaky_test_triag.Models.Records.{TestIdentity, TestCaseResult, RunMetadata}
use netflix_flaky_test_triag.Store.Tables.{IdentityRow, Database, fetch_one}
use netflix_flaky_test_triag.Store.Rows.{
  is_run, has_fingerprint, is_execution, new_identity, new_execution,
}
use netflix_flaky_test_triag.Store.Writes.{
  has_run, has_identity, insert_run, record_run, upsert_found, insert_execution, insert_executions,
}
use netflix_flaky_test_triag.Store.Writes.Repeated.{record_run-fits, insert_execution-fits}
use netflix_flaky_test_triag.Store.Writes.Keys.{
  same_fingerprint, RefersToBoth, RefersToRun, HasKeys,
}
use netflix_flaky_test_triag.Store.Writes.Keys.Fresh.{next_id_fresh, any-refresh, Unique-refresh}

fetch_one-none :
    {R : Type 0} (p : R → Bool) (rows : List R) → fetch_one p rows ≡ none → any p rows ≡ false
fetch_one-none p [] e = refl
fetch_one-none p (r ∷ rows) e = ground (arith, e, fetch_one-none p rows)

module _ {F : Type 0} where
  insert_run-HasKeys :
      (rt : Runtime F) (now : Text) (m : RunMetadata) (db : Database F)
      → HasKeys db
      → HasKeys (record db { runs = insert_run rt now m db.runs })
  unfolding insert_run
  insert_run-HasKeys rt now m db k =
      elim (Bool-cases (any (is_run m.run_id m.attempt (or_else m.shard_id [])) db.runs)) [
        | inl e ↦ rw e k
        | inr e ↦
            let fresh = next_id_fresh (λ r. r.id) db.runs in
            rw e (record {
              run_keys = (e, k.run_keys);
              run_ids = (fresh, k.run_ids);
              fingerprints = k.fingerprints;
              identity_ids = k.identity_ids;
              execution_keys = k.execution_keys;
              execution_refs =
                  All_weaken (RefersToBoth db.runs db.test_identities) _ db.executions
                    (λ x (r, i). (rw r (ground arith), i)) k.execution_refs;
              diff_keys = k.diff_keys;
              diff_refs =
                  All_weaken (RefersToRun db.runs) _ db.diff_files (λ x r. rw r (ground arith))
                    k.diff_refs;
            })
      ]

  pub record_run-HasKeys :
      (rt : Runtime F) (now : Text) (m : RunMetadata) (db next : Database F) {pk : ℕ}
      → record_run rt now m db ≡ some (next, pk)
      → HasKeys db
      → HasKeys next
  unfolding record_run
  record_run-HasKeys rt now m db next e k =
      let runs = insert_run rt now m db.runs in
      let found = fetch_one (is_run m.run_id m.attempt (or_else m.shard_id [])) runs in
      let opened : record_run rt now m db
          ≡ (found >>= λ row. some (record db { runs = runs }, row.id)) =
        rw (record_run-fits rt now m db (next, _) e) refl in
      let (row, f, g) =
        bind-eq-some found (λ row. some (record db { runs = runs }, row.id)) (sym opened ∙ e) in
      subst HasKeys (ap (λ p. p.0) (some_unique refl g)) (insert_run-HasKeys rt now m db k)

  pub upsert_found-HasKeys :
      (now : Text) (i : TestIdentity) (o : Option IdentityRow) (db : Database F)
      → fetch_one (has_fingerprint i.fingerprint) db.test_identities ≡ o
      → HasKeys db
      → HasKeys (upsert_found now i o db).0
  unfolding upsert_found new_identity
  upsert_found-HasKeys now i none db e k = record {
    run_keys = k.run_keys;
    run_ids = k.run_ids;
    fingerprints = (fetch_one-none _ db.test_identities e, k.fingerprints);
    identity_ids = (next_id_fresh (λ r. r.id) db.test_identities, k.identity_ids);
    execution_keys = k.execution_keys;
    execution_refs =
        All_weaken (RefersToBoth db.runs db.test_identities) _ db.executions
          (λ x (r, i). (r, rw i (ground arith))) k.execution_refs;
    diff_keys = k.diff_keys;
    diff_refs = k.diff_refs;
  }
  upsert_found-HasKeys now i (some row) db e k = record {
    run_keys = k.run_keys;
    run_ids = k.run_ids;
    fingerprints =
        Unique-refresh same_fingerprint (λ a b n q. refl) (λ a b n q. refl) now i.file_path row.id
          db.test_identities k.fingerprints;
    identity_ids =
        Unique-refresh (λ a b. b.id == a.id) (λ a b n q. refl) (λ a b n q. refl) now i.file_path
          row.id db.test_identities k.identity_ids;
    execution_keys = k.execution_keys;
    execution_refs =
        All_weaken (RefersToBoth db.runs db.test_identities) _ db.executions
          (λ x (r, h). (
            r,
            any-refresh (λ y. y.id == x.identity_id) (λ y n q. refl) now i.file_path row.id
                  db.test_identities
                ∙ h,
          ))
          k.execution_refs;
    diff_keys = k.diff_keys;
    diff_refs = k.diff_refs;
  }

  insert_execution-HasKeys :
      (now : Text) (run_pk id : ℕ) (case : TestCaseResult) (db next : Database F) {n : ℕ}
      → insert_execution now run_pk id case db ≡ some (next, n)
      → HasKeys db
      → HasKeys next
  unfolding insert_execution new_execution
  insert_execution-HasKeys now run_pk id case db next e k =
      let small = insert_execution-fits now run_pk id case db (next, _) e in
      elim (Bool-cases (any (is_execution run_pk id) db.executions)) [
        | inl h ↦
            let made : insert_execution now run_pk id case db ≡ some (db, 0) = rw (small, h) refl in
            subst HasKeys (ap (λ p. p.0) (some_unique made e)) k
        | inr h ↦ elim (Bool-cases (has_run db run_pk && has_identity db id)) [
          | inl both ↦
              let after : Database F = record db {
                executions = new_execution now run_pk id case db.executions ∷ db.executions;
              } in
              let made : insert_execution now run_pk id case db ≡ some (after, 1) =
                rw (small, h, both) refl in
              let added : HasKeys after = record {
                run_keys = k.run_keys;
                run_ids = k.run_ids;
                fingerprints = k.fingerprints;
                identity_ids = k.identity_ids;
                execution_keys = (h, k.execution_keys);
                execution_refs = (&&-eq_true _ _ both, k.execution_refs);
                diff_keys = k.diff_keys;
                diff_refs = k.diff_refs;
              } in
              subst HasKeys (ap (λ p. p.0) (some_unique made e)) added
          | inr missing ↦
              let none_made : insert_execution now run_pk id case db ≡ none =
                rw (small, h, missing) refl in
              cc (none_made, e)
        ]
      ]

  pub insert_executions-HasKeys :
      (now : Text) (run_pk : ℕ) (rows : List (ℕ × TestCaseResult)) (db next : Database F) {n : ℕ}
      → insert_executions now run_pk rows db ≡ some (next, n)
      → HasKeys db
      → HasKeys next
  unfolding insert_executions
  insert_executions-HasKeys now run_pk [] db next e k =
      subst HasKeys (ap (λ p. p.0) (some_unique refl e)) k
  insert_executions-HasKeys now run_pk ((id, case) ∷ rows) db next e k =
      let (mid, f, g) = bind-eq-some (insert_execution now run_pk id case db) _ e in
      let (last, f', g') = bind-eq-some (insert_executions now run_pk rows mid.0) _ g in
      subst HasKeys (ap (λ p. p.0) (some_unique refl g')) (
        insert_executions-HasKeys now run_pk rows mid.0 last.0 f'
          (insert_execution-HasKeys now run_pk id case db mid.0 f k))
