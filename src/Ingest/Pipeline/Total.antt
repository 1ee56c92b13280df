-- ===== src/Ingest/Pipeline/Total.antt =====
-- ingest/pipeline.py: an ingest returns, and what the store has then.
use mathlib.Core.Path.{subst}
use netflix_flaky_test_triag.Base.{
  ℕ, ◌+◌, ◌-◌, ◌≡◌, refl, sym, ap, ◌∙◌, true, some, or_else, [], bind-eq-some, All-map, All-unmap,
  List, map, Text, All, All_weaken, any, length, ◌==◌,
}
use netflix_flaky_test_triag.Runtime.{Runtime}
use netflix_flaky_test_triag.Config.{IdentityConfig}
use netflix_flaky_test_triag.Models.Records.{TestCaseResult}
use netflix_flaky_test_triag.Store.Tables.{RunRow, Database, fetch_one}
use netflix_flaky_test_triag.Store.Rows.{is_execution}
use netflix_flaky_test_triag.Store.Writes.{
  fits, has_run, has_identity, insert_run, record_run, insert_executions, record_executions,
}
use netflix_flaky_test_triag.Store.Writes.Known.{id_of, ids-has_identity}
use netflix_flaky_test_triag.Store.Writes.Repeated.{
  is_run_of, record_run-total, IsStored, insert_executions-total, record_run-fits, FitsCase,
  insert_executions-fits,
}
use netflix_flaky_test_triag.Ingest.Pipeline.{
  IngestSummary, IngestInput, resolve, finish_ingest, ingest,
}
use netflix_flaky_test_triag.Ingest.Pipeline.Identities.{
  fingerprint_of, IsKnown, resolve-IsKnown, resolve-cases, resolve-rest,
}
use netflix_flaky_test_triag.Ingest.Pipeline.Steps.{
  KeepsHistory, has_run-kept, FitsChange, finish_ingest-kept, finish_ingest-total,
}

module _ {F : Type 0} (rt : Runtime F) where
  -- A store that has ingested the cases of a run: the run, the rows of the cases with the ids of
  -- their identities, and an execution for each of them.
  pub record HasIngested (input : IngestInput) (run_pk : ℕ) (db : Database F) : Type 0 where
    pub row : RunRow
    pub run_found : fetch_one (is_run_of rt input.metadata) db.runs ≡ some row
    pub run_key : row.id ≡ run_pk
    pub run_there : has_run db run_pk ≡ true
    pub rows : List (ℕ × TestCaseResult)
    pub cases : map (λ r. r.1) rows ≡ input.parsed.cases
    pub known : All (IsKnown rt db) rows
    pub stored : All (IsStored run_pk db) rows

  HasIngested-kept :
      (input : IngestInput) (run_pk : ℕ) (db next : Database F)
      → KeepsHistory db next
      → HasIngested input run_pk db
      → HasIngested input run_pk next
  HasIngested-kept input run_pk db next k h = record {
    row = h.row;
    run_found = ap (fetch_one (is_run_of rt input.metadata)) k.runs ∙ h.run_found;
    run_key = h.run_key;
    run_there = has_run-kept db next run_pk k h.run_there;
    rows = h.rows;
    cases = h.cases;
    known =
        All_weaken (IsKnown rt db) (IsKnown rt next) h.rows
          (λ r known. ap (id_of (fingerprint_of rt r.1)) k.identities ∙ known) h.known;
    stored =
        All_weaken (IsStored run_pk db) (IsStored run_pk next) h.rows
          (λ r there. ap (any (is_execution run_pk r.0)) k.executions ∙ there) h.stored;
  }

module _ {F : Type 0} (rt : Runtime F) (clock : ℕ → Text) (config : IdentityConfig F) where
  -- An ingest up to its executions: what is left of it, and the store that it is left with.
  record Begun (input : IngestInput) (db : Database F) : Type 0 where
    run_pk : ℕ
    counts : ℕ × ℕ
    created : ℕ
    done : Database F
    rest :
        ingest rt clock config input db
        ≡ finish_ingest rt clock config input run_pk counts created done
    there : has_run done run_pk ≡ true
    ingested : HasIngested rt input run_pk done

  ingest-Begun :
      (input : IngestInput) (db : Database F)
      → fits input.metadata.attempt ≡ true
      → All FitsCase input.parsed.cases
      → Begun input db
  unfolding ingest record_executions
  ingest-Begun input db small smalls =
      let m = input.metadata in
      let cases = input.parsed.cases in
      let (row, e, found, there) = record_run-total rt (clock 0) m db small in
      let db_run : Database F = record db { runs = insert_run rt (clock 0) m db.runs } in
      let resolved = resolve rt clock 1 cases db_run in
      let (runs_same, old) = resolve-rest rt clock 1 cases db_run in
      let known = resolve-IsKnown rt clock 1 cases db_run in
      let has = ap (λ rs. any (λ r. r.id == row.id) rs) runs_same ∙ there in
      let (done, n, e', extended, stored) =
        insert_executions-total (clock (length cases + 1)) row.id resolved.rows resolved.db
          (All-unmap (λ r. r.1) FitsCase resolved.rows
            (subst (All FitsCase) (sym (resolve-cases rt clock 1 cases db_run)) smalls))
          has
          (All_weaken (IsKnown rt resolved.db) (λ r. has_identity resolved.db r.0 ≡ true)
            resolved.rows (λ r k. ids-has_identity resolved.db (fingerprint_of rt r.1) k) known) in
      record {
        run_pk = row.id;
        counts = (n, length resolved.rows - n);
        created = resolved.new_identities;
        done = done;
        rest = rw (e, e') refl;
        there = ap (λ rs. any (λ r. r.id == row.id) rs) extended.runs ∙ has;
        ingested = record {
          row = row;
          run_found = ap (fetch_one (is_run_of rt m)) (extended.runs ∙ runs_same) ∙ found;
          run_key = refl;
          run_there = ap (λ rs. any (λ r. r.id == row.id) rs) extended.runs ∙ has;
          rows = resolved.rows;
          cases = resolve-cases rt clock 1 cases db_run;
          known =
              All_weaken (IsKnown rt resolved.db) (IsKnown rt done) resolved.rows
                (λ r k. ap (id_of (fingerprint_of rt r.1)) extended.identities ∙ k) known;
          stored = stored;
        };
      }

  Begun-HasIngested :
      (input : IngestInput) (db : Database F) (r : Database F × IngestSummary)
      → Begun input db
      → ingest rt clock config input db ≡ some r
      → HasIngested rt input r.1.run_pk r.0
  Begun-HasIngested input db r b e =
      let (kept, reports) =
        finish_ingest-kept rt clock config input b.run_pk b.counts b.created b.done r b.there
          (sym b.rest ∙ e) in
      subst (λ pk. HasIngested rt input pk r.0) (sym reports.run_key)
        (HasIngested-kept rt input b.run_pk b.done r.0 kept b.ingested)

  -- An ingest that returns has bound its attempt number and its durations.
  pub ingest-fits :
      (input : IngestInput) (db : Database F) (r : Database F × IngestSummary)
      → ingest rt clock config input db ≡ some r
      → (fits input.metadata.attempt ≡ true) × All FitsCase input.parsed.cases
  unfolding ingest record_executions
  ingest-fits input db r e =
      let cases = input.parsed.cases in
      let (p, f, g) = bind-eq-some (record_run rt (clock 0) input.metadata db) _ e in
      let resolved = resolve rt clock 1 cases p.0 in
      let (q, f', g') =
        bind-eq-some (record_executions (clock (length cases + 1)) p.1 resolved.rows resolved.db) _
          g in
      let (q', f'', g'') =
        bind-eq-some (insert_executions (clock (length cases + 1)) p.1 resolved.rows resolved.db) _
          f' in
      let small =
        insert_executions-fits (clock (length cases + 1)) p.1 resolved.rows resolved.db q' f'' in
      (
        record_run-fits rt (clock 0) input.metadata db p f,
        subst (All FitsCase) (resolve-cases rt clock 1 cases p.0)
            (All-map (λ r. r.1) FitsCase resolved.rows small),
      )

  -- What an ingest that returns leaves in the store.
  pub ingest-HasIngested :
      (input : IngestInput) (db : Database F) (r : Database F × IngestSummary)
      → ingest rt clock config input db ≡ some r
      → HasIngested rt input r.1.run_pk r.0
  ingest-HasIngested input db r e =
      let (small, smalls) = ingest-fits input db r e in
      Begun-HasIngested input db r (ingest-Begun input db small smalls) e

  -- For every store, and every input whose attempt number, durations and line numbers SQLite can
  -- bind, `ingest` returns: no write fails. Afterwards the store has the run under the key that the
  -- summary reports, an identity for each case, and an execution of the run for each of them.
  pub ingest-total :
      (input : IngestInput) (db : Database F)
      → fits input.metadata.attempt ≡ true
      → All FitsCase input.parsed.cases
      → All FitsChange (or_else input.diff [])
      → (r : Database F × IngestSummary) × (ingest rt clock config input db ≡ some r)
        × HasIngested rt input r.1.run_pk r.0
  ingest-total input db small smalls lines =
      let b = ingest-Begun input db small smalls in
      let (r, e) =
        finish_ingest-total rt clock config input b.run_pk b.counts b.created b.done lines
          b.there in
      let returned = b.rest ∙ e in (r, returned, Begun-HasIngested input db r b returned)
