-- ===== src/Ingest/Pipeline/Again.antt =====
-- ingest/pipeline.py: a second ingest of the same run.
use mathlib.Core.Path.{subst}
use netflix_flaky_test_triag.Base.{
  ℕ, ◌+◌, ◌-◌, ◌≡◌, All-unmap, refl, sym, ap, ◌∙◌, some, Text, All, All_weaken, any, length,
  length-map, arith, ◌==◌,
}
use netflix_flaky_test_triag.Runtime.{Runtime}
use netflix_flaky_test_triag.Config.{IdentityConfig}
use netflix_flaky_test_triag.Store.Tables.{Database, fetch_one}
use netflix_flaky_test_triag.Store.Rows.{is_execution}
use netflix_flaky_test_triag.Store.Writes.{record_executions}
use netflix_flaky_test_triag.Store.Writes.Repeated.{
  is_run_of, record_run-again, IsStored, FitsCase, insert_executions-again,
}
use netflix_flaky_test_triag.Ingest.Pipeline.{
  IngestSummary, IngestInput, resolve, finish_ingest, ingest,
}
use netflix_flaky_test_triag.Ingest.Pipeline.Identities.{resolve-cases, resolve-rest, resolve-again}
use netflix_flaky_test_triag.Ingest.Pipeline.Steps.{Reports, finish_ingest-kept}
use netflix_flaky_test_triag.Ingest.Pipeline.Total.{HasIngested, ingest-fits, ingest-HasIngested}

-- What a further ingest of a run does, by what it returns: no execution more, the same run key,
-- every case skipped and no new identity.
abbrev pub AddsNothing : {F : Type 0} → Database F → ℕ → ℕ → Database F × IngestSummary → Type 0
AddsNothing db run_pk size (next, s) =
    (next.executions ≡ db.executions) × Reports s run_pk (0, size) 0

module _ {F : Type 0} (rt : Runtime F) (clock : ℕ → Text) (config : IdentityConfig F) where
  -- An ingest that returns, into a store that has ingested the cases of the run.
  ingest-known :
      (input : IngestInput) (run_pk : ℕ) (db : Database F) (r : Database F × IngestSummary)
      → HasIngested rt input run_pk db
      → ingest rt clock config input db ≡ some r
      → AddsNothing db run_pk (length input.parsed.cases) r
  unfolding ingest record_executions
  ingest-known input run_pk db r h e =
      let cases = input.parsed.cases in
      let (small, smalls) = ingest-fits rt clock config input db r e in
      let first = record_run-again rt (clock 0) input.metadata db h.row small h.run_found in
      let (same, none_new) = resolve-again rt clock 1 h.rows db h.known in
      let resolved = resolve rt clock 1 cases db in
      let resolved_same = ap (λ cs. (resolve rt clock 1 cs db).rows) (sym h.cases) ∙ same in
      let created = ap (λ cs. (resolve rt clock 1 cs db).new_identities) (sym h.cases) ∙ none_new in
      let (runs_same, old) = resolve-rest rt clock 1 cases db in
      let stored =
        All_weaken (IsStored run_pk db) (IsStored run_pk resolved.db) h.rows
          (λ r there. ap (any (is_execution run_pk r.0)) old ∙ there) h.stored in
      let inserted =
        insert_executions-again (clock (length cases + 1)) run_pk resolved.rows resolved.db
          (All-unmap (λ r. r.1) FitsCase resolved.rows
            (subst (All FitsCase) (sym (resolve-cases rt clock 1 cases db)) smalls))
          (subst (All (IsStored run_pk resolved.db)) (sym resolved_same) stored) in
      let counts : ℕ × ℕ = (0, length resolved.rows - 0) in
      let there = ap (λ rs. any (λ r. r.id == run_pk) rs) runs_same ∙ h.run_there in
      let rest : ingest rt clock config input db
          ≡ finish_ingest rt clock config input run_pk counts resolved.new_identities resolved.db =
        rw (first, h.run_key, inserted) refl in
      let (kept, reports) =
        finish_ingest-kept rt clock config input run_pk counts resolved.new_identities resolved.db r
          there (sym rest ∙ e) in
      let size : length resolved.rows - 0 ≡ length cases = omega (
        arith,
        length-map (λ r. r.1) resolved.rows,
        ap length (resolve-cases rt clock 1 cases db),
      ) in
      (
        kept.executions ∙ old,
        record {
          run_key = reports.run_key;
          ingested = reports.ingested;
          skipped = reports.skipped ∙ size;
          identities = reports.identities ∙ created;
        },
      )

module _ {F : Type 0} (rt : Runtime F) where
  -- Take two ingests of one run, with the same metadata and cases, whatever their diffs, warnings,
  -- times and settings are, the second into the store that the first returned. The second returns
  -- the same run key, inserts no execution and skips every case, creates no identity, and the table
  -- of executions stays as it was.
  pub ingest-twice :
      (clock later : ℕ → Text) (config other : IdentityConfig F) (first second : IngestInput)
      (db db1 db2 : Database F) (s1 s2 : IngestSummary)
      → second.metadata ≡ first.metadata
      → second.parsed.cases ≡ first.parsed.cases
      → ingest rt clock config first db ≡ some (db1, s1)
      → ingest rt later other second db1 ≡ some (db2, s2)
      → (db2.executions ≡ db1.executions) × Reports s2 s1.run_pk (0, length first.parsed.cases) 0
  ingest-twice clock later config other first second db db1 db2 s1 s2 same_run same_cases e e' =
      let known = ingest-HasIngested rt clock config first db (db1, s1) e in
      let again : HasIngested rt second s1.run_pk db1 = record {
        row = known.row;
        run_found = ap (λ m. fetch_one (is_run_of rt m) db1.runs) same_run ∙ known.run_found;
        run_key = known.run_key;
        run_there = known.run_there;
        rows = known.rows;
        cases = known.cases ∙ sym same_cases;
        known = known.known;
        stored = known.stored;
      } in
      subst (λ n. AddsNothing db1 s1.run_pk n (db2, s2)) (ap length same_cases)
        (ingest-known rt later other second s1.run_pk db1 (db2, s2) again e')
