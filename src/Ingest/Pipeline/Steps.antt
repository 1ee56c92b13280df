-- ===== src/Ingest/Pipeline/Steps.antt =====
-- ingest/pipeline.py: the last steps of an ingest, which write no run, identity or execution.
use mathlib.Core.Path.{subst}
use netflix_flaky_test_triag.Base.{
  ℕ, ◌+◌, ◌&&◌, All, or_else, some_unique, bind-eq-some, ◌≡◌, refl, ap, ◌∙◌, true, Option, none,
  some, List, [], ◌∷◌, ◌++◌, Text, any, length, ◌==◌, ◌>>=◌, Bool-cases, inl, inr,
}
use netflix_flaky_test_triag.Runtime.{Runtime}
use netflix_flaky_test_triag.Config.{IdentityConfig}
use netflix_flaky_test_triag.Models.Records.{ParseWarning}
use netflix_flaky_test_triag.Models.Diff.{FileChange}
use netflix_flaky_test_triag.Identity.Reconcile.{reconcile_renames}
use netflix_flaky_test_triag.Identity.Reconcile.Kept.{reconcile_renames-kept}
use netflix_flaky_test_triag.Store.Tables.{Database}
use netflix_flaky_test_triag.Store.Rows.{is_diff_file, prepend_warnings}
use netflix_flaky_test_triag.Store.Writes.{
  fits_ranges, has_run, add_diff_file, insert_diff_file, insert_diff_files, record_diff,
  record_warnings,
}
use netflix_flaky_test_triag.Ingest.Pipeline.{
  IngestSummary, IngestInput, summary_of, diff_step, warnings_step, finish_ingest,
}

-- The counts that a summary reports.
pub record Reports (s : IngestSummary) (run_pk : ℕ) (counts : ℕ × ℕ) (created : ℕ) : Type 0 where
  pub run_key : s.run_pk ≡ run_pk
  pub ingested : s.cases_ingested ≡ counts.0
  pub skipped : s.cases_skipped_duplicate ≡ counts.1
  pub identities : s.new_identities ≡ created

-- A change whose line numbers fit.
abbrev pub FitsChange : FileChange → Type 0
FitsChange c = fits_ranges c ≡ true

module _ {F : Type 0} where
  -- The tables that runs, identities and executions are in stay the same.
  pub record KeepsHistory (db next : Database F) : Type 0 where
    pub runs : next.runs ≡ db.runs
    pub identities : next.test_identities ≡ db.test_identities
    pub executions : next.executions ≡ db.executions

  pub KeepsHistory-refl : (db : Database F) → KeepsHistory db db
  KeepsHistory-refl db = record { runs = refl; identities = refl; executions = refl }

  pub KeepsHistory-trans :
      (a b c : Database F) → KeepsHistory a b → KeepsHistory b c → KeepsHistory a c
  KeepsHistory-trans a b c h k = record {
    runs = k.runs ∙ h.runs;
    identities = k.identities ∙ h.identities;
    executions = k.executions ∙ h.executions;
  }

  pub has_run-kept :
      (db next : Database F) (run_pk : ℕ)
      → KeepsHistory db next
      → has_run db run_pk ≡ true
      → has_run next run_pk ≡ true
  has_run-kept db next run_pk k h = ap (λ rs. any (λ r. r.id == run_pk) rs) k.runs ∙ h

  insert_diff_file-kept :
      (run_pk : ℕ) (c : FileChange) (db next : Database F)
      → insert_diff_file run_pk c db ≡ some next
      → KeepsHistory db next
  unfolding insert_diff_file add_diff_file
  insert_diff_file-kept run_pk c db next e =
      elim (Bool-cases (any (is_diff_file run_pk c.path) db.diff_files)) [
        | inl h ↦ subst (KeepsHistory db) (some_unique (rw h refl) e) (KeepsHistory-refl db)
        | inr h ↦ elim (Bool-cases (has_run db run_pk && fits_ranges c)) [
          | inl both ↦ subst (KeepsHistory db) (some_unique (rw (h, both) refl) e) (
              let added : KeepsHistory db (add_diff_file run_pk c db) = record {
                runs = refl;
                identities = refl;
                executions = refl;
              } in
              added)
          | inr refused ↦
              let none_made : insert_diff_file run_pk c db ≡ none = rw (h, refused) refl in
              cc (none_made, e)
        ]
      ]

  insert_diff_file-total :
      (run_pk : ℕ) (c : FileChange) (db : Database F)
      → fits_ranges c ≡ true
      → has_run db run_pk ≡ true
      → (next : Database F) × (insert_diff_file run_pk c db ≡ some next)
  unfolding insert_diff_file
  insert_diff_file-total run_pk c db small r =
      elim (Bool-cases (any (is_diff_file run_pk c.path) db.diff_files)) [
        | inl e ↦ (db, rw e refl)
        | inr e ↦ (add_diff_file run_pk c db, rw (e, r, small) refl)
      ]

  insert_diff_files-kept :
      (run_pk : ℕ) (cs : List FileChange) (db next : Database F)
      → insert_diff_files run_pk cs db ≡ some next
      → KeepsHistory db next
  unfolding insert_diff_files
  insert_diff_files-kept run_pk [] db next e =
      subst (KeepsHistory db) (some_unique refl e) (KeepsHistory-refl db)
  insert_diff_files-kept run_pk (c ∷ cs) db next e =
      let (mid, f, g) = bind-eq-some (insert_diff_file run_pk c db) _ e in
      KeepsHistory-trans db mid next (insert_diff_file-kept run_pk c db mid f)
        (insert_diff_files-kept run_pk cs mid next g)

  insert_diff_files-total :
      (run_pk : ℕ) (cs : List FileChange) (db : Database F)
      → All FitsChange cs
      → has_run db run_pk ≡ true
      → (next : Database F) × (insert_diff_files run_pk cs db ≡ some next)
  unfolding insert_diff_files
  insert_diff_files-total run_pk [] db small r = (db, refl)
  insert_diff_files-total run_pk (c ∷ cs) db (small, smalls) r =
      let (mid, e) = insert_diff_file-total run_pk c db small r in
      let there = has_run-kept db mid run_pk (insert_diff_file-kept run_pk c db mid e) r in
      let (next, e') = insert_diff_files-total run_pk cs mid smalls there in
      (next, ap (λ o. o >>= insert_diff_files run_pk cs) e ∙ e')

  diff_step-kept :
      (run_pk : ℕ) (diff : Option (List FileChange)) (db : Database F) (r : Database F × ℕ)
      → diff_step run_pk diff db ≡ some r
      → KeepsHistory db r.0
  unfolding diff_step record_diff
  diff_step-kept run_pk none db r e =
      subst (λ q. KeepsHistory db q.0) (some_unique refl e) (KeepsHistory-refl db)
  diff_step-kept run_pk (some files) db r e =
      let (next, f, g) = bind-eq-some (insert_diff_files run_pk files db) _ e in
      subst (λ q. KeepsHistory db q.0) (some_unique refl g)
        (insert_diff_files-kept run_pk files db next f)

  diff_step-total :
      (run_pk : ℕ) (diff : Option (List FileChange)) (db : Database F)
      → All FitsChange (or_else diff [])
      → has_run db run_pk ≡ true
      → (r : Database F × ℕ) × (diff_step run_pk diff db ≡ some r)
  unfolding diff_step record_diff
  diff_step-total run_pk none db small r = ((db, 0), refl)
  diff_step-total run_pk (some files) db small r =
      let (next, e) = insert_diff_files-total run_pk files db small r in
      ((next, length files), rw e refl)

  warnings_step-total :
      (now : Text) (run_pk : ℕ) (ws : List ParseWarning) (db : Database F)
      → has_run db run_pk ≡ true
      → (r : Database F × ℕ) × (warnings_step now run_pk ws db ≡ some r) × KeepsHistory db r.0
  unfolding warnings_step record_warnings
  warnings_step-total now run_pk [] db r = ((db, 0), refl, KeepsHistory-refl db)
  warnings_step-total now run_pk (w ∷ ws) db r = (
    (
      record db { parse_warnings = prepend_warnings now (some run_pk) (w ∷ ws) db.parse_warnings },
      length (w ∷ ws),
    ),
    rw r refl,
    record { runs = refl; identities = refl; executions = refl },
  )

module _ {F : Type 0} (rt : Runtime F) (clock : ℕ → Text) (config : IdentityConfig F) where
  reconcile-KeepsHistory :
      (run_pk : ℕ) (db : Database F) → KeepsHistory db (reconcile_renames rt config run_pk db).0
  reconcile-KeepsHistory run_pk db =
      let same = reconcile_renames-kept rt config run_pk db in
      record { runs = same.runs; identities = same.identities; executions = same.executions }

  -- What the rest of an ingest does when it returns.
  pub finish_ingest-kept :
      (input : IngestInput) (run_pk : ℕ) (counts : ℕ × ℕ) (created : ℕ) (db : Database F)
      (r : Database F × IngestSummary)
      → has_run db run_pk ≡ true
      → finish_ingest rt clock config input run_pk counts created db ≡ some r
      → KeepsHistory db r.0 × Reports r.1 run_pk counts created
  unfolding finish_ingest
  finish_ingest-kept input run_pk counts created db r there e =
      let warnings = input.parsed.warnings ++ input.extra_warnings in
      let now = clock (length input.parsed.cases + 2) in
      let step = reconcile_renames rt config run_pk db in
      let first = reconcile-KeepsHistory run_pk db in
      let (d, f, g) = bind-eq-some (diff_step run_pk input.diff step.0) _ e in
      let k = diff_step-kept run_pk input.diff step.0 d f in
      let before = KeepsHistory-trans db step.0 d.0 first k in
      let (w, f', k') =
        warnings_step-total now run_pk warnings d.0 (has_run-kept db d.0 run_pk before there) in
      let (w', f'', g') = bind-eq-some (warnings_step now run_pk warnings d.0) _ g in
      let last = subst (λ q. KeepsHistory d.0 q.0) (some_unique f' f'') k' in
      subst (λ q. KeepsHistory db q.0 × Reports q.1 run_pk counts created) (some_unique refl g')
        (
          KeepsHistory-trans db d.0 w'.0 before last,
          record { run_key = refl; ingested = refl; skipped = refl; identities = refl },
        )

  pub finish_ingest-total :
      (input : IngestInput) (run_pk : ℕ) (counts : ℕ × ℕ) (created : ℕ) (db : Database F)
      → All FitsChange (or_else input.diff [])
      → has_run db run_pk ≡ true
      → (r : Database F × IngestSummary) × (finish_ingest rt clock config input run_pk counts
            created db
          ≡ some r)
  unfolding finish_ingest
  finish_ingest-total input run_pk counts created db small there =
      let warnings = input.parsed.warnings ++ input.extra_warnings in
      let step = reconcile_renames rt config run_pk db in
      let first = reconcile-KeepsHistory run_pk db in
      let (d, e) =
        diff_step-total run_pk input.diff step.0 small
          (has_run-kept db step.0 run_pk first there) in
      let k = diff_step-kept run_pk input.diff step.0 d e in
      let before = KeepsHistory-trans db step.0 d.0 first k in
      let (w, e', k') =
        warnings_step-total (clock (length input.parsed.cases + 2)) run_pk warnings d.0
          (has_run-kept db d.0 run_pk before there) in
      ((w.0, summary_of run_pk counts created d.1 warnings step.1), rw (e, e') refl)
