-- ===== src/Identity/Reconcile/Kept.antt =====
-- identity/reconcile.py: the tables that reconciliation leaves alone.
use netflix_flaky_test_triag.Base.{
  ℕ, ◌≡◌, refl, ◌∙◌, Option, none, some, List, [], ◌∷◌, is_empty, Bool-cases, inl, inr,
}
use netflix_flaky_test_triag.Runtime.{Runtime}
use netflix_flaky_test_triag.Config.{IdentityConfig}
use netflix_flaky_test_triag.Identity.Alias.{AliasCandidate, detect_renames}
use netflix_flaky_test_triag.Store.Tables.{Database}
use netflix_flaky_test_triag.Store.Lookups.{
  identity_ids_for_run, identities_before_run, identity_id_by_fingerprint,
}
use netflix_flaky_test_triag.Identity.Reconcile.{
  record_candidate, record_candidates, reconcile_renames, disappeared_from, appeared_ids,
  identities_of,
}

module _ {F : Type 0} (rt : Runtime F) where
  -- The same runs, identities, executions and diffs.
  pub record HasSameFacts (db next : Database F) : Type 0 where
    pub runs : next.runs ≡ db.runs
    pub identities : next.test_identities ≡ db.test_identities
    pub executions : next.executions ≡ db.executions
    pub diff_files : next.diff_files ≡ db.diff_files

  pub HasSameFacts-refl : (db : Database F) → HasSameFacts db db
  HasSameFacts-refl db = record {
    runs = refl;
    identities = refl;
    executions = refl;
    diff_files = refl;
  }

  pub HasSameFacts-trans :
      (a b c : Database F) → HasSameFacts a b → HasSameFacts b c → HasSameFacts a c
  HasSameFacts-trans a b c h k = record {
    runs = k.runs ∙ h.runs;
    identities = k.identities ∙ h.identities;
    executions = k.executions ∙ h.executions;
    diff_files = k.diff_files ∙ h.diff_files;
  }

  record_candidate-kept :
      (c : AliasCandidate F) (old new : Option ℕ) (db : Database F)
      (found : List (AliasCandidate F))
      → HasSameFacts db (record_candidate rt c old new (db, found)).0
  record_candidate-kept c (some old) (some new) db found = record {
    runs = refl;
    identities = refl;
    executions = refl;
    diff_files = refl;
  }
  record_candidate-kept c none new db found = HasSameFacts-refl db
  record_candidate-kept c (some old) none db found = HasSameFacts-refl db

  record_candidates-kept :
      (cs : List (AliasCandidate F)) (db : Database F) (found : List (AliasCandidate F))
      → HasSameFacts db (record_candidates rt cs (db, found)).0
  unfolding record_candidates
  record_candidates-kept [] db found = HasSameFacts-refl db
  record_candidates-kept (c ∷ cs) db found =
      let old = identity_id_by_fingerprint db c.old_fingerprint in
      let new = identity_id_by_fingerprint db c.new_fingerprint in
      let s = record_candidate rt c old new (db, found) in
      HasSameFacts-trans db s.0 (record_candidates rt cs s).0
        (record_candidate-kept c old new db found) (record_candidates-kept cs s.0 s.1)

  pub reconcile_renames-kept :
      (config : IdentityConfig F) (run_pk : ℕ) (db : Database F)
      → HasSameFacts db (reconcile_renames rt config run_pk db).0
  unfolding reconcile_renames
  reconcile_renames-kept config run_pk db =
      elim (Bool-cases (is_empty (identity_ids_for_run db run_pk))) [
        | inl e ↦ rw e (HasSameFacts-refl db)
        | inr e ↦
            let previous = identities_before_run db run_pk in
            let current = identity_ids_for_run db run_pk in
            let candidates =
              detect_renames rt config (disappeared_from current previous)
                (identities_of db (appeared_ids current previous)) in
            rw e (record_candidates-kept candidates db [])
      ]
