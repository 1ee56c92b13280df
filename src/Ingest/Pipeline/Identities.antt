-- ===== src/Ingest/Pipeline/Identities.antt =====
-- ingest/pipeline.py: the identities that the loop over the cases resolves.
use netflix_flaky_test_triag.Base.{
  ℕ, ◌+◌, ◌≡◌, refl, ap, ◌∙◌, some, List, [], ◌∷◌, map, Text, All, All_weaken, arith,
}
use netflix_flaky_test_triag.Runtime.{Runtime}
use netflix_flaky_test_triag.Models.Records.{TestCaseResult}
use netflix_flaky_test_triag.Identity.Fingerprint.{identity_for}
use netflix_flaky_test_triag.Store.Tables.{Database}
use netflix_flaky_test_triag.Store.Writes.{upsert_identity}
use netflix_flaky_test_triag.Store.Writes.Known.{
  ids, upsert_identity-knows, upsert_identity-keeps, upsert_identity-found, upsert_identity-rest,
}
use netflix_flaky_test_triag.Ingest.Pipeline.{names_of, one_if_created, resolve}

module _ {F : Type 0} (rt : Runtime F) where
  abbrev pub fingerprint_of : TestCaseResult → Text
  fingerprint_of case = (identity_for rt (names_of case)).fingerprint

  -- A row with the id that the fingerprint of its case has.
  abbrev pub IsKnown : Database F → ℕ × TestCaseResult → Type 0
  IsKnown db row = ids (fingerprint_of row.1) db ≡ some row.0

module _ {F : Type 0} (rt : Runtime F) (clock : ℕ → Text) where
  resolve-keeps :
      (k : ℕ) (cases : List TestCaseResult) (db : Database F) (fingerprint : Text) {id : ℕ}
      → ids fingerprint db ≡ some id
      → ids fingerprint (resolve rt clock k cases db).db ≡ some id
  unfolding resolve
  resolve-keeps k [] db fingerprint h = h
  resolve-keeps k (case ∷ cases) db fingerprint h =
      let i = identity_for rt (names_of case) in
      resolve-keeps (k + 1) cases (upsert_identity (clock k) i db).0 fingerprint
        (upsert_identity-keeps (clock k) i db fingerprint h)

  -- Every row has the id of its case.
  pub resolve-IsKnown :
      (k : ℕ) (cases : List TestCaseResult) (db : Database F)
      → All (IsKnown rt (resolve rt clock k cases db).db) (resolve rt clock k cases db).rows
  unfolding resolve
  resolve-IsKnown k [] db = tt
  resolve-IsKnown k (case ∷ cases) db =
      let i = identity_for rt (names_of case) in
      let next = (upsert_identity (clock k) i db).0 in
      (
        resolve-keeps (k + 1) cases next i.fingerprint (upsert_identity-knows (clock k) i db),
        resolve-IsKnown (k + 1) cases next,
      )

  pub resolve-cases :
      (k : ℕ) (cases : List TestCaseResult) (db : Database F)
      → map (λ row. row.1) (resolve rt clock k cases db).rows ≡ cases
  unfolding resolve
  resolve-cases k [] db = refl
  resolve-cases k (case ∷ cases) db =
      ap (λ rest. case ∷ rest)
        (resolve-cases (k + 1) cases
          (upsert_identity (clock k) (identity_for rt (names_of case)) db).0)

  pub resolve-rest :
      (k : ℕ) (cases : List TestCaseResult) (db : Database F)
      → ((resolve rt clock k cases db).db.runs ≡ db.runs)
        × ((resolve rt clock k cases db).db.executions ≡ db.executions)
  unfolding resolve
  resolve-rest k [] db = (refl, refl)
  resolve-rest k (case ∷ cases) db =
      let i = identity_for rt (names_of case) in
      let (a, b) = upsert_identity-rest (clock k) i db in
      let (c, d) = resolve-rest (k + 1) cases (upsert_identity (clock k) i db).0 in (c ∙ a, d ∙ b)

  -- The cases of rows that are known resolve to the same rows, and to no new identity.
  pub resolve-again :
      (k : ℕ) (rows : List (ℕ × TestCaseResult)) (db : Database F)
      → All (IsKnown rt db) rows
      → ((resolve rt clock k (map (λ row. row.1) rows) db).rows ≡ rows)
        × ((resolve rt clock k (map (λ row. row.1) rows) db).new_identities ≡ 0)
  unfolding resolve
  resolve-again k [] db h = (refl, refl)
  resolve-again k ((id, case) ∷ rows) db (h, hs) =
      let i = identity_for rt (names_of case) in
      let next = (upsert_identity (clock k) i db).0 in
      let found = upsert_identity-found (clock k) i db h in
      let later =
        All_weaken (IsKnown rt db) (IsKnown rt next) rows
          (λ row known. upsert_identity-keeps (clock k) i db (fingerprint_of rt row.1) known) hs in
      let (same, none_new) = resolve-again (k + 1) rows next later in
      let rest = resolve rt clock (k + 1) (map (λ row. row.1) rows) next in
      (
        ap (λ p. (p.0, case) ∷ rest.rows) found ∙ ap (λ rs. (id, case) ∷ rs) same,
        ap (λ p. one_if_created p.1 + rest.new_identities) found ∙ omega (arith, none_new),
      )
