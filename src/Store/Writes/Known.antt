-- ===== src/Store/Writes/Known.antt =====
-- store/repositories.py: identities by fingerprint, through the writes.
use netflix_flaky_test_triag.Base.{
  ℕ, ◌≡◌, refl, ap, ◌∙◌, Bool, true, false, Option, none, some, List, [], ◌∷◌, Text, text_eq,
  text_eq→eq, text_eq_refl, any, arith, ◌==◌, Bool-cases, Option-cases, inl, inr, ◌>>=◌,
}
use netflix_flaky_test_triag.Models.Records.{TestIdentity}
use netflix_flaky_test_triag.Store.Tables.{IdentityRow, Database, fetch_one}
use netflix_flaky_test_triag.Store.Rows.{has_fingerprint, refresh, new_identity}
use netflix_flaky_test_triag.Store.Writes.{upsert_found, upsert_identity, has_identity}

-- The id that a list of identities has for a fingerprint.
abbrev pub id_of : Text → List IdentityRow → Option ℕ
id_of fingerprint rows = do row ← fetch_one (has_fingerprint fingerprint) rows; some row.id

pub id_of-refresh :
    (now : Text) (path : Option Text) (id : ℕ) (fingerprint : Text) (rows : List IdentityRow)
    → id_of fingerprint (refresh now path id rows) ≡ id_of fingerprint rows
unfolding refresh
id_of-refresh now path id fingerprint [] = refl
id_of-refresh now path id fingerprint (r ∷ rows) =
    ground (arith, id_of-refresh now path id fingerprint rows)

fetch_one-holds :
    {R : Type 0} (p : R → Bool) (rows : List R) (r : R) → fetch_one p rows ≡ some r → p r ≡ true
fetch_one-holds p [] r e = cc
fetch_one-holds p (x ∷ rows) r e = elim (Bool-cases (p x)) [
  | inl h ↦ ground (arith, e, h)
  | inr h ↦ fetch_one-holds p rows r (ground (arith, e, h))
]

module _ {F : Type 0} where
  abbrev pub ids : Text → Database F → Option ℕ
  ids fingerprint db = id_of fingerprint db.test_identities

  upsert_found-knows :
      (now : Text) (i : TestIdentity) (o : Option IdentityRow) (db : Database F)
      → fetch_one (has_fingerprint i.fingerprint) db.test_identities ≡ o
      → ids i.fingerprint (upsert_found now i o db).0 ≡ some (upsert_found now i o db).1.0
  unfolding upsert_found new_identity
  upsert_found-knows now i none db e = ground (arith, text_eq_refl i.fingerprint)
  upsert_found-knows now i (some row) db e =
      id_of-refresh now i.file_path row.id i.fingerprint db.test_identities
      ∙ ap (λ o. o >>= λ row. some row.id) e

  -- The id that `upsert_identity` returns is the one that the fingerprint has then.
  pub upsert_identity-knows :
      (now : Text) (i : TestIdentity) (db : Database F)
      → ids i.fingerprint (upsert_identity now i db).0 ≡ some (upsert_identity now i db).1.0
  unfolding upsert_identity
  upsert_identity-knows now i db = upsert_found-knows now i _ db refl

  upsert_found-keeps :
      (now : Text) (i : TestIdentity) (o : Option IdentityRow) (db : Database F)
      (fingerprint : Text) {k : ℕ}
      → fetch_one (has_fingerprint i.fingerprint) db.test_identities ≡ o
      → ids fingerprint db ≡ some k
      → ids fingerprint (upsert_found now i o db).0 ≡ some k
  unfolding upsert_found new_identity
  upsert_found-keeps now i (some row) db fingerprint e h =
      id_of-refresh now i.file_path row.id fingerprint db.test_identities ∙ h
  upsert_found-keeps now i none db fingerprint e h =
      elim (Bool-cases (text_eq i.fingerprint fingerprint)) [
        | inl same ↦
            let known = rw (← text_eq→eq i.fingerprint fingerprint same) at h in
            cc (ap (λ o. o >>= λ row. some row.id) e, known)
        | inr other ↦ rw other h
      ]

  pub upsert_identity-keeps :
      (now : Text) (i : TestIdentity) (db : Database F) (fingerprint : Text) {k : ℕ}
      → ids fingerprint db ≡ some k
      → ids fingerprint (upsert_identity now i db).0 ≡ some k
  unfolding upsert_identity
  upsert_identity-keeps now i db fingerprint h = upsert_found-keeps now i _ db fingerprint refl h

  -- A known identity is not created again.
  pub upsert_identity-found :
      (now : Text) (i : TestIdentity) (db : Database F) {k : ℕ}
      → ids i.fingerprint db ≡ some k
      → (upsert_identity now i db).1 ≡ (k, false)
  unfolding upsert_identity upsert_found
  upsert_identity-found now i db h =
      elim (Option-cases (fetch_one (has_fingerprint i.fingerprint) db.test_identities)) [
        | inl e ↦ cc (ap (λ o. o >>= λ row. some row.id) e, h)
        | inr (row, e) ↦
            let same : row.id ≡ _ = ground (arith, e, h) in rw e (ap (λ id. (id, false)) same)
      ]

  upsert_found-rest :
      (now : Text) (i : TestIdentity) (o : Option IdentityRow) (db : Database F)
      → ((upsert_found now i o db).0.runs ≡ db.runs)
        × ((upsert_found now i o db).0.executions ≡ db.executions)
  unfolding upsert_found
  upsert_found-rest now i none db = (refl, refl)
  upsert_found-rest now i (some row) db = (refl, refl)

  pub upsert_identity-rest :
      (now : Text) (i : TestIdentity) (db : Database F)
      → ((upsert_identity now i db).0.runs ≡ db.runs)
        × ((upsert_identity now i db).0.executions ≡ db.executions)
  unfolding upsert_identity
  upsert_identity-rest now i db = upsert_found-rest now i _ db

  -- A known id is the id of a row.
  pub ids-has_identity :
      (db : Database F) (fingerprint : Text) {k : ℕ}
      → ids fingerprint db ≡ some k
      → has_identity db k ≡ true
  ids-has_identity db fingerprint {k} h = any_id fingerprint db.test_identities h
    where
      any_id :
          (fingerprint : Text) (rows : List IdentityRow)
          → id_of fingerprint rows ≡ some k
          → any (λ r. r.id == k) rows ≡ true
      any_id fingerprint [] h = cc
      any_id fingerprint (r ∷ rows) h = ground (arith, any_id fingerprint rows, h)
