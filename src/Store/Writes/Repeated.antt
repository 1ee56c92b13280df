-- ===== src/Store/Writes/Repeated.antt =====
-- store/repositories.py: runs and executions that are written a second time.
use netflix_flaky_test_triag.Base.{
  ℕ, ◌+◌, ◌≡◌, refl, ap, ◌∙◌, Bool, true, none, bind-eq-some, some, List, [], ◌∷◌, Text,
  text_eq_refl, any, All, All_weaken, arith, ◌==◌, ==_refl, Bool-cases, inl, inr, ◌>>=◌, or_else,
}
use netflix_flaky_test_triag.Runtime.{Runtime}
use netflix_flaky_test_triag.Models.Records.{TestCaseResult, RunMetadata}
use netflix_flaky_test_triag.Store.Tables.{RunRow, Database, fetch_one}
use netflix_flaky_test_triag.Store.Rows.{is_run, is_execution, new_execution}
use netflix_flaky_test_triag.Store.Writes.{
  fits, fits_duration, has_run, has_identity, insert_run, record_run, insert_execution,
  insert_executions,
}

any-fetch_one :
    {R : Type 0} (p : R → Bool) (rows : List R)
    → any p rows ≡ true
    → (r : R) × (fetch_one p rows ≡ some r)
any-fetch_one p [] h = cc
any-fetch_one p (x ∷ rows) h = elim (Bool-cases (p x)) [
  | inl e ↦ (x, rw e refl)
  | inr e ↦ let (r, k) = any-fetch_one p rows (ground (arith, h, e)) in (r, rw e k)
]

fetch_one-any :
    {R : Type 0} (p : R → Bool) (rows : List R) (r : R)
    → fetch_one p rows ≡ some r
    → any p rows ≡ true
fetch_one-any p [] r e = cc
fetch_one-any p (x ∷ rows) r e = elim (Bool-cases (p x)) [
  | inl h ↦ rw h refl
  | inr h ↦ rw h (fetch_one-any p rows r (ground (arith, e, h)))
]

fetch_one-id :
    {R : Type 0} (id : R → ℕ) (p : R → Bool) (rows : List R) (r : R)
    → fetch_one p rows ≡ some r
    → any (λ x. id x == id r) rows ≡ true
fetch_one-id id p [] r e = cc
fetch_one-id id p (x ∷ rows) r e = elim (Bool-cases (p x)) [
  | inl h ↦ let same : x ≡ r = ground (arith, e, h) in rw (ap id same, ==_refl (id r)) refl
  | inr h ↦ ground (arith, fetch_one-id id p rows r (ground (arith, e, h)))
]

module _ {F : Type 0} (rt : Runtime F) where
  -- The key of a run.
  abbrev pub is_run_of : RunMetadata → RunRow → Bool
  is_run_of m = is_run m.run_id m.attempt (or_else m.shard_id [])

  insert_run-any :
      (now : Text) (m : RunMetadata) (runs : List RunRow)
      → any (is_run_of m) (insert_run rt now m runs) ≡ true
  unfolding insert_run
  insert_run-any now m runs = elim (Bool-cases (any (is_run_of m) runs)) [
    | inl e ↦ rw e e
    | inr e ↦
        rw (e, text_eq_refl m.run_id, ==_refl m.attempt, text_eq_refl (or_else m.shard_id [])) refl
  ]

  insert_run-again :
      (now : Text) (m : RunMetadata) (runs : List RunRow)
      → any (is_run_of m) runs ≡ true
      → insert_run rt now m runs ≡ runs
  unfolding insert_run
  insert_run-again now m runs e = rw e refl

  -- For an attempt that fits, `record_run` returns the id of a row with the key of the run, and changes the runs only.
  pub record_run-total :
      (now : Text) (m : RunMetadata) (db : Database F)
      → fits m.attempt ≡ true
      → (row : RunRow) × (record_run rt now m db
          ≡ some (record db { runs = insert_run rt now m db.runs }, row.id))
        × (fetch_one (is_run_of m) (insert_run rt now m db.runs) ≡ some row)
        × (any (λ r. r.id == row.id) (insert_run rt now m db.runs) ≡ true)
  unfolding record_run
  record_run-total now m db small =
      let runs = insert_run rt now m db.runs in
      let (row, e) = any-fetch_one (is_run_of m) runs (insert_run-any now m db.runs) in
      (row, rw (small, e) refl, e, fetch_one-id (λ r. r.id) (is_run_of m) runs row e)

  pub record_run-fits :
      (now : Text) (m : RunMetadata) (db : Database F) (r : Database F × ℕ)
      → record_run rt now m db ≡ some r
      → fits m.attempt ≡ true
  unfolding record_run
  record_run-fits now m db r e = elim (Bool-cases (fits m.attempt)) [
    | inl small ↦ small
    | inr large ↦ let refused : record_run rt now m db ≡ none = rw large refl in cc (refused, e)
  ]

  -- With the key in the table, `record_run` returns the id of its row and changes nothing.
  pub record_run-again :
      (now : Text) (m : RunMetadata) (db : Database F) (row : RunRow)
      → fits m.attempt ≡ true
      → fetch_one (is_run_of m) db.runs ≡ some row
      → record_run rt now m db ≡ some (db, row.id)
  unfolding record_run
  record_run-again now m db row small e =
      let same = insert_run-again now m db.runs (fetch_one-any (is_run_of m) db.runs row e) in
      let opened : record_run rt now m db ≡ (
          fetch_one (is_run_of m) (insert_run rt now m db.runs) >>= λ r.
          some (record db { runs = insert_run rt now m db.runs }, r.id)) =
        rw small refl in
      opened
      ∙ ap (λ runs. fetch_one (is_run_of m) runs >>= λ r. some (record db { runs = runs }, r.id))
          same
      ∙ ap (λ o. o >>= λ r. some (db, r.id)) e

-- A case, and a row, whose duration fits.
abbrev pub FitsCase : TestCaseResult → Type 0
FitsCase case = fits_duration case.duration_ms ≡ true

abbrev pub FitsRow : ℕ × TestCaseResult → Type 0
FitsRow row = FitsCase row.1

module _ {F : Type 0} where
  -- What inserting executions keeps.
  pub record IsExtended (db next : Database F) : Type 0 where
    pub runs : next.runs ≡ db.runs
    pub identities : next.test_identities ≡ db.test_identities
    pub executions :
        (run_pk id : ℕ)
        → any (is_execution run_pk id) db.executions ≡ true
        → any (is_execution run_pk id) next.executions ≡ true

  insert_execution-total :
      (now : Text) (run_pk id : ℕ) (case : TestCaseResult) (db : Database F)
      → fits_duration case.duration_ms ≡ true
      → has_run db run_pk ≡ true
      → has_identity db id ≡ true
      → (next : Database F) × (n : ℕ) × (insert_execution now run_pk id case db ≡ some (next, n))
        × IsExtended db next
        × (any (is_execution run_pk id) next.executions ≡ true)
  unfolding insert_execution new_execution
  insert_execution-total now run_pk id case db small r i =
      elim (Bool-cases (any (is_execution run_pk id) db.executions)) [
        | inl e ↦ (
          db,
          0,
          rw (small, e) refl,
          record { runs = refl; identities = refl; executions = λ rp k h. h },
          e,
        )
        | inr e ↦ (
          record db { executions = new_execution now run_pk id case db.executions ∷ db.executions },
          1,
          rw (small, e, r, i) refl,
          record { runs = refl; identities = refl; executions = λ rp k h. ground (arith, h) },
          rw (==_refl run_pk, ==_refl id) refl,
        )
      ]

  pub insert_execution-fits :
      (now : Text) (run_pk id : ℕ) (case : TestCaseResult) (db : Database F) (r : Database F × ℕ)
      → insert_execution now run_pk id case db ≡ some r
      → fits_duration case.duration_ms ≡ true
  unfolding insert_execution
  insert_execution-fits now run_pk id case db r e =
      elim (Bool-cases (fits_duration case.duration_ms)) [
        | inl small ↦ small
        | inr large ↦
            let refused : insert_execution now run_pk id case db ≡ none = rw large refl in
            cc (refused, e)
      ]

  pub insert_executions-fits :
      (now : Text) (run_pk : ℕ) (rows : List (ℕ × TestCaseResult)) (db : Database F)
      (r : Database F × ℕ)
      → insert_executions now run_pk rows db ≡ some r
      → All FitsRow rows
  unfolding insert_executions
  insert_executions-fits now run_pk [] db r e = tt
  insert_executions-fits now run_pk ((id, case) ∷ rows) db r e =
      let (mid, f, g) = bind-eq-some (insert_execution now run_pk id case db) _ e in
      let (last, f', g') = bind-eq-some (insert_executions now run_pk rows mid.0) _ g in
      (
        insert_execution-fits now run_pk id case db mid f,
        insert_executions-fits now run_pk rows mid.0 last f',
      )

  -- The rows whose execution is in the table.
  abbrev pub IsStored : ℕ → Database F → ℕ × TestCaseResult → Type 0
  IsStored run_pk db row = any (is_execution run_pk row.0) db.executions ≡ true

  IsExtended-trans : (a b c : Database F) → IsExtended a b → IsExtended b c → IsExtended a c
  IsExtended-trans a b c h k = record {
    runs = k.runs ∙ h.runs;
    identities = k.identities ∙ h.identities;
    executions = λ rp id e. k.executions rp id (h.executions rp id e);
  }

  pub insert_executions-total :
      (now : Text) (run_pk : ℕ) (rows : List (ℕ × TestCaseResult)) (db : Database F)
      → All FitsRow rows
      → has_run db run_pk ≡ true
      → All (λ row. has_identity db row.0 ≡ true) rows
      → (next : Database F) × (n : ℕ) × (insert_executions now run_pk rows db ≡ some (next, n))
        × IsExtended db next
        × All (IsStored run_pk next) rows
  unfolding insert_executions
  insert_executions-total now run_pk [] db small r i =
      (db, 0, refl, record { runs = refl; identities = refl; executions = λ rp id h. h }, tt)
  insert_executions-total now run_pk ((id, case) ∷ rows) db (small, smalls) r (i, is) =
      let (mid, one, e, k, there) = insert_execution-total now run_pk id case db small r i in
      let (next, more, e', k', stored) =
        insert_executions-total now run_pk rows mid smalls
          (ap (λ rs. any (λ x. x.id == run_pk) rs) k.runs ∙ r)
          (All_weaken (λ row. has_identity db row.0 ≡ true) (λ row. has_identity mid row.0 ≡ true)
            rows (λ row h. ap (λ rs. any (λ x. x.id == row.0) rs) k.identities ∙ h) is) in
      (
        next,
        one + more,
        ap (λ o. o >>= λ p. insert_executions now run_pk rows p.0 >>= λ q. some (q.0, p.1 + q.1)) e
            ∙ ap (λ o. o >>= λ q. some (q.0, one + q.1)) e',
        IsExtended-trans db mid next k k',
        (k'.executions run_pk id there, stored),
      )

  -- Rows that are all stored add nothing.
  pub insert_executions-again :
      (now : Text) (run_pk : ℕ) (rows : List (ℕ × TestCaseResult)) (db : Database F)
      → All FitsRow rows
      → All (IsStored run_pk db) rows
      → insert_executions now run_pk rows db ≡ some (db, 0)
  unfolding insert_executions insert_execution
  insert_executions-again now run_pk [] db small h = refl
  insert_executions-again now run_pk ((id, case) ∷ rows) db (small, smalls) (h, hs) =
      rw (small, h, insert_executions-again now run_pk rows db smalls hs) refl
