-- ===== src/Policy/Records/Invariant.antt =====
-- The well-formedness of the table of policy/records.py, and the tables it can become.
use mathlib.Core.Path.{subst}
use netflix_flaky_test_triag.Base.{
  some_unique, ◌||◌, List, none, some, Option, ℕ, ◌+◌, ◌≤◌, ◌≡◌, ◌≢◌, refl, Bool, true, false, ◌&&◌,
  not, Option, none, some, [], ◌∷◌, ◌++◌, Text, map, any, keep, All, count_of, ◌==◌, if◌then◌else◌,
  arith, Bool-cases, inl, inr, ◌⊎◌,
}
use netflix_flaky_test_triag.Runtime.{Runtime}
use netflix_flaky_test_triag.Policy.Quarantine.{QuarantineState, QuarantineRecommendation, is_open}
use netflix_flaky_test_triag.Policy.Records.{
  QuarantineRecord, Table, open_of, row_of, is_none, insert_recommendation, record_recommendation,
  close_row, close, close_all, expire_overdue, release, max_id, expiry_reason, has_expired,
  list_quarantines,
}

module _ {F : Type 0} where
  -- The number of open quarantines of a test.
  abbrev pub open_count : ℕ → Table F → ℕ
  open_count identity rows = count_of (open_of identity) rows

  count_none :
      (identity : ℕ) (rows : Table F)
      → any (open_of identity) rows ≡ false
      → open_count identity rows ≡ 0
  count_none identity [] h = refl
  count_none identity (r ∷ rs) h = ground (arith, count_none identity rs)

  count-snoc :
      (identity : ℕ) (r : QuarantineRecord F) (rows : Table F)
      → open_count identity (rows ++ r ∷ [])
        ≡ open_count identity rows + (if open_of identity r then 1 else 0)
  count-snoc identity r [] = ground arith
  count-snoc identity r (s ∷ rs) = ground (arith, count-snoc identity r rs)

  -- A row is open and not closed at any time, or closed at a time for a reason.
  abbrev pub RowIsValid : QuarantineRecord F → Type 0
  RowIsValid r =
      ((is_open r.state ≡ true) × (r.closed_at ≡ none))
      ⊎ ((is_open r.state ≡ false) × (r.closed_at ≢ none) × (r.close_reason ≢ none))

  pub record IsValid (rows : Table F) : Type 0 where
    pub one_open : (identity : ℕ) → open_count identity rows ≤ 1
    pub rows_valid : All RowIsValid rows

  record_count :
      (now : Text) (q : QuarantineRecommendation F) (rows : Table F) (identity : ℕ)
      → open_count identity rows ≤ 1
      → open_count identity (insert_recommendation now QuarantineState.recommended q rows).0 ≤ 1
  unfolding insert_recommendation
  record_count now q rows identity h = ground (
    arith,
    count-snoc identity (row_of now (max_id rows + 1) QuarantineState.recommended q) rows,
    count_none identity rows,
    count_none q.identity_id rows,
  )

  All-snoc :
      (x : QuarantineRecord F) (xs : Table F)
      → All RowIsValid xs
      → RowIsValid x
      → All RowIsValid (xs ++ x ∷ [])
  All-snoc x [] h p = (p, tt)
  All-snoc x (y ∷ ys) (hy, hs) p = (hy, All-snoc x ys hs p)

  stored :
      (b c : Bool) (rows new : Table F) (id : ℕ)
      → All RowIsValid rows
      → All RowIsValid new
      → let result : Table F × Option ℕ =
          if b then (rows, none) else if c then (rows, none) else (new, some id) in
        All RowIsValid result.0
  stored true c rows new id h k = h
  stored false true rows new id h k = h
  stored false false rows new id h k = k

  record-IsValid :
      (now : Text) (q : QuarantineRecommendation F) (rows : Table F)
      → IsValid rows
      → IsValid (insert_recommendation now QuarantineState.recommended q rows).0
  unfolding insert_recommendation
  record-IsValid now q rows h = record {
    one_open = λ identity. record_count now q rows identity (h.one_open identity);
    rows_valid =
        stored (not q.is_recommended) (any (open_of q.identity_id) rows) rows
          (rows ++ row_of now (max_id rows + 1) QuarantineState.recommended q ∷ [])
          (max_id rows + 1) h.rows_valid
          (All-snoc (row_of now (max_id rows + 1) QuarantineState.recommended q) rows h.rows_valid
            (inl (refl, refl)));
  }

  close_count :
      (now : Text) (id : ℕ) (state : QuarantineState) (reason : Text) (rows : Table F)
      (identity : ℕ)
      → is_open state ≡ false
      → open_count identity (map (close_row now id state reason) rows) ≤ open_count identity rows
  unfolding close_row
  close_count now id state reason [] identity h = omega arith
  close_count now id state reason (r ∷ rs) identity h =
      ground (arith, close_count now id state reason rs identity h)

  close_row-RowIsValid :
      (now : Text) (id : ℕ) (state : QuarantineState) (reason : Text) (r : QuarantineRecord F)
      → is_open state ≡ false
      → RowIsValid r
      → RowIsValid (close_row now id state reason r)
  unfolding close_row
  close_row-RowIsValid now id state reason r h v =
      elim (Bool-cases (r.record_id == id && is_open r.state)) [
        | inl e ↦ rw e (inr (h, (λ q. cc), (λ q. cc)))
        | inr e ↦ rw e v
      ]

  close-rows :
      (now : Text) (id : ℕ) (state : QuarantineState) (reason : Text) (rows : Table F)
      → is_open state ≡ false
      → All RowIsValid rows
      → All RowIsValid (map (close_row now id state reason) rows)
  close-rows now id state reason [] h v = tt
  close-rows now id state reason (r ∷ rs) h (v, vs) =
      (close_row-RowIsValid now id state reason r h v, close-rows now id state reason rs h vs)

  close-IsValid :
      (now : Text) (id : ℕ) (state : QuarantineState) (reason : Text) (rows : Table F)
      → is_open state ≡ false
      → IsValid rows
      → IsValid (close now id state reason rows).0
  unfolding close
  close-IsValid now id state reason rows h v = record {
    one_open = λ identity.
        omega (arith, close_count now id state reason rows identity h, v.one_open identity);
    rows_valid = close-rows now id state reason rows h v.rows_valid;
  }

  close_all-IsValid :
      (now : Text) (rs rows : Table F) → IsValid rows → IsValid (close_all now rs rows)
  unfolding close_all
  close_all-IsValid now [] rows v = v
  close_all-IsValid now (r ∷ rs) rows v =
      close_all-IsValid now rs
        (close now r.record_id QuarantineState.expired (expiry_reason r) rows).0
        (close-IsValid now r.record_id QuarantineState.expired (expiry_reason r) rows refl v)

  expire-IsValid :
      (rt : Runtime F) (now : Text) (moment : ℕ) (rows : Table F)
      → IsValid rows
      → IsValid (expire_overdue rt now moment rows).0
  unfolding expire_overdue
  expire-IsValid rt now moment rows v =
      close_all-IsValid now (keep (has_expired rt moment) (list_quarantines true rows)) rows v

-- A recommendation that does not fail is an insert or nothing.
pub record_recommendation-insert :
    {F : Type 0} (test_ids : List ℕ) (now : Text) (state : QuarantineState)
    (q : QuarantineRecommendation F) (rows : Table F) (r : Table F × Option ℕ)
    → record_recommendation test_ids now state q rows ≡ some r
    → insert_recommendation now state q rows ≡ r
unfolding record_recommendation
record_recommendation-insert test_ids now state q rows r e =
    let stored = insert_recommendation now state q rows in
    elim (Bool-cases (is_none stored.1 || any (λ i. i == q.identity_id) test_ids)) [
      | inl h ↦
          let made : record_recommendation test_ids now state q rows ≡ some stored = rw h refl in
          some_unique made e
      | inr h ↦
          let refused : record_recommendation test_ids now state q rows ≡ none = rw h refl in
          cc (refused, e)
    ]

-- The operations that change the table.
pub data Step {F : Type 0} (rt : Runtime F) : Table F → Table F → Type 0 where
  recommend :
      (test_ids : List ℕ) (now : Text) (q : QuarantineRecommendation F) (rows : Table F)
      (r : Table F × Option ℕ)
      → record_recommendation test_ids now QuarantineState.recommended q rows ≡ some r
      → Step rt rows r.0
  expire :
      (now : Text) (moment : ℕ) (rows : Table F)
      → Step rt rows (expire_overdue rt now moment rows).0
  free :
      (now : Text) (id clean_runs : ℕ) (rows : Table F)
      → Step rt rows (release now id clean_runs rows).0

-- The tables that operations lead to from another one.
pub data Reach {F : Type 0} (rt : Runtime F) (s : Table F) : Table F → Type 0 where
  here : Reach rt s s
  next : {t u : Table F} → Reach rt s t → Step rt t u → Reach rt s u

module _ {F : Type 0} (rt : Runtime F) where
  Step-IsValid : {t u : Table F} → Step rt t u → IsValid t → IsValid u
  unfolding release
  Step-IsValid (recommend test_ids now q rows r e) v =
      subst (λ p. IsValid p.0)
        (record_recommendation-insert test_ids now QuarantineState.recommended q rows r e)
        (record-IsValid now q rows v)
  Step-IsValid (expire now moment rows) v = expire-IsValid rt now moment rows v
  Step-IsValid (free now id clean_runs rows) v =
      close-IsValid now id QuarantineState.released _ rows refl v

  -- From a valid table every sequence of recommendations, expiries and
  -- releases leads to a table in which no test has two open quarantines and every row is either
  -- open with no closing time, or closed with a closing time and a reason.
  pub Reach-IsValid : {s t : Table F} → IsValid s → Reach rt s t → IsValid t
  Reach-IsValid v here = v
  Reach-IsValid v (next r st) = Step-IsValid st (Reach-IsValid v r)
