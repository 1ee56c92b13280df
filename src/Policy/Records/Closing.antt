-- ===== src/Policy/Records/Closing.antt =====
-- Repeated recommendations and closed rows of the table of policy/records.py.
use mathlib.Core.Path.{subst}
use netflix_flaky_test_triag.Base.{
  ℕ, ◌+◌, ◌≡◌, true, false, none, [], ◌∷◌, ◌++◌, Text, any, keep, Elem, any-append, ==_refl, arith,
  inl, inr,
}
use netflix_flaky_test_triag.Runtime.{Runtime}
use netflix_flaky_test_triag.Policy.Quarantine.{QuarantineState, QuarantineRecommendation, is_open}
use netflix_flaky_test_triag.Policy.Records.{
  QuarantineRecord, Table, open_of, row_of, insert_recommendation, close, close_all, expire_overdue,
  release, max_id, expiry_reason, has_expired, list_quarantines,
}
use netflix_flaky_test_triag.Policy.Records.Invariant.{
  record_recommendation-insert, Step, recommend, expire, free, Reach, here, next,
}

module _ {F : Type 0} where
  open_after_record :
      (now : Text) (q : QuarantineRecommendation F) (rows : Table F)
      → q.is_recommended ≡ true
      → any (open_of q.identity_id) (insert_recommendation now QuarantineState.recommended q rows).0
        ≡ true
  unfolding insert_recommendation
  open_after_record now q rows h = ground (
    arith,
    any-append (open_of q.identity_id) rows
        (row_of now (max_id rows + 1) QuarantineState.recommended q ∷ []),
    ==_refl q.identity_id,
  )

  blocked :
      (now : Text) (q : QuarantineRecommendation F) (rows : Table F)
      → any (open_of q.identity_id) rows ≡ true
      → insert_recommendation now QuarantineState.recommended q rows ≡ (rows, none)
  unfolding insert_recommendation
  blocked now q rows h = ground arith

  -- Recommending a test again while its quarantine is open stores nothing: after any recommended
  -- quarantine was offered to any table, offering it a second time returns no id and leaves the
  -- table as it is.
  insert_recommendation_twice :
      (now later : Text) (q : QuarantineRecommendation F) (rows : Table F)
      → q.is_recommended ≡ true
      → let rows' = (insert_recommendation now QuarantineState.recommended q rows).0 in
        insert_recommendation later QuarantineState.recommended q rows' ≡ (rows', none)
  insert_recommendation_twice now later q rows h =
      blocked later q (insert_recommendation now QuarantineState.recommended q rows).0
        (open_after_record now q rows h)

  Elem-append : (r : QuarantineRecord F) (xs ys : Table F) → Elem r xs → Elem r (xs ++ ys)
  Elem-append r [] ys m = elim m [ ]
  Elem-append r (x ∷ xs) ys (inl e) = inl e
  Elem-append r (x ∷ xs) ys (inr m) = inr (Elem-append r xs ys m)

  stays_closed :
      (now : Text) (id : ℕ) (state : QuarantineState) (reason : Text) (r : QuarantineRecord F)
      (rows : Table F)
      → is_open r.state ≡ false
      → Elem r rows
      → Elem r (close now id state reason rows).0
  unfolding close
  stays_closed now id state reason r [] h m = elim m [ ]
  stays_closed now id state reason r (x ∷ xs) h (inl e) = inl (ground arith)
  stays_closed now id state reason r (x ∷ xs) h (inr m) =
      inr (stays_closed now id state reason r xs h m)

  stays_after_all :
      (now : Text) (os : Table F) (r : QuarantineRecord F) (rows : Table F)
      → is_open r.state ≡ false
      → Elem r rows
      → Elem r (close_all now os rows)
  unfolding close_all
  stays_after_all now [] r rows h m = m
  stays_after_all now (o ∷ os) r rows h m =
      stays_after_all now os r
        (close now o.record_id QuarantineState.expired (expiry_reason o) rows).0 h
        (stays_closed now o.record_id QuarantineState.expired (expiry_reason o) r rows h m)

  stays_recorded :
      (now : Text) (q : QuarantineRecommendation F) (r : QuarantineRecord F) (rows : Table F)
      → Elem r rows
      → Elem r (insert_recommendation now QuarantineState.recommended q rows).0
  unfolding insert_recommendation
  stays_recorded now q r rows m = ground (
    arith,
    Elem-append r rows (row_of now (max_id rows + 1) QuarantineState.recommended q ∷ []) m,
  )

  Step-closed :
      (rt : Runtime F) {s t : Table F} (r : QuarantineRecord F)
      → is_open r.state ≡ false
      → Step rt s t
      → Elem r s
      → Elem r t
  unfolding expire_overdue release
  Step-closed rt r h (recommend test_ids now q rows s e) m =
      subst (λ p. Elem r p.0)
        (record_recommendation-insert test_ids now QuarantineState.recommended q rows s e)
        (stays_recorded now q r rows m)
  Step-closed rt r h (expire now moment rows) m =
      stays_after_all now (keep (has_expired rt moment) (list_quarantines true rows)) r rows h m
  Step-closed rt r h (free now id clean_runs rows) m =
      stays_closed now id QuarantineState.released _ r rows h m

  -- A closed quarantine is final: a row that is not open is in every table that recommendations,
  -- expiries and releases lead to, unchanged.
  pub closed_final :
      (rt : Runtime F) {s t : Table F} (r : QuarantineRecord F)
      → Elem r s
      → is_open r.state ≡ false
      → Reach rt s t
      → Elem r t
  closed_final rt r m h here = m
  closed_final rt r m h (next w st) = Step-closed rt r h st (closed_final rt r m h w)
