-- ===== src/Policy/Records/Expiry.antt =====
-- `expire_overdue` of policy/records.py.
use netflix_flaky_test_triag.Base.{
  ℕ, ◌≡◌, refl, ap, ◌∙◌, Bool, true, false, ◌&&◌, [], ◌∷◌, Text, map, any, keep, All, Elem,
  any-sort_by, Elem-any, sort_by, ==_refl, ◌==◌, arith, Bool-cases, inl, inr,
}
use netflix_flaky_test_triag.Runtime.{Runtime}
use netflix_flaky_test_triag.Policy.Quarantine.{QuarantineState, is_open}
use netflix_flaky_test_triag.Policy.Records.{
  QuarantineRecord, Table, close_row, close, close_all, expire_overdue, expiry_reason, has_expired,
  list_quarantines, row_leb,
}

module _ {F : Type 0} where
  -- What the closes of a list of records do to one row.
  row_after : Text → Table F → QuarantineRecord F → QuarantineRecord F
  row_after now [] r = r
  row_after now (o ∷ os) r =
      row_after now os (close_row now o.record_id QuarantineState.expired (expiry_reason o) r)

  close_all-cons :
      (now : Text) (os : Table F) (r : QuarantineRecord F) (rs : Table F)
      → close_all now os (r ∷ rs) ≡ row_after now os r ∷ close_all now os rs
  unfolding close_all row_after close
  close_all-cons now [] r rs = refl
  close_all-cons now (o ∷ os) r rs =
      close_all-cons now os (close_row now o.record_id QuarantineState.expired (expiry_reason o) r)
        (map (close_row now o.record_id QuarantineState.expired (expiry_reason o)) rs)

  close_all-nil : (now : Text) (os : Table F) → close_all now os [] ≡ []
  unfolding close_all close
  close_all-nil now [] = refl
  close_all-nil now (o ∷ os) = close_all-nil now os

  -- A closed row stays, and an open one with a listed id is closed.
  row_after-closed :
      (now : Text) (os : Table F) (r : QuarantineRecord F)
      → is_open r.state ≡ false
      → row_after now os r ≡ r
  unfolding row_after close_row
  row_after-closed now [] r h = refl
  row_after-closed now (o ∷ os) r h = ground (arith, row_after-closed now os r h)

  close_row-same :
      (now : Text) (id : ℕ) (reason : Text) (r : QuarantineRecord F)
      → (r.record_id == id) ≡ true
      → is_open (close_row now id QuarantineState.expired reason r).state ≡ false
  unfolding close_row
  close_row-same now id reason r h = ground arith

  close_row-other :
      (now : Text) (id : ℕ) (reason : Text) (r : QuarantineRecord F)
      → (r.record_id == id) ≡ false
      → close_row now id QuarantineState.expired reason r ≡ r
  unfolding close_row
  close_row-other now id reason r h = ground arith

  row_after-listed :
      (now : Text) (os : Table F) (r : QuarantineRecord F)
      → any (λ o. r.record_id == o.record_id) os ≡ true
      → is_open (row_after now os r).state ≡ false
  unfolding row_after
  row_after-listed now [] r h = cc
  row_after-listed now (o ∷ os) r h = elim (Bool-cases (r.record_id == o.record_id)) [
    | inl e ↦
        let closed = close_row-same now o.record_id (expiry_reason o) r e in
        rw
          (row_after-closed now os
            (close_row now o.record_id QuarantineState.expired (expiry_reason o) r) closed)
          closed
    | inr e ↦
        ap (λ x. is_open (row_after now os x).state)
          (close_row-other now o.record_id (expiry_reason o) r e)
        ∙ row_after-listed now os r (ground arith)
  ]

  -- The closes leave the expiry of a row alone and open no row.
  row_after-keeps :
      (now : Text) (os : Table F) (r : QuarantineRecord F)
      → ((row_after now os r).expires_at ≡ r.expires_at)
        × (is_open (row_after now os r).state ≡ true → is_open r.state ≡ true)
  unfolding row_after close_row
  row_after-keeps now [] r = (refl, λ h. h)
  row_after-keeps now (o ∷ os) r =
      let (e, k) =
        row_after-keeps now os
          (close_row now o.record_id QuarantineState.expired (expiry_reason o) r) in
      (ground arith, λ h. ground (arith, k h))

  module _ (rt : Runtime F) (moment : ℕ) where
    abbrev Listed : Table F → QuarantineRecord F → Type 0
    Listed os r = has_expired rt moment r ≡ true → any (λ o. r.record_id == o.record_id) os ≡ true

    none_expired :
        (now : Text) (os rows : Table F)
        → All (Listed os) rows
        → any (has_expired rt moment) (close_all now os rows) ≡ false
    none_expired now os [] h = rw (close_all-nil now os)
    none_expired now os (r ∷ rs) (h, hs) = rw (close_all-cons now os r rs) (
        ground (
          arith,
          none_expired now os rs hs,
          row_after-listed now os r,
          row_after-keeps now os r,
          h,
        ))

    any-keep :
        (p q : QuarantineRecord F → Bool) (rs : Table F)
        → any q (keep p rs) ≡ any (λ r. p r && q r) rs
    any-keep p q [] = refl
    any-keep p q (r ∷ rs) = ground (arith, any-keep p q rs)

    Listed-All :
        (os rows : Table F)
        → ((r : QuarantineRecord F) → Elem r rows → Listed os r)
        → All (Listed os) rows
    Listed-All os [] h = tt
    Listed-All os (r ∷ rs) h = (h r (inl refl), Listed-All os rs (λ x m. h x (inr m)))

    overdue-Listed :
        (rows : Table F) (r : QuarantineRecord F)
        → Elem r rows
        → Listed (keep (has_expired rt moment) (list_quarantines true rows)) r
    unfolding list_quarantines
    overdue-Listed rows r m h =
        any-keep (has_expired rt moment) (λ o. r.record_id == o.record_id)
          (sort_by row_leb (keep (λ x. is_open x.state) rows))
        ∙ any-sort_by row_leb (λ o. has_expired rt moment o && r.record_id == o.record_id)
            (keep (λ x. is_open x.state) rows)
        ∙ any-keep (λ x. is_open x.state)
            (λ o. has_expired rt moment o && r.record_id == o.record_id) rows
        ∙ Elem-any (λ o. is_open o.state && (has_expired rt moment o && r.record_id == o.record_id))
            r rows m (ground (arith, ==_refl r.record_id))

    -- After `expire_overdue` at a moment, no quarantine of the table is both open and past its
    -- expiry at that moment, for every table.
    expire_overdue-none :
        (now : Text) (rows : Table F)
        → any (has_expired rt moment) (expire_overdue rt now moment rows).0 ≡ false
    unfolding expire_overdue
    expire_overdue-none now rows =
        let overdue = keep (has_expired rt moment) (list_quarantines true rows) in
        none_expired now overdue rows (Listed-All overdue rows (overdue-Listed rows))
