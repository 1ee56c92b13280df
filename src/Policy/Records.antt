-- ===== src/Policy/Records.antt =====
-- policy/records.py and the table `quarantines` of store/schema.py: the stored quarantines and their
-- lifecycle. The table is the list of its rows in order of insertion; the partial unique index on
-- the open rows of an identity is the conflict test of `insert_recommendation`.
pub mod Invariant
pub mod Expiry
pub mod Closing
use netflix_flaky_test_triag.Base.{
  ℕ, ◌+◌, ◌≡◌, Bool, true, false, ◌&&◌, ◌||◌, not, Option, none, some, List, [], ◌∷◌, ◌++◌, Text,
  ◌>>=◌, codes, max, map, any, keep, length, leb, ◌==◌, sort_by, take, decimal, text_eq, text_leb,
  is_empty, if◌then◌else◌,
}
use netflix_flaky_test_triag.Runtime.{Runtime}
use netflix_flaky_test_triag.Models.Enums.{CauseCode}
use netflix_flaky_test_triag.Policy.Owners.{OwnerSource}
use netflix_flaky_test_triag.Policy.Quarantine.{
  QuarantineState, RefusalReason, QuarantineRecommendation, is_open, is_expired, is_expiring,
}

pub record QuarantineRecord (F : Type 0) : Type 0 where
  pub record_id : ℕ
  pub identity_id : ℕ
  pub state : QuarantineState
  pub cause : CauseCode
  pub reason : Text
  pub flake_rate : F
  pub observations : ℕ
  pub owner : Text
  pub owner_source : OwnerSource
  pub ttl_days : ℕ
  pub clean_runs_required : ℕ
  pub created_at : Text
  pub expires_at : Text
  pub closed_at : Option Text
  pub close_reason : Option Text

abbrev pub Table : Type 0 → Type 0
Table F = List (QuarantineRecord F)

-- `RefusalReason.value`
refusal_text : RefusalReason → Text
refusal_text RefusalReason.no_refusal = codes "none"
refusal_text RefusalReason.flake_rate_below_threshold = codes "flake_rate_below_threshold"
refusal_text RefusalReason.insufficient_observations = codes "insufficient_observations"
refusal_text RefusalReason.cause_is_regression = codes "cause_is_regression"
refusal_text RefusalReason.cause_is_infra = codes "cause_is_infra"
refusal_text RefusalReason.verdict_ineligible = codes "verdict_ineligible"
refusal_text RefusalReason.already_quarantined = codes "already_quarantined"
refusal_text RefusalReason.not_flaky = codes "not_flaky"

-- `QuarantineRecommendation.summary`
unfoldable pub summary : {F : Type 0} → QuarantineRecommendation F → Text
unfolding refusal_text
summary q =
    let owner = if is_empty q.owner then codes "unresolved" else q.owner in
    if not q.is_recommended
    then codes "not recommended (" ++ refusal_text q.refusal ++ codes ")"
    else codes "quarantine "
      ++ q.test
      ++ codes " until "
      ++ take 10 q.expires_at
      ++ codes " (owner "
      ++ owner
      ++ codes ", releases after "
      ++ decimal q.clean_runs_required
      ++ codes " clean runs)"

abbrev pub is_none : {A : Type 0} → Option A → Bool
is_none none = true
is_none (some a) = false

module _ {F : Type 0} where
  -- The row id that SQLite gives next: one above the largest.
  max_id : Table F → ℕ
  max_id [] = 0
  max_id (r ∷ rs) = if leb r.record_id (max_id rs) then max_id rs else r.record_id

  -- `state IN ('recommended', 'active')` for one identity.
  abbrev pub open_of : ℕ → QuarantineRecord F → Bool
  open_of identity r = is_open r.state && r.identity_id == identity

  unfoldable pub row_of :
      Text → ℕ → QuarantineState → QuarantineRecommendation F → QuarantineRecord F
  unfolding summary
  row_of now id state q = record {
    record_id = id;
    identity_id = q.identity_id;
    state = state;
    cause = q.cause;
    reason = summary q;
    flake_rate = q.flake_rate;
    observations = q.observations;
    owner = q.owner;
    owner_source = q.owner_source;
    ttl_days = q.ttl_days;
    clean_runs_required = q.clean_runs_required;
    created_at = now;
    expires_at = q.expires_at;
    closed_at = none;
    close_reason = none;
  }

  -- What `record_recommendation` does for a test that the store has: the new table, and the row id
  -- unless nothing was stored.
  unfoldable pub insert_recommendation :
      Text → QuarantineState → QuarantineRecommendation F → Table F → Table F × Option ℕ
  unfolding max_id row_of
  insert_recommendation now state q rows =
      let id = max_id rows + 1 in
      if not q.is_recommended
      then (rows, none)
      else if is_open state && any (open_of q.identity_id) rows
      then (rows, none)
      else (rows ++ row_of now id state q ∷ [], some id)

  -- `record_recommendation`, in a store with some tests; none if a row would refer to another test.
  unfoldable pub record_recommendation :
      List ℕ
      → Text
      → QuarantineState
      → QuarantineRecommendation F
      → Table F
      → Option (Table F × Option ℕ)
  unfolding insert_recommendation
  record_recommendation test_ids now state q rows =
      let stored = insert_recommendation now state q rows in
      if is_none stored.1 || any (λ i. i == q.identity_id) test_ids then some stored else none

  -- `SELECT DISTINCT identity_id ... WHERE state IN (...)`, as a test of membership.
  unfoldable pub in_open_ids : ℕ → Table F → Bool
  in_open_ids identity rows = any (open_of identity) rows

  -- `ORDER BY expires_at, id`
  row_leb : QuarantineRecord F → QuarantineRecord F → Bool
  row_leb r s =
      if text_eq r.expires_at s.expires_at
      then leb r.record_id s.record_id
      else text_leb r.expires_at s.expires_at

  -- `list_quarantines`
  unfoldable pub list_quarantines : Bool → Table F → List (QuarantineRecord F)
  unfolding row_leb
  list_quarantines open_only rows =
      sort_by row_leb (if open_only then keep (λ r. is_open r.state) rows else rows)

  -- The `UPDATE` of `close` at one row.
  unfoldable pub close_row :
      Text → ℕ → QuarantineState → Text → QuarantineRecord F → QuarantineRecord F
  close_row now id state reason r =
      if r.record_id == id && is_open r.state
      then record r { state = state; closed_at = some now; close_reason = some reason }
      else r

  -- `close`: the new table, and whether a row was open.
  unfoldable pub close : Text → ℕ → QuarantineState → Text → Table F → Table F × Bool
  unfolding close_row
  close now id state reason rows = (
    map (close_row now id state reason) rows,
    any (λ r. r.record_id == id && is_open r.state) rows,
  )

  expiry_reason : QuarantineRecord F → Text
  expiry_reason r =
      codes "ttl of " ++ decimal r.ttl_days ++ codes " day(s) elapsed while still unstable"

  -- The loop of `expire_overdue`.
  close_all : Text → List (QuarantineRecord F) → Table F → Table F
  unfolding expiry_reason
  close_all now [] rows = rows
  close_all now (r ∷ rs) rows =
      close_all now rs (close now r.record_id QuarantineState.expired (expiry_reason r) rows).0

  -- `QuarantineRecord.expired`
  abbrev pub has_expired : Runtime F → ℕ → QuarantineRecord F → Bool
  has_expired rt moment r = is_open r.state && is_expired rt r.expires_at moment

  -- `QuarantineRecord.expiring`
  unfoldable pub expiring : Runtime F → ℕ → ℕ → QuarantineRecord F → Bool
  expiring rt within_days moment r =
      is_open r.state && is_expiring rt r.expires_at within_days moment

  -- `expire_overdue`: the new table and the records that were expired.
  unfoldable pub expire_overdue :
      Runtime F → Text → ℕ → Table F → Table F × List (QuarantineRecord F)
  unfolding close_all list_quarantines
  expire_overdue rt now moment rows =
      let overdue = keep (has_expired rt moment) (list_quarantines true rows) in
      (close_all now overdue rows, overdue)

  -- `QuarantineStore.record`: the new table and the number of rows stored, one transaction.
  record_from :
      List ℕ → Text → List (QuarantineRecommendation F) → Table F × ℕ → Option (Table F × ℕ)
  unfolding record_recommendation
  record_from test_ids now [] s = some s
  record_from test_ids now (q ∷ qs) (rows, n) = do
    (next, id) ← record_recommendation test_ids now QuarantineState.recommended q rows
    record_from test_ids now qs (next, elim id [ none ↦ n | some _ ↦ n + 1 ])

  unfoldable pub record_all :
      List ℕ → Text → List (QuarantineRecommendation F) → Table F → Option (Table F × ℕ)
  unfolding record_from
  record_all test_ids now qs rows = record_from test_ids now qs (rows, 0)

  -- `QuarantineStore.release`
  unfoldable pub release : Text → ℕ → ℕ → Table F → Table F × Bool
  unfolding close
  release now id clean_runs rows =
      close now id QuarantineState.released
        (decimal clean_runs ++ codes " consecutive clean execution(s)") rows
