-- ===== src/Identity/Reconcile.antt =====
-- identity/reconcile.py: rename detection between one run and everything before it.
pub mod Kept
use netflix_flaky_test_triag.Base.{
  ℕ, Bool, true, false, not, Option, none, some, List, [], ◌∷◌, ◌++◌, map, Text, codes, keep, leb,
  length, count_of, is_empty, sort_by, if◌then◌else◌,
}
use netflix_flaky_test_triag.Runtime.{Runtime}
use netflix_flaky_test_triag.Config.{IdentityConfig}
use netflix_flaky_test_triag.Models.Records.{TestIdentity, display_name}
use netflix_flaky_test_triag.Identity.Alias.{AliasCandidate, detect_renames}
use netflix_flaky_test_triag.Store.Aliases.{has_id, upsert_alias}
use netflix_flaky_test_triag.Store.Reads.{identity_by_id}
use netflix_flaky_test_triag.Store.Tables.{Database}
use netflix_flaky_test_triag.Store.Lookups.{
  identity_ids_for_run, identities_before_run, identity_id_by_fingerprint, joined_view,
}

abbrev known_identity : Option TestIdentity → List TestIdentity → List TestIdentity
known_identity none rest = rest
known_identity (some identity) rest = identity ∷ rest

unfoldable pub disappeared_from : List ℕ → List (ℕ × TestIdentity) → List TestIdentity
disappeared_from current previous = map (λ p. p.1) (keep (λ p. not (has_id p.0 current)) previous)

unfoldable pub appeared_ids : List ℕ → List (ℕ × TestIdentity) → List ℕ
appeared_ids current previous =
    let previous_ids = map (λ p. p.0) previous in
    sort_by leb (keep (λ id. not (has_id id previous_ids)) current)

module _ {F : Type 0} where
  -- `ReconcileResult.recorded`
  abbrev pub recorded : List (AliasCandidate F) → ℕ
  recorded = length

  -- `ReconcileResult.uncertain`
  abbrev pub uncertain : List (AliasCandidate F) → ℕ
  uncertain = count_of (λ c. not c.certain)

  -- The identities of the ids that are found.
  unfoldable pub identities_of : Database F → List ℕ → List TestIdentity
  identities_of db [] = []
  identities_of db (id ∷ ids) =
      known_identity (identity_by_id (joined_view db) id) (identities_of db ids)

module _ {F : Type 0} (rt : Runtime F) where
  -- `MAX` of two columns.
  abbrev pub max_of : F → F → F
  max_of a b = if rt.le a b then b else a

  -- `AliasCandidate.similarity`
  abbrev pub similarity : AliasCandidate F → F
  similarity c = rt.sub (rt.of_nat 1) c.distance

  -- The state of the loop over the candidates.
  abbrev pub Recording : Type 0
  Recording = Database F × List (AliasCandidate F)

  -- One candidate, by the ids that its fingerprints have; they are ids of rows, and the run is one
  -- that was recorded, so no reference of the edge fails.
  abbrev pub record_candidate : AliasCandidate F → Option ℕ → Option ℕ → Recording → Recording
  record_candidate c (some old) (some new) (db, recorded) = (
    record db {
      identity_aliases =
          (upsert_alias max_of old new (similarity c) c.certain db.identity_aliases).0;
    },
    recorded ++ c ∷ [],
  )
  record_candidate c _ _ s = s

  unfoldable pub record_candidates : List (AliasCandidate F) → Recording → Recording
  record_candidates [] s = s
  record_candidates (c ∷ cs) s = record_candidates cs (
      record_candidate c (identity_id_by_fingerprint s.0 c.old_fingerprint)
        (identity_id_by_fingerprint s.0 c.new_fingerprint) s)

  -- `reconcile_renames`
  unfoldable pub reconcile_renames :
      IdentityConfig F → ℕ → Database F → Database F × List (AliasCandidate F)
  unfolding record_candidates identities_of disappeared_from appeared_ids
  reconcile_renames config run_pk db =
      let current = identity_ids_for_run db run_pk in
      let previous = identities_before_run db run_pk in
      let candidates =
        detect_renames rt config (disappeared_from current previous)
          (identities_of db (appeared_ids current previous)) in
      if is_empty current then (db, []) else record_candidates candidates (db, [])

  -- `describe`
  unfoldable pub describe : AliasCandidate F → TestIdentity → TestIdentity → Text
  describe c old new =
      display_name old
      ++ codes " -> "
      ++ display_name new
      ++ (if c.certain then [] else codes " (merged_uncertain)")
