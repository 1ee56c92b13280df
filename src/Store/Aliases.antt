-- ===== src/Store/Aliases.antt =====
-- store/repositories.py: alias edges between identities, and the group of one logical test.
use netflix_flaky_test_triag.Base.{
  ℕ, zero, suc, ◌+◌, ◌*◌, Bool, true, false, ◌&&◌, ◌||◌, not, Option, List, [], ◌∷◌, ◌++◌, any,
  keep, length, leb, ◌==◌, if◌then◌else◌, sort_by,
}
pub mod Closure
pub mod Steps
pub mod Fuel
pub mod Least

-- A row of `identity_aliases`, with the similarity as a float of type `F`.
pub record AliasEdge (F : Type 0) : Type 0 where
  pub old_identity_id : ℕ
  pub new_identity_id : ℕ
  pub similarity : F
  pub certain : Bool

pub record IdentityGroup : Type 0 where
  pub identity_ids : List ℕ
  pub merged_uncertain : Bool

-- Membership in a set of ids.
abbrev pub has_id : ℕ → List ℕ → Bool
has_id id ids = any (λ k. k == id) ids

abbrev pub touches_id : {F : Type 0} → ℕ → AliasEdge F → Bool
touches_id id e = e.old_identity_id == id || e.new_identity_id == id

-- One neighbour: into `seen` and on top of `frontier`, unless it is there.
abbrev pub visit : ℕ → List ℕ × List ℕ → List ℕ × List ℕ
visit n (seen, frontier) = if has_id n seen then (seen, frontier) else (n ∷ seen, n ∷ frontier)

-- The loop over the rows that touch the current identity.
unfoldable pub visit_rows : {F : Type 0} → List (AliasEdge F) → List ℕ × List ℕ → List ℕ × List ℕ
visit_rows [] s = s
visit_rows (e ∷ es) s = visit_rows es (visit e.new_identity_id (visit e.old_identity_id s))

module _ {F : Type 0} (edges : List (AliasEdge F)) where
  -- The loop over the frontier, a stack whose top is its first element.
  unfoldable pub walk : ℕ → List ℕ → List ℕ → Bool → List ℕ × Bool
  walk zero seen frontier uncertain = (seen, uncertain)
  walk (suc fuel) seen [] uncertain = (seen, uncertain)
  walk (suc fuel) seen (current ∷ frontier) uncertain =
      let rows = keep (touches_id current) edges in
      let next = visit_rows rows (seen, frontier) in
      walk fuel next.0 next.1 (uncertain || any (λ e. not e.certain) rows)

  -- `RunStore.identity_group`: an identity enters the frontier once, so twice the number of edges
  -- and one more turns are enough.
  unfoldable pub identity_group : ℕ → IdentityGroup
  identity_group id =
      let (seen, uncertain) = walk (suc (2 * length edges)) (id ∷ []) (id ∷ []) false in
      record { identity_ids = sort_by leb seen; merged_uncertain = uncertain }

-- The edge is in the table.
abbrev pub has_edge : {F : Type 0} → ℕ → ℕ → List (AliasEdge F) → Bool
has_edge old new edges = any (λ e. e.old_identity_id == old && e.new_identity_id == new) edges

module _ {F : Type 0} (max_of : F → F → F) where
  -- The statement of `RunStore.record_alias`, with references that hold: the edge, or the better of the old evidence and the new. SQLite
  -- counts an updated row as it counts an inserted one, so the answer is the same for both.
  unfoldable pub upsert_alias : ℕ → ℕ → F → Bool → List (AliasEdge F) → List (AliasEdge F) × Bool
  upsert_alias old new similarity certain [] = (
    record {
      old_identity_id = old;
      new_identity_id = new;
      similarity = similarity;
      certain = certain;
    }
        ∷ [],
    true,
  )
  upsert_alias old new similarity certain (e ∷ es) =
      let rest = upsert_alias old new similarity certain es in
      if e.old_identity_id == old && e.new_identity_id == new
      then (
        record e { certain = e.certain || certain; similarity = max_of e.similarity similarity }
            ∷ es,
        true,
      )
      else (e ∷ rest.0, rest.1)
