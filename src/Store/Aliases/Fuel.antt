-- ===== src/Store/Aliases/Fuel.antt =====
-- The turns of the loop of `identity_group` of store/repositories.py.
use netflix_flaky_test_triag.Base.{
  ℕ, ◌+◌, ◌*◌, ◌≤◌, ◌≡◌, true, false, List, [], ◌∷◌, All, Elem, sum_of, length, ==→eq, ==_refl,
  if◌then◌else◌, inl, inr, arith, Bool-cases,
}
use netflix_flaky_test_triag.Store.Aliases.{AliasEdge, has_id, touches_id, visit, visit_rows}

abbrev pub absent : ℕ → List ℕ → ℕ
absent x seen = if has_id x seen then 0 else 1

module _ {F : Type 0} where
  -- How many ends of edges are not seen.
  abbrev pub unseen : List (AliasEdge F) → List ℕ → ℕ
  unseen es seen = sum_of (λ e. absent e.old_identity_id seen + absent e.new_identity_id seen) es

  pub unseen_all : (es : List (AliasEdge F)) (seen : List ℕ) → unseen es seen ≤ 2 * length es
  unseen_all [] seen = omega arith
  unseen_all (e ∷ es) seen = ground (arith, unseen_all es seen)

  unseen_mono :
      (n : ℕ) (es : List (AliasEdge F)) (seen : List ℕ) → unseen es (n ∷ seen) ≤ unseen es seen
  unseen_mono n [] seen = omega arith
  unseen_mono n (e ∷ es) seen = ground (arith, unseen_mono n es seen)

  unseen_less :
      (n : ℕ) (e : AliasEdge F) (es : List (AliasEdge F)) (seen : List ℕ)
      → Elem e es
      → touches_id n e ≡ true
      → has_id n seen ≡ false
      → unseen es (n ∷ seen) + 1 ≤ unseen es seen
  unseen_less n e [] seen m t h = elim m [ ]
  unseen_less n e (d ∷ es) seen (inl same) t h =
      let touched : touches_id n d ≡ true = rw⁻¹ same t in
      ground (
        arith,
        unseen_mono n es seen,
        ==→eq d.old_identity_id n,
        ==→eq d.new_identity_id n,
        ==_refl n,
        touched,
      )
  unseen_less n e (d ∷ es) seen (inr m) t h = ground (arith, unseen_less n e es seen m t h)

  visit_within :
      (n : ℕ) (e : AliasEdge F) (edges : List (AliasEdge F)) (s : List ℕ × List ℕ)
      → Elem e edges
      → touches_id n e ≡ true
      → length (visit n s).1 + unseen edges (visit n s).0 ≤ length s.1 + unseen edges s.0
  visit_within n e edges (seen, frontier) m t = elim (Bool-cases (has_id n seen)) [
    | inl h ↦ rw h (omega arith)
    | inr h ↦ rw h (omega (arith, unseen_less n e edges seen m t h))
  ]

  -- A visit of rows of the table adds to the frontier no more than it takes from what is unseen.
  pub visit_rows_within :
      (edges rows : List (AliasEdge F)) (s : List ℕ × List ℕ)
      → All (λ e. Elem e edges) rows
      → length (visit_rows rows s).1 + unseen edges (visit_rows rows s).0
        ≤ length s.1 + unseen edges s.0
  unfolding visit_rows
  visit_rows_within edges [] s h = omega arith
  visit_rows_within edges (e ∷ es) s (m, h) =
      let one = visit e.old_identity_id s in
      let first =
        visit_within e.old_identity_id e edges s m (ground (arith, ==_refl e.old_identity_id)) in
      let second =
        visit_within e.new_identity_id e edges one m (ground (arith, ==_refl e.new_identity_id)) in
      let rest = visit_rows_within edges es (visit e.new_identity_id one) h in
      omega (arith, first, second, rest)
