-- ===== src/Store/Aliases/Steps.antt =====
-- One turn of the loop of `identity_group` of store/repositories.py.
use netflix_flaky_test_triag.Base.{ℕ, ◌≡◌, ◌⊎◌, true, List, [], ◌∷◌, Elem, ==_refl, inl, inr, arith}
use netflix_flaky_test_triag.Store.Aliases.{AliasEdge, has_id, visit, visit_rows}

visit-seen : (y n : ℕ) (s : List ℕ × List ℕ) → has_id y s.0 ≡ true → has_id y (visit n s).0 ≡ true
visit-seen y n (seen, frontier) h = ground arith

visit-frontier :
    (y n : ℕ) (s : List ℕ × List ℕ) → has_id y s.1 ≡ true → has_id y (visit n s).1 ≡ true
visit-frontier y n (seen, frontier) h = ground arith

visit-new :
    (y n : ℕ) (s : List ℕ × List ℕ)
    → has_id y (visit n s).0 ≡ true
    → (has_id y s.0 ≡ true) ⊎ (has_id y (visit n s).1 ≡ true)
visit-new y n (seen, frontier) h = ground arith

visit_self : (n : ℕ) (s : List ℕ × List ℕ) → has_id n (visit n s).0 ≡ true
visit_self n (seen, frontier) = ground (arith, ==_refl n)

module _ {F : Type 0} where
  pub visit_rows-seen :
      (y : ℕ) (es : List (AliasEdge F)) (s : List ℕ × List ℕ)
      → has_id y s.0 ≡ true
      → has_id y (visit_rows es s).0 ≡ true
  unfolding visit_rows
  visit_rows-seen y [] s h = h
  visit_rows-seen y (e ∷ es) s h =
      visit_rows-seen y es (visit e.new_identity_id (visit e.old_identity_id s)) (
        visit-seen y e.new_identity_id (visit e.old_identity_id s)
          (visit-seen y e.old_identity_id s h))

  pub visit_rows-frontier :
      (y : ℕ) (es : List (AliasEdge F)) (s : List ℕ × List ℕ)
      → has_id y s.1 ≡ true
      → has_id y (visit_rows es s).1 ≡ true
  unfolding visit_rows
  visit_rows-frontier y [] s h = h
  visit_rows-frontier y (e ∷ es) s h =
      visit_rows-frontier y es (visit e.new_identity_id (visit e.old_identity_id s)) (
        visit-frontier y e.new_identity_id (visit e.old_identity_id s)
          (visit-frontier y e.old_identity_id s h))

  pub visit_rows-new :
      (y : ℕ) (es : List (AliasEdge F)) (s : List ℕ × List ℕ)
      → has_id y (visit_rows es s).0 ≡ true
      → (has_id y s.0 ≡ true) ⊎ (has_id y (visit_rows es s).1 ≡ true)
  unfolding visit_rows
  visit_rows-new y [] s h = inl h
  visit_rows-new y (e ∷ es) s h =
      let one = visit e.old_identity_id s in
      let two = visit e.new_identity_id one in
      elim (visit_rows-new y es two h) [
        | inr f ↦ inr f
        | inl t ↦ elim (visit-new y e.new_identity_id one t) [
          | inr f ↦ inr (visit_rows-frontier y es two f)
          | inl o ↦ elim (visit-new y e.old_identity_id s o) [
            | inl k ↦ inl k
            | inr f ↦ inr (visit_rows-frontier y es two (visit-frontier y e.new_identity_id one f))
          ]
        ]
      ]

  pub visit_rows-ends :
      (e : AliasEdge F) (es : List (AliasEdge F)) (s : List ℕ × List ℕ)
      → Elem e es
      → (has_id e.old_identity_id (visit_rows es s).0 ≡ true)
        × (has_id e.new_identity_id (visit_rows es s).0 ≡ true)
  unfolding visit_rows
  visit_rows-ends e [] s m = elim m [ ]
  visit_rows-ends e (d ∷ es) s (inl same) =
      let one = visit d.old_identity_id s in
      let two = visit d.new_identity_id one in
      let old =
        visit_rows-seen d.old_identity_id es two
          (visit-seen d.old_identity_id d.new_identity_id one (visit_self d.old_identity_id s)) in
      let new = visit_rows-seen d.new_identity_id es two (visit_self d.new_identity_id one) in
      rw same (old, new)
  visit_rows-ends e (d ∷ es) s (inr m) =
      visit_rows-ends e es (visit d.new_identity_id (visit d.old_identity_id s)) m
