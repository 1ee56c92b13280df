-- ===== src/Store/Aliases/Closure.antt =====
-- `identity_group` of store/repositories.py and the edges at its members.
use netflix_flaky_test_triag.Base.{
  ℕ, zero, suc, ◌+◌, ◌*◌, ◌≤◌, ◌≡◌, ◌⊎◌, ◌∙◌, sym, refl, Bool, true, false, ◌||◌, not, List, [],
  ◌∷◌, any, keep, All, Elem, length, ◌==◌, ==→eq, ==_refl, leb, sort_by, any-sort_by, inl, inr,
  arith, Bool-cases,
}
use netflix_flaky_test_triag.Store.Aliases.{
  AliasEdge, has_id, touches_id, visit_rows, walk, identity_group,
}
use netflix_flaky_test_triag.Store.Aliases.Steps.{
  visit_rows-seen, visit_rows-frontier, visit_rows-new, visit_rows-ends,
}
use netflix_flaky_test_triag.Store.Aliases.Fuel.{unseen, unseen_all, visit_rows_within}

module _ {F : Type 0} where
  keep-within :
      (p : AliasEdge F → Bool) (edges es : List (AliasEdge F))
      → All (λ e. Elem e edges) es
      → All (λ e. Elem e edges) (keep p es)
  keep-within p edges [] h = tt
  keep-within p edges (e ∷ es) (m, h) = elim (Bool-cases (p e)) [
    | inl q ↦ rw q (m, keep-within p edges es h)
    | inr q ↦ rw q (keep-within p edges es h)
  ]

  All-within :
      (before es : List (AliasEdge F))
      → ((e : AliasEdge F) → Elem e es → Elem e before)
      → All (λ e. Elem e before) es
  All-within before [] h = tt
  All-within before (e ∷ es) h = (h e (inl refl), All-within before es (λ d m. h d (inr m)))

  Elem-keep :
      (p : AliasEdge F → Bool) (e : AliasEdge F) (es : List (AliasEdge F))
      → Elem e es
      → p e ≡ true
      → Elem e (keep p es)
  Elem-keep p e [] m h = elim m [ ]
  Elem-keep p e (d ∷ es) (inl same) h = let q : p d ≡ true = rw⁻¹ same h in rw q (inl same)
  Elem-keep p e (d ∷ es) (inr m) h = elim (Bool-cases (p d)) [
    | inl q ↦ rw q (inr (Elem-keep p e es m h))
    | inr q ↦ rw q (Elem-keep p e es m h)
  ]

  module _ (edges : List (AliasEdge F)) where
    -- Both ends of every edge at an identity are seen.
    abbrev IsSettled : ℕ → List ℕ → Type 0
    IsSettled x seen =
        (e : AliasEdge F)
        → Elem e edges
        → touches_id x e ≡ true
        → (has_id e.old_identity_id seen ≡ true) × (has_id e.new_identity_id seen ≡ true)

    -- What the walk keeps: each identity seen is settled or still in the frontier.
    abbrev IsWalk : List ℕ → List ℕ → Type 0
    IsWalk seen frontier =
        (x : ℕ) → has_id x seen ≡ true → (has_id x frontier ≡ true) ⊎ IsSettled x seen

    step-IsWalk :
        (current : ℕ) (seen frontier : List ℕ)
        → IsWalk seen (current ∷ frontier)
        → let next = visit_rows (keep (touches_id current) edges) (seen, frontier) in
          IsWalk next.0 next.1
    step-IsWalk current seen frontier w x h =
        let rows = keep (touches_id current) edges in
        let later : (y : ℕ)
            → has_id y seen ≡ true
            → has_id y (visit_rows rows (seen, frontier)).0 ≡ true =
          λ y k. visit_rows-seen y rows (seen, frontier) k in
        elim (visit_rows-new x rows (seen, frontier) h) [
          | inr f ↦ inl f
          | inl k ↦ elim (w x k) [
            | inr settled ↦ inr (λ e m t.
                let (o, n) = settled e m t in
                (later e.old_identity_id o, later e.new_identity_id n))
            | inl f ↦ elim (Bool-cases (current == x)) [
              | inl same ↦ inr (λ e m t.
                  visit_rows-ends e rows (seen, frontier)
                    (Elem-keep (touches_id current) e edges m (rw (==→eq current x same) t)))
              | inr other ↦
                  inl (visit_rows-frontier x rows (seen, frontier) (ground (arith, f, other)))
            ]
          ]
        ]

    walk-IsSettled :
        (fuel : ℕ) (seen frontier : List ℕ) (uncertain : Bool)
        → length frontier + unseen edges seen ≤ fuel
        → IsWalk seen frontier
        → (x : ℕ) → has_id x (walk edges fuel seen frontier uncertain).0 ≡ true
        → IsSettled x (walk edges fuel seen frontier uncertain).0
    unfolding walk
    walk-IsSettled zero seen [] uncertain f w x h = elim (w x h) [ inl k ↦ cc | inr s ↦ s ]
    walk-IsSettled zero seen (c ∷ frontier) uncertain f w x h = ground (arith, f)
    walk-IsSettled (suc fuel) seen [] uncertain f w x h = elim (w x h) [ inl k ↦ cc | inr s ↦ s ]
    walk-IsSettled (suc fuel) seen (c ∷ frontier) uncertain f w x h =
        let rows = keep (touches_id c) edges in
        let next = visit_rows rows (seen, frontier) in
        let within =
          visit_rows_within edges rows (seen, frontier)
            (keep-within (touches_id c) edges edges (All-within edges edges (λ e m. m))) in
        walk-IsSettled fuel next.0 next.1 (uncertain || any (λ e. not e.certain) rows)
          (omega (arith, within, f)) (step-IsWalk c seen frontier w) x h

    walk-seen :
        (fuel : ℕ) (seen frontier : List ℕ) (uncertain : Bool) (x : ℕ)
        → has_id x seen ≡ true
        → has_id x (walk edges fuel seen frontier uncertain).0 ≡ true
    unfolding walk
    walk-seen zero seen frontier uncertain x h = h
    walk-seen (suc fuel) seen [] uncertain x h = h
    walk-seen (suc fuel) seen (c ∷ frontier) uncertain x h =
        let rows = keep (touches_id c) edges in
        let next = visit_rows rows (seen, frontier) in
        walk-seen fuel next.0 next.1 (uncertain || any (λ e. not e.certain) rows) x
          (visit_rows-seen x rows (seen, frontier) h)

    both :
        (seen : List ℕ) (e : AliasEdge F)
        → ((x : ℕ)
            → has_id x seen ≡ true
            → touches_id x e ≡ true
            → (has_id e.old_identity_id seen ≡ true) × (has_id e.new_identity_id seen ≡ true))
        → has_id e.old_identity_id seen ≡ has_id e.new_identity_id seen
    both seen e s = elim (Bool-cases (has_id e.old_identity_id seen)) [
      | inl o ↦ o ∙ sym (s e.old_identity_id o (ground (arith, ==_refl e.old_identity_id))).1
      | inr o ↦ elim (Bool-cases (has_id e.new_identity_id seen)) [
        | inr n ↦ o ∙ sym n
        | inl n ↦ (s e.new_identity_id n (ground (arith, ==_refl e.new_identity_id))).0 ∙ sym n
      ]
    ]

    -- The identity is in its own group, and an edge has either both of its ends in the group or
    -- neither of them.
    pub identity_group-closed :
        (id : ℕ)
        → let ids = (identity_group edges id).identity_ids in
          (has_id id ids ≡ true)
          × ((e : AliasEdge F)
              → Elem e edges
              → has_id e.old_identity_id ids ≡ has_id e.new_identity_id ids)
    unfolding identity_group
    identity_group-closed id =
        let fuel = suc (2 * length edges) in
        let seen = (walk edges fuel (id ∷ []) (id ∷ []) false).0 in
        let sorted : (x : ℕ) → has_id x (sort_by leb seen) ≡ has_id x seen =
          λ x. any-sort_by leb (λ k. k == x) seen in
        let enough : length (id ∷ []) + unseen edges (id ∷ []) ≤ fuel =
          omega (arith, unseen_all edges (id ∷ [])) in
        let settled = walk-IsSettled fuel (id ∷ []) (id ∷ []) false enough (λ x h. inl h) in
        (
          sorted id ∙ walk-seen fuel (id ∷ []) (id ∷ []) false id (ground (arith, ==_refl id)),
          λ e m.
              sorted e.old_identity_id
              ∙ both seen e (λ x h t. settled x h e m t)
              ∙ sym (sorted e.new_identity_id),
        )
