-- ===== src/Store/Aliases/Least.antt =====
-- `identity_group` of store/repositories.py and other closed sets.
use netflix_flaky_test_triag.Base.{
  ℕ, zero, suc, ◌*◌, ◌≡◌, ◌∙◌, sym, refl, Bool, true, false, ◌||◌, not, List, [], ◌∷◌, any, keep,
  All, Elem, length, ◌==◌, ==→eq, leb, All-sort_by, inl, inr, arith, Bool-cases,
}
use netflix_flaky_test_triag.Store.Aliases.{
  AliasEdge, has_id, touches_id, visit, visit_rows, walk, identity_group,
}

module _ {F : Type 0} (edges : List (AliasEdge F)) where
  module _ (P : ℕ → Bool) where
    abbrev Holds : List ℕ → Type 0
    Holds ids = All (λ x. P x ≡ true) ids

    visit-Holds :
        (n : ℕ) (s : List ℕ × List ℕ)
        → P n ≡ true
        → Holds s.0 × Holds s.1
        → Holds (visit n s).0 × Holds (visit n s).1
    visit-Holds n (seen, frontier) p (h, k) = elim (Bool-cases (has_id n seen)) [
      | inl e ↦ rw e (h, k)
      | inr e ↦ rw e ((p, h), (p, k))
    ]

    -- Both ends of an edge are in the set.
    abbrev BothHold : AliasEdge F → Type 0
    BothHold e = (P e.old_identity_id ≡ true) × (P e.new_identity_id ≡ true)

    visit_rows-Holds :
        (es : List (AliasEdge F)) (s : List ℕ × List ℕ)
        → All BothHold es
        → Holds s.0 × Holds s.1
        → Holds (visit_rows es s).0 × Holds (visit_rows es s).1
    unfolding visit_rows
    visit_rows-Holds [] s b h = h
    visit_rows-Holds (e ∷ es) s ((o, n), b) h =
        let one = visit e.old_identity_id s in
        visit_rows-Holds es (visit e.new_identity_id one) b
          (visit-Holds e.new_identity_id one n (visit-Holds e.old_identity_id s o h))

    rows-BothHold :
        (current : ℕ) (es : List (AliasEdge F))
        → P current ≡ true
        → ((e : AliasEdge F) → Elem e es → P e.old_identity_id ≡ P e.new_identity_id)
        → All BothHold (keep (touches_id current) es)
    rows-BothHold current [] p closed = tt
    rows-BothHold current (e ∷ es) p closed =
        let rest = rows-BothHold current es p (λ d m. closed d (inr m)) in
        elim (Bool-cases (touches_id current e)) [
          | inr t ↦ rw t rest
          | inl t ↦
              let same = closed e (inl refl) in
              let ends : BothHold e = elim (Bool-cases (e.old_identity_id == current)) [
                | inl o ↦
                    let old : P e.old_identity_id ≡ true =
                      rw (==→eq e.old_identity_id current o) p in
                    (old, sym same ∙ old)
                | inr o ↦
                    let at : (e.new_identity_id == current) ≡ true = ground (arith, t, o) in
                    let new : P e.new_identity_id ≡ true =
                      rw (==→eq e.new_identity_id current at) p in
                    (same ∙ new, new)
              ] in
              rw t (ends, rest)
        ]

    walk-Holds :
        (fuel : ℕ) (seen frontier : List ℕ) (uncertain : Bool)
        → ((e : AliasEdge F) → Elem e edges → P e.old_identity_id ≡ P e.new_identity_id)
        → Holds seen
        → Holds frontier
        → Holds (walk edges fuel seen frontier uncertain).0
    unfolding walk
    walk-Holds zero seen frontier uncertain closed h k = h
    walk-Holds (suc fuel) seen [] uncertain closed h k = h
    walk-Holds (suc fuel) seen (c ∷ frontier) uncertain closed h (p, k) =
        let rows = keep (touches_id c) edges in
        let (h', k') =
          visit_rows-Holds rows (seen, frontier) (rows-BothHold c edges p closed) (h, k) in
        let next = visit_rows rows (seen, frontier) in
        walk-Holds fuel next.0 next.1 (uncertain || any (λ e. not e.certain) rows) closed h' k'

  -- A group is no larger than it must be: whatever set of identities holds the start and has
  -- both ends of an edge whenever it has one, holds every identity of the group.
  pub identity_group-least :
      (P : ℕ → Bool) (id : ℕ)
      → P id ≡ true
      → ((e : AliasEdge F) → Elem e edges → P e.old_identity_id ≡ P e.new_identity_id)
      → All (λ x. P x ≡ true) (identity_group edges id).identity_ids
  unfolding identity_group
  identity_group-least P id h closed =
      All-sort_by leb (λ x. P x ≡ true)
        (walk edges (suc (2 * length edges)) (id ∷ []) (id ∷ []) false).0
        (walk-Holds P (suc (2 * length edges)) (id ∷ []) (id ∷ []) false closed (h, tt) (h, tt))
