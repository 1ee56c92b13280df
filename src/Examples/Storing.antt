-- ===== src/Examples/Storing.antt =====
-- The theorems on alias edges and on detection over a store, at a store with one rename.
use netflix_flaky_test_triag.Base.{
  ℕ, ◌≤◌, ◌≡◌, refl, true, false, none, some, List, [], ◌∷◌, codes, All, Elem, leb, inl, inr,
}
use netflix_flaky_test_triag.Store.Aliases.{AliasEdge, has_id, identity_group}
use netflix_flaky_test_triag.Store.Aliases.Closure.{identity_group-closed}
use netflix_flaky_test_triag.Store.Aliases.Least.{identity_group-least}
use netflix_flaky_test_triag.Store.Reads.{RunStore}
use netflix_flaky_test_triag.Detect.Collect.{detect_all}
use netflix_flaky_test_triag.Detect.Collect.Once.{times_reported, detect_all_once}
use netflix_flaky_test_triag.Examples.Sample.{runtime, detect_config, broken, login, test_of}

abbrev edges : List (AliasEdge ℕ)
edges =
    record { old_identity_id = 1; new_identity_id = 2; similarity = 1; certain = false }
    ∷ record { old_identity_id = 2; new_identity_id = 3; similarity = 1; certain = true }
    ∷ []

identity_group-closed_example :
    let ids = (identity_group edges 1).identity_ids in
    (has_id 1 ids ≡ true)
    × ((e : AliasEdge ℕ)
        → Elem e edges
        → has_id e.old_identity_id ids ≡ has_id e.new_identity_id ids)
identity_group-closed_example = identity_group-closed edges 1

below_four : (e : AliasEdge ℕ) → Elem e edges → leb e.old_identity_id 3 ≡ leb e.new_identity_id 3
below_four e (inl s) = rw s refl
below_four e (inr (inl s)) = rw s refl
below_four e (inr (inr m)) = elim m [ ]

identity_group-least_example : All (λ x. leb x 3 ≡ true) (identity_group edges 1).identity_ids
identity_group-least_example = identity_group-least edges (λ x. leb x 3) 1 refl below_four

abbrev store : RunStore ℕ
store = record {
  test_identities = (1, login) ∷ (2, test_of (codes "f2") (codes "sign_in")) ∷ [];
  executions = broken;
  identity_aliases = edges;
  diff_files = [];
}

detect_all_once_example :
    times_reported 2 (detect_all runtime detect_config store (some (1 ∷ 2 ∷ 1 ∷ [])) none) ≤ 1
detect_all_once_example = detect_all_once runtime detect_config store (some (1 ∷ 2 ∷ 1 ∷ [])) none 2
