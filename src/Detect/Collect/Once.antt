-- ===== src/Detect/Collect/Once.antt =====
-- The detections of `detect_all` of detect/detector.py, by identity.
use netflix_flaky_test_triag.Base.{
  ℕ, ◌≤◌, ◌≡◌, ◌∙◌, ap, refl, sym, Bool, true, false, ◌||◌, not, Option, some, List, [], ◌∷◌, ◌++◌,
  Text, All, Elem, sum_of, sum-sort_by, ltb, or_else, ◌==◌, ==→eq, ==_refl, if◌then◌else◌, inl, inr,
  arith, Bool-cases, Option-cases,
}
use netflix_flaky_test_triag.Runtime.{Runtime}
use netflix_flaky_test_triag.Config.{DetectConfig}
use netflix_flaky_test_triag.Store.Aliases.{AliasEdge, IdentityGroup, has_id, identity_group}
use netflix_flaky_test_triag.Store.Aliases.Closure.{identity_group-closed}
use netflix_flaky_test_triag.Store.Aliases.Least.{identity_group-least}
use netflix_flaky_test_triag.Store.Reads.{RunStore, all_identity_ids}
use netflix_flaky_test_triag.Detect.Results.{Detection}
use netflix_flaky_test_triag.Detect.Detector.{detect_for_history}
use netflix_flaky_test_triag.Detect.Collect.{
  max_of, detect_group, detect_each, detection_leb, detect_all,
}

has_id-max_of : (x : ℕ) (xs : List ℕ) → has_id (max_of (x ∷ xs)) (x ∷ xs) ≡ true
unfolding max_of
has_id-max_of x [] = ground (arith, ==_refl x)
has_id-max_of x (y ∷ ys) = elim (Bool-cases (ltb x (max_of (y ∷ ys)))) [
  | inl e ↦ ground (arith, e, has_id-max_of y ys)
  | inr e ↦ ground (arith, e, ==_refl x)
]

has_id-max_of_any : (x : ℕ) (xs : List ℕ) → has_id x xs ≡ true → has_id (max_of xs) xs ≡ true
has_id-max_of_any x [] h = cc
has_id-max_of_any x (y ∷ ys) h = has_id-max_of y ys

has_id-append : (x : ℕ) (xs ys : List ℕ) → has_id x (xs ++ ys) ≡ (has_id x xs || has_id x ys)
has_id-append x [] ys = refl
has_id-append x (k ∷ xs) ys = ground (arith, has_id-append x xs ys)

All-has_id :
    (P : ℕ → Bool) (x : ℕ) (xs : List ℕ)
    → All (λ k. P k ≡ true) xs
    → has_id x xs ≡ true
    → P x ≡ true
All-has_id P x [] a h = cc
All-has_id P x (k ∷ xs) (p, a) h = elim (Bool-cases (k == x)) [
  | inl e ↦ rw⁻¹ (==→eq k x e) p
  | inr e ↦ All-has_id P x xs a (ground (arith, h, e))
]

abbrev pub times_reported : {F : Type 0} → ℕ → List (Detection F) → ℕ
times_reported id ds = sum_of (λ d. if d.identity_id == id then 1 else 0) ds

module _ {F : Type 0} (rt : Runtime F) (config : DetectConfig F) (store : RunStore F) where
  -- A set of identities with both ends of an edge or neither.
  abbrev IsWhole : List ℕ → Type 0
  IsWhole ids =
      (e : AliasEdge F)
      → Elem e store.identity_aliases
      → has_id e.old_identity_id ids ≡ has_id e.new_identity_id ids

  abbrev group_of : ℕ → List ℕ
  group_of id = (identity_group store.identity_aliases id).identity_ids

  found_id :
      (since : Option Text) (id : ℕ) (group : IdentityGroup) (d : Detection F)
      → detect_group rt config store since id group ≡ some d
      → d.identity_id ≡ max_of group.identity_ids
  unfolding detect_group detect_for_history
  found_id since id group d e = ground (arith, e)

  append-IsWhole :
      (reported ids : List ℕ) → IsWhole reported → IsWhole ids → IsWhole (reported ++ ids)
  append-IsWhole reported ids w v e m =
      has_id-append e.old_identity_id reported ids
      ∙ ap (λ b. b || has_id e.old_identity_id ids) (w e m)
      ∙ ap (λ b. has_id e.new_identity_id reported || b) (v e m)
      ∙ sym (has_id-append e.new_identity_id reported ids)

  -- The group of an identity that was not reported has no member that was.
  group_apart :
      (reported : List ℕ) (id x : ℕ)
      → IsWhole reported
      → has_id id reported ≡ false
      → has_id x (group_of id) ≡ true
      → has_id x reported ≡ false
  group_apart reported id x w n h =
      let all =
        identity_group-least store.identity_aliases (λ k. not (has_id k reported)) id
          (ground (arith, n)) (λ e m. ap not (w e m)) in
      let free : not (has_id x reported) ≡ true =
        All-has_id (λ k. not (has_id k reported)) x (group_of id) all h in
      ground (arith, free)

  pub detect_each_once :
      (since : Option Text) (ids reported : List ℕ) (x : ℕ)
      → IsWhole reported
      → let n = times_reported x (detect_each rt config store since ids reported) in
        (n ≤ 1) × (has_id x reported ≡ true → n ≡ 0)
  unfolding detect_each
  detect_each_once since [] reported x w = (omega arith, λ h. refl)
  detect_each_once since (id ∷ ids) reported x w =
      let (own, closed) = identity_group-closed store.identity_aliases id in
      let group = identity_group store.identity_aliases id in
      let (most, none_left) =
        detect_each_once since ids (reported ++ group.identity_ids) x
          (append-IsWhole reported group.identity_ids w closed) in
      elim (Bool-cases (has_id id reported)) [
        | inl h ↦ rw h (detect_each_once since ids reported x w)
        | inr h ↦ elim (Option-cases (detect_group rt config store since id group)) [
          | inl e ↦
              rw (h, e)
                (
                  most,
                  λ k. none_left (ground (arith, has_id-append x reported group.identity_ids, k)),
                )
          | inr (d, e) ↦
              let primary = found_id since id group d e in
              let member : has_id d.identity_id group.identity_ids ≡ true =
                rw primary (has_id-max_of_any id group.identity_ids own) in
              elim (Bool-cases (d.identity_id == x)) [
                | inr o ↦
                    rw (h, e)
                      (
                        ground (arith, o, most),
                        λ k. ground (
                          arith,
                          o,
                          none_left
                              (ground (arith, has_id-append x reported group.identity_ids, k)),
                        ),
                      )
                | inl o ↦
                    let same : d.identity_id ≡ x = ==→eq d.identity_id x o in
                    let inside : has_id x group.identity_ids ≡ true = rw⁻¹ same member in
                    let rest =
                      none_left
                        (ground (arith, has_id-append x reported group.identity_ids, inside)) in
                    rw (h, e)
                      (
                        ground (arith, o, rest),
                        λ k. ground (arith, k, group_apart reported id x w h inside),
                      )
              ]
        ]
      ]

  -- Detection over a whole store, or over any list of candidates with repetitions or with several
  -- names of one test, reports each identity at most once.
  pub detect_all_once :
      (identity_ids : Option (List ℕ)) (since : Option Text) (x : ℕ)
      → times_reported x (detect_all rt config store identity_ids since) ≤ 1
  unfolding detect_all
  detect_all_once identity_ids since x =
      let candidates = or_else identity_ids (all_identity_ids store) in
      let (most, none_left) = detect_each_once since candidates [] x (λ e m. refl) in
      let found = detect_each rt config store since candidates [] in
      ground (
        arith,
        most,
        sum-sort_by (detection_leb rt config store) (λ d. if d.identity_id == x then 1 else 0)
            found,
      )
