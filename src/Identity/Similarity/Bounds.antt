-- ===== src/Identity/Similarity/Bounds.antt =====
-- `edit_distance` of identity/similarity.py and edit scripts.
use netflix_flaky_test_triag.Base.{
  ℕ, ◌≤◌, ◌≡◌, ◌↔◌, refl, max, true, [], ◌∷◌, Text, length, take, is_empty, text_eq, text_eq→eq,
  ltb, if◌then◌else◌, arith, Bool-cases, inl, inr,
}
use mathlib.Core.Path.{subst, subst₂}
use netflix_flaky_test_triag.Identity.Similarity.{edit_distance, table_distance, max_compare_length}
use netflix_flaky_test_triag.Identity.Similarity.Reference.{
  Edits, least_cost, least_cost-Edits, least_cost-le, onto, onto_twice, onto-Edits, swap-Edits,
  same_all, inserts, deletes, done, same, change, delete, insert,
}
use netflix_flaky_test_triag.Identity.Similarity.Rows.{table_distance-least_cost}

-- `n` edits turn `s` into `t`, and no fewer do.
abbrev pub IsLeast : Text → Text → ℕ → Type 0
IsLeast s t n = Edits s t n × ((m : ℕ) → Edits s t m → n ≤ m)

IsLeast-swap : (s t : Text) (n : ℕ) → IsLeast s t n → IsLeast t s n
IsLeast-swap s t n (x, h) = (swap-Edits x, λ m y. h m (swap-Edits y))

forwards : (s t : Text) (n : ℕ) → Edits (onto [] s) (onto [] t) n → Edits s t n
forwards s t n x =
    let back : Edits (onto [] (onto [] s)) (onto [] (onto [] t)) n =
      onto-Edits (omega arith) done x in
    subst₂ (λ u v. Edits u v n) (onto_twice s) (onto_twice t) back

backwards : (s t : Text) (n : ℕ) → Edits s t n → Edits (onto [] s) (onto [] t) n
backwards s t n x = onto-Edits (omega arith) done x

table_distance-IsLeast : (s t : Text) → IsLeast s t (table_distance s t)
table_distance-IsLeast s t = rw (table_distance-least_cost s t) (
  forwards s t (least_cost (onto [] s) (onto [] t)) (least_cost-Edits (onto [] s) (onto [] t)),
  λ m y. least_cost-le (backwards s t m y),
)

empty_left : (t : Text) → IsLeast [] t (length t)
unfolding least_cost
empty_left t = (inserts t, λ m y. least_cost-le y)

equal_texts : (s t : Text) → text_eq s t ≡ true → IsLeast s t 0
equal_texts s t e = (subst (λ u. Edits s u 0) (text_eq→eq s t e) (same_all s), λ m y. omega arith)

-- The branches of `edit_distance`.
branches-IsLeast :
    (s t : Text)
    → IsLeast s t (
        if text_eq s t
        then 0
        else if is_empty s
        then length t
        else if is_empty t
        then length s
        else if ltb (length s) (length t)
        then table_distance t s
        else table_distance s t)
branches-IsLeast s t = elim (Bool-cases (text_eq s t)) [
  | inl e ↦ rw e (equal_texts s t e)
  | inr e ↦ rw e (unequal s t)
]
  where
    unequal :
        (s t : Text)
        → IsLeast s t (
            if is_empty s
            then length t
            else if is_empty t
            then length s
            else if ltb (length s) (length t)
            then table_distance t s
            else table_distance s t)
    unequal [] t = empty_left t
    unequal (c ∷ s) [] = IsLeast-swap [] (c ∷ s) _ (empty_left (c ∷ s))
    unequal (c ∷ s) (d ∷ t) = elim (Bool-cases (ltb (length (c ∷ s)) (length (d ∷ t)))) [
      | inl e ↦ rw e (
          IsLeast-swap (d ∷ t) (c ∷ s) (table_distance (d ∷ t) (c ∷ s))
            (table_distance-IsLeast (d ∷ t) (c ∷ s)))
      | inr e ↦ rw e (table_distance-IsLeast (c ∷ s) (d ∷ t))
    ]

-- For every two texts, `edit_distance` is the least number of single-character insertions,
-- deletions and substitutions that turn the first 512 characters of one into those of the other:
-- a script of that cost exists, and every script costs at least as much.
pub edit_distance-IsLeast :
    (left right : Text)
    → IsLeast
        (take max_compare_length left)
        (take max_compare_length right)
        (edit_distance left right)
unfolding edit_distance
edit_distance-IsLeast left right =
    branches-IsLeast (take max_compare_length left) (take max_compare_length right)

-- Every character of the shorter text is overwritten, and the rest inserted or deleted.
overwrite : (s t : Text) → Edits s t (max (length s) (length t))
overwrite [] t = subst (λ n. Edits [] t n) (omega arith) (inserts t)
overwrite (c ∷ s) [] = subst (λ n. Edits (c ∷ s) [] n) (omega arith) (deletes (c ∷ s))
overwrite (c ∷ s) (d ∷ t) =
    subst (λ n. Edits (c ∷ s) (d ∷ t) n) (omega arith) (change c d (overwrite s t))

equal_of_free : {s t : Text} {n : ℕ} → n ≡ 0 → Edits s t n → s ≡ t
equal_of_free e done = refl
equal_of_free e (same c d q x) = ground (arith, equal_of_free e x)
equal_of_free e (change c d x) = absurd (omega (arith, e))
equal_of_free e (delete c x) = absurd (omega (arith, e))
equal_of_free e (insert d x) = absurd (omega (arith, e))

-- The distance is symmetric, at most the length of the longer text, and 0 exactly for texts with
-- the same first 512 characters.
edit_distance_metric :
    (left right : Text)
    → let s = take max_compare_length left in
      let t = take max_compare_length right in
      (edit_distance left right ≡ edit_distance right left)
      × (edit_distance left right ≤ max (length s) (length t))
      × ((edit_distance left right ≡ 0) ↔ (s ≡ t))
edit_distance_metric left right =
    let s = take max_compare_length left in
    let t = take max_compare_length right in
    let (x, h) = edit_distance-IsLeast left right in
    let (y, k) = edit_distance-IsLeast right left in
    (
      omega (
        arith,
        h (edit_distance right left) (swap-Edits y),
        k (edit_distance left right) (swap-Edits x),
      ),
      omega (arith, h (max (length s) (length t)) (overwrite s t)),
      (λ e. equal_of_free e x, λ e. omega (arith, h 0 (subst (λ u. Edits s u 0) e (same_all s)))),
    )
