-- ===== src/Identity/Similarity/Rows.antt =====
-- The rows of `edit_distance` of identity/similarity.py and the costs of prefixes.
use netflix_flaky_test_triag.Base.{ℕ, suc, ◌≡◌, refl, ap, ◌∙◌, List, [], ◌∷◌, Text, length}
use netflix_flaky_test_triag.Identity.Similarity.{
  range_from, row_rest, next_row, rows_from, last_entry, table_distance,
}
use netflix_flaky_test_triag.Identity.Similarity.Reference.{least_cost, onto}

-- The row for a prefix, given backwards, against the prefixes of the other text behind `acc`.
row_tail : Text → Text → Text → List ℕ
row_tail p acc [] = []
row_tail p acc (d ∷ ds) = least_cost p (d ∷ acc) ∷ row_tail p (d ∷ acc) ds

abbrev row_of : Text → Text → List ℕ
row_of p ds = least_cost p [] ∷ row_tail p [] ds

range_from-row_tail :
    (acc ds : Text) → range_from (suc (length acc)) (length ds) ≡ row_tail [] acc ds
unfolding range_from row_tail least_cost
range_from-row_tail acc [] = refl
range_from-row_tail acc (d ∷ ds) = ap (λ t. suc (length acc) ∷ t) (range_from-row_tail (d ∷ acc) ds)

first_row : (ds : Text) → range_from 0 (suc (length ds)) ≡ row_of [] ds
unfolding range_from least_cost
first_row ds = ap (λ t. 0 ∷ t) (range_from-row_tail [] ds)

row_rest-row_tail :
    (c : ℕ) (p acc ds : Text)
    → row_rest c (least_cost (c ∷ p) acc) (least_cost p acc) (row_tail p acc ds) ds
      ≡ row_tail (c ∷ p) acc ds
unfolding row_rest row_tail least_cost
row_rest-row_tail c p acc [] = refl
row_rest-row_tail c p acc (d ∷ ds) =
    ap (λ t. least_cost (c ∷ p) (d ∷ acc) ∷ t) (row_rest-row_tail c p (d ∷ acc) ds)

next_row-row_of :
    (c : ℕ) (p second : Text)
    → next_row (suc (length p)) c (row_of p second) second ≡ row_of (c ∷ p) second
unfolding next_row least_cost
next_row-row_of c p second = ap (λ t. suc (length p) ∷ t) (row_rest-row_tail c p [] second)

rows_from-row_of :
    (first p second : Text)
    → rows_from (length p) first (row_of p second) second ≡ row_of (onto p first) second
unfolding rows_from onto
rows_from-row_of [] p second = refl
rows_from-row_of (c ∷ first) p second =
    ap (λ t. rows_from (suc (length p)) first t second) (next_row-row_of c p second)
    ∙ rows_from-row_of first (c ∷ p) second

last_entry-row_tail :
    (p acc ds : Text)
    → last_entry (least_cost p acc ∷ row_tail p acc ds) ≡ least_cost p (onto acc ds)
unfolding last_entry row_tail onto
last_entry-row_tail p acc [] = refl
last_entry-row_tail p acc (d ∷ ds) = last_entry-row_tail p (d ∷ acc) ds

-- The two loops compute the least cost of the texts read backwards.
pub table_distance-least_cost :
    (first second : Text)
    → table_distance first second ≡ least_cost (onto [] first) (onto [] second)
unfolding table_distance
table_distance-least_cost first second =
    ap (λ t. last_entry (rows_from 0 first t second)) (first_row second)
    ∙ ap last_entry (rows_from-row_of first [] second)
    ∙ last_entry-row_tail (onto [] first) [] second
