-- ===== src/Identity/Similarity.antt =====
-- identity/similarity.py: the edit distance by a rolling row.
pub mod Reference
pub mod Rows
pub mod Bounds
use netflix_flaky_test_triag.Base.{
  ℕ, zero, suc, ◌+◌, ◌≡◌, refl, min, max, Bool, ◌&&◌, List, [], ◌∷◌, Text, codes, length, take,
  is_empty, text_eq, ltb, ◌==◌, if◌then◌else◌,
}
use netflix_flaky_test_triag.Runtime.{Runtime}

abbrev pub max_compare_length : ℕ
max_compare_length = 512

-- `list(range(i, i + n))`
range_from : ℕ → ℕ → List ℕ
range_from i zero = []
range_from i (suc n) = i ∷ range_from (suc i) n

-- `a != b` as a number.
abbrev pub mismatch : ℕ → ℕ → ℕ
mismatch a b = if a == b then 0 else 1

-- The rest of the current row: `diagonal ∷ above` is the previous row from the column before, and
-- `left` is the last entry of the current row.
row_rest : ℕ → ℕ → ℕ → List ℕ → Text → List ℕ
row_rest c left diagonal (up ∷ above) (d ∷ ds) =
    let entry = min (min (up + 1) (left + 1)) (diagonal + mismatch c d) in
    entry ∷ row_rest c entry up above ds
row_rest c left diagonal _ _ = []

-- One row of the loop: the number of rows read so far, its character, the previous row.
next_row : ℕ → ℕ → List ℕ → Text → List ℕ
next_row row c [] second = row ∷ []
next_row row c (p ∷ previous) second = row ∷ row_rest c row p previous second

rows_from : ℕ → Text → List ℕ → Text → List ℕ
rows_from row [] previous second = previous
rows_from row (c ∷ first) previous second =
    rows_from (suc row) first (next_row (suc row) c previous second) second

-- `previous[-1]`
last_entry : List ℕ → ℕ
last_entry [] = 0
last_entry (n ∷ []) = n
last_entry (n ∷ m ∷ ns) = last_entry (m ∷ ns)

-- The two loops of `edit_distance`, the longer text over the shorter.
unfoldable pub table_distance : Text → Text → ℕ
unfolding rows_from next_row row_rest range_from last_entry
table_distance first second =
    last_entry (rows_from 0 first (range_from 0 (suc (length second))) second)

-- `edit_distance`
unfoldable pub edit_distance : Text → Text → ℕ
unfolding table_distance
edit_distance left right =
    let first = take max_compare_length left in
    let second = take max_compare_length right in
    if text_eq first second
    then 0
    else if is_empty first
    then length second
    else if is_empty second
    then length first
    else if ltb (length first) (length second)
    then table_distance second first
    else table_distance first second

-- `normalized_distance`
unfoldable pub normalized_distance : {F : Type 0} → Runtime F → Text → Text → F
normalized_distance rt left right =
    let longest =
      max (length (take max_compare_length left)) (length (take max_compare_length right)) in
    let scaled = rt.div (rt.of_nat (edit_distance left right)) (rt.of_nat longest) in
    if is_empty left && is_empty right
    then rt.of_nat 0
    else if longest == 0
    then rt.of_nat 0
    else scaled
