-- ===== src/Obs/Summary/Latest.antt =====
-- store/repositories.py and obs/metrics.py: the classification that is read back.
use mathlib.Core.Path.{subst}
use netflix_flaky_test_triag.Base.{
  ℕ, ◌<◌, ◌≤◌, ◌≡◌, refl, sym, ap, ◌∙◌, inl, inr, Bool, false, ◌||◌, ◌&&◌, Option, none, some, List,
  [], ◌∷◌, Text, keep, any, All, Elem, arith, ◌==◌, ==_refl, leb, Bool-cases, or_else, is_empty,
  some_unique, length, ◌>>=◌,
}
use netflix_flaky_test_triag.Models.Records.{Classification}
use netflix_flaky_test_triag.Store.Tables.{next_id}
use netflix_flaky_test_triag.Store.Writes.Keys.{Unique}
use netflix_flaky_test_triag.Obs.Metrics.{
  ClassificationRow, MetricTables, non_empty, known_run, known_tests, classification_row,
  add_classifications, record_classifications,
}
use netflix_flaky_test_triag.Obs.Summary.{classification_of, newest, latest_classification}

or_else-non_empty : {A : Type 0} (xs : List A) → or_else (non_empty xs) [] ≡ xs
or_else-non_empty [] = refl
or_else-non_empty (x ∷ xs) = refl

module _ {F : Type 0} where
  abbrev of_identity : ℕ → List (ClassificationRow F) → List (ClassificationRow F)
  of_identity id rows = keep (λ r. r.identity_id == id) rows

  -- Rows with ids below a bound.
  abbrev Below : ℕ → List (ClassificationRow F) → Type 0
  Below k rows = All (λ r. r.id < k) rows

  Below-keep :
      (p : ClassificationRow F → Bool) (k : ℕ) (rows : List (ClassificationRow F))
      → next_id (λ r. r.id) rows ≤ k
      → Below k (keep p rows)
  Below-keep p k [] h = tt
  Below-keep p k (r ∷ rows) h = elim (Bool-cases (p r)) [
    | inl t ↦ rw t (omega arith, Below-keep p k rows (omega arith))
    | inr f ↦ rw f (Below-keep p k rows (omega arith))
  ]

  newest-some :
      (b : ClassificationRow F) (rows : List (ClassificationRow F))
      → Below b.id rows
      → newest (some b) rows ≡ some b
  newest-some b [] h = refl
  newest-some b (r ∷ rows) (h, hs) =
      let smaller : leb b.id r.id ≡ false = ground arith in rw smaller (newest-some b rows hs)

  classification_of-row :
      (now : Text) (run_pk : Option ℕ) (sha : Text) (hits : List ℕ) (id : ℕ) (c : Classification F)
      (rows : List (ClassificationRow F))
      → classification_of (classification_row now run_pk sha hits (id, c) rows) ≡ c
  unfolding classification_of classification_row
  classification_of-row now run_pk sha hits id c rows =
      rw
        (
          or_else-non_empty c.reasoning,
          or_else-non_empty c.evidence,
          or_else-non_empty c.suggested_action,
        )
        refl

  -- Items of other tests leave the rows of a test alone.
  add_classifications-others :
      (now : Text) (run_pk : Option ℕ) (sha : Text) (hits : List ℕ) (id : ℕ)
      (items : List (ℕ × Classification F)) (rows : List (ClassificationRow F))
      → any (λ i. i.0 == id) items ≡ false
      → of_identity id (add_classifications now run_pk sha hits items rows) ≡ of_identity id rows
  unfolding add_classifications classification_row
  add_classifications-others now run_pk sha hits id [] rows h = refl
  add_classifications-others now run_pk sha hits id ((k, c) ∷ items) rows h =
      let row = classification_row now run_pk sha hits (k, c) rows in
      let other : (k == id) ≡ false = ground (arith, h) in
      add_classifications-others now run_pk sha hits id items (row ∷ rows) (ground (arith, h))
      ∙ rw other refl

  -- The classification of the newest row of a test.
  abbrev read_back : ℕ → List (ClassificationRow F) → Option (Classification F)
  read_back id rows = newest none (of_identity id rows) >>= λ r. some (classification_of r)

  read_back-add :
      (now : Text) (run_pk : Option ℕ) (sha : Text) (hits : List ℕ) (id : ℕ) (c : Classification F)
      (items : List (ℕ × Classification F)) (rows : List (ClassificationRow F))
      → Unique (λ a b. b.0 == a.0) items
      → Elem (id, c) items
      → read_back id (add_classifications now run_pk sha hits items rows) ≡ some c
  unfolding add_classifications classification_row
  read_back-add now run_pk sha hits id c (item ∷ items) rows (u, us) (inl e) =
      let row = classification_row now run_pk sha hits (id, c) rows in
      let kept : of_identity id (row ∷ rows) ≡ row ∷ of_identity id rows = rw (==_refl id) refl in
      let others = subst (λ i. any (λ b. b.0 == i.0) items ≡ false) (sym e) u in
      let found =
        newest-some row (of_identity id rows)
          (Below-keep (λ r. r.identity_id == id) row.id rows (omega arith)) in
      subst (λ i. read_back id (add_classifications now run_pk sha hits (i ∷ items) rows) ≡ some c)
        e
        (ap (λ ks. newest none ks >>= λ r. some (classification_of r))
            (add_classifications-others now run_pk sha hits id items (row ∷ rows) others ∙ kept)
          ∙ ap (λ o. o >>= λ r. some (classification_of r)) found
          ∙ ap some (classification_of-row now run_pk sha hits id c rows))
  read_back-add now run_pk sha hits id c (item ∷ items) rows (u, us) (inr m) =
      read_back-add now run_pk sha hits id c items
        (classification_row now run_pk sha hits item rows ∷ rows) us m
  read_back-add now run_pk sha hits id c [] rows u m = elim m [ ]

  -- Take the items of a dictionary, which have different keys, and any tables for which
  -- `record_classifications` of the items succeeds. In the tables that it makes,
  -- `latest_classification` of each key returns exactly the classification that the key has.
  pub latest_classification-record :
      (now : Text) (run_pk : Option ℕ) (sha : Text) (hits : List ℕ)
      (items : List (ℕ × Classification F)) (t : MetricTables F) (r : MetricTables F × ℕ)
      → Unique (λ a b. b.0 == a.0) items
      → record_classifications now run_pk sha hits items t ≡ some r
      → (id : ℕ) (c : Classification F) → Elem (id, c) items
      → latest_classification id r.0 ≡ some c
  unfolding latest_classification record_classifications
  latest_classification-record now run_pk sha hits items t r u made id c m =
      let ok = is_empty items || (known_run run_pk t.runs && known_tests items t.test_ids) in
      let rows = add_classifications now run_pk sha hits items t.classifications in
      elim (Bool-cases ok) [
        | inl e ↦
            let stored : record_classifications now run_pk sha hits items t
                ≡ some (record t { classifications = rows }, length items) =
              rw e refl in
            subst (λ q. latest_classification id q.0 ≡ some c) (some_unique stored made)
              (read_back-add now run_pk sha hits id c items t.classifications u m)
        | inr e ↦
            let refused : record_classifications now run_pk sha hits items t ≡ none = rw e refl in
            cc (refused, made)
      ]
