-- ===== src/Classify/Classifier/Batch/Entries.antt =====
-- `classify_many` of classify/classifier.py: its results and its calls.
use netflix_flaky_test_triag.Base.{
  ℕ, ◌+◌, ◌-◌, ◌*◌, ◌≤◌, ◌≡◌, ◌∙◌, Bool, ◌||◌, Option, List, [], ◌∷◌, ◌++◌, codes, if◌then◌else◌,
  or_else, leb, ◌==◌, ==→eq, decimal, length, any, All, any-sort_by, sort_by, inl, inr, arith,
  Bool-cases,
}
use netflix_flaky_test_triag.Runtime.{Runtime}
use netflix_flaky_test_triag.Models.Enums.{DowngradeReason}
use netflix_flaky_test_triag.Models.Records.{Classification}
use netflix_flaky_test_triag.Detect.Results.{Detection}
use netflix_flaky_test_triag.Classify.Schema.Guardrails.{abstain-IsGuarded}
use netflix_flaky_test_triag.Classify.Classifier.{
  CallRecord, Setup, ClassifierState, ModelClient, priority_leb,
}
use netflix_flaky_test_triag.Classify.Classifier.Run.{refuse, classify}
use netflix_flaky_test_triag.Classify.Classifier.Spending.{IsSpend, classify-IsSpend}
use netflix_flaky_test_triag.Classify.Classifier.Guarded.{Guarded, FilesGuarded, classify-Guarded}
use netflix_flaky_test_triag.Classify.Classifier.Batch.{set_result, classify_each, classify_many}

abbrev pub has_entry : {A : Type 0} → ℕ → List (ℕ × A) → Bool
has_entry id results = any (λ r. r.0 == id) results

abbrev pub has_detection : {F : Type 0} → ℕ → List (Detection F) → Bool
has_detection id ds = any (λ d. d.identity_id == id) ds

has_entry-set_result :
    {A : Type 0} (id key : ℕ) (c : A) (results : List (ℕ × A))
    → has_entry id (set_result key c results) ≡ ((key == id) || has_entry id results)
unfolding set_result
has_entry-set_result id key c [] = ground arith
has_entry-set_result id key c ((k, old) ∷ results) =
    ground (arith, has_entry-set_result id key c results, ==→eq k key)

All-set_result :
    {A : Type 0} (P : A → Type 0) (key : ℕ) (c : A) (results : List (ℕ × A))
    → P c
    → All (λ r. P r.1) results
    → All (λ r. P r.1) (set_result key c results)
unfolding set_result
All-set_result P key c [] g h = (g, tt)
All-set_result P key c ((k, old) ∷ results) g (h, hs) = elim (Bool-cases (k == key)) [
  | inl e ↦ rw e (g, hs)
  | inr e ↦ rw e (h, All-set_result P key c results g hs)
]

module _ {F : Type 0} (rt : Runtime F) (setup : Setup F) (client : Option (ModelClient F)) where
  -- One turn of the loop.
  abbrev turn : ℕ → ℕ → Detection F → ClassifierState F → ClassifierState F × Classification F
  turn limit index d s =
      if leb limit index
      then (
        s,
        refuse rt setup DowngradeReason.budget_exhausted []
            (codes "beyond the per-invocation cap of " ++ decimal limit ++ codes " tests"),
      )
      else classify rt setup client d s

  has_entry-classify_each :
      (id limit index : ℕ) (ds : List (Detection F)) (results : List (ℕ × Classification F))
      (s : ClassifierState F)
      → has_entry id (classify_each rt setup client limit index ds results s).1
        ≡ (has_entry id results || has_detection id ds)
  unfolding classify_each
  has_entry-classify_each id limit index [] results s = ground arith
  has_entry-classify_each id limit index (d ∷ ds) results s =
      let t = turn limit index d s in
      ground (
        arith,
        has_entry-classify_each id limit (index + 1) ds (set_result d.identity_id t.1 results) t.0,
        has_entry-set_result id d.identity_id t.1 results,
      )

  turn-Guarded :
      (limit index : ℕ) (d : Detection F) (s : ClassifierState F)
      → FilesGuarded rt setup s
      → FilesGuarded rt setup (turn limit index d s).0 × Guarded rt setup (turn limit index d s).1
  unfolding refuse
  turn-Guarded limit index d s h = elim (Bool-cases (leb limit index)) [
    | inl e ↦ rw e (
      h,
      abstain-IsGuarded rt setup.config.confidence_floor DowngradeReason.budget_exhausted [] _ _,
    )
    | inr e ↦ rw e (classify-Guarded rt setup client d s h)
  ]

  classify_each-Guarded :
      (limit index : ℕ) (ds : List (Detection F)) (results : List (ℕ × Classification F))
      (s : ClassifierState F)
      → FilesGuarded rt setup s
      → All (λ r. Guarded rt setup r.1) results
      → let r = classify_each rt setup client limit index ds results s in
        FilesGuarded rt setup r.0 × All (λ r. Guarded rt setup r.1) r.1
  unfolding classify_each
  classify_each-Guarded limit index [] results s h g = (h, g)
  classify_each-Guarded limit index (d ∷ ds) results s h g =
      let t = turn limit index d s in
      let (h', g') = turn-Guarded limit index d s h in
      classify_each-Guarded limit (index + 1) ds (set_result d.identity_id t.1 results) t.0 h'
        (All-set_result (Guarded rt setup) d.identity_id t.1 results g' g)

  length-append : (xs ys : List (CallRecord F)) → length (xs ++ ys) ≡ length xs + length ys
  length-append [] ys = omega arith
  length-append (x ∷ xs) ys = omega (arith, length-append xs ys)

  length-IsSpend :
      (before after : List (CallRecord F))
      → IsSpend rt setup before after
      → length after ≤ length before + 3
  length-IsSpend before after (inl e) = rw e (omega arith)
  length-IsSpend before after (inr (room, first, then_one, e, few, one, looked)) = rw e (
      omega (arith, length-append (before ++ first) then_one, length-append before first, few, one))

  length-turn :
      (limit index : ℕ) (d : Detection F) (s : ClassifierState F)
      → length (turn limit index d s).0.calls ≤ length s.calls + (if leb limit index then 0 else 3)
  length-turn limit index d s = elim (Bool-cases (leb limit index)) [
    | inl e ↦ rw e (omega arith)
    | inr e ↦ rw e (length-IsSpend s.calls _ (classify-IsSpend rt setup client d s))
  ]

  length-classify_each :
      (limit index : ℕ) (ds : List (Detection F)) (results : List (ℕ × Classification F))
      (s : ClassifierState F)
      → length (classify_each rt setup client limit index ds results s).0.calls
        ≤ length s.calls + 3 * (limit - index)
  unfolding classify_each
  length-classify_each limit index [] results s = omega arith
  length-classify_each limit index (d ∷ ds) results s =
      let t = turn limit index d s in
      let rest =
        length-classify_each limit (index + 1) ds (set_result d.identity_id t.1 results) t.0 in
      let now = length-turn limit index d s in
      elim (Bool-cases (leb limit index)) [
        | inl e ↦ ground (arith, rest, now, e)
        | inr e ↦ ground (arith, rest, now, e)
      ]

  -- The ids with an entry in what `classify_many` returns are exactly the ids of the detections
  -- it was given, those beyond the cap included, and no more than three calls are made for each
  -- test up to the cap.
  pub classify_many_covers :
      (ds : List (Detection F)) (max_tests : Option ℕ) (s : ClassifierState F)
      → let r = classify_many rt setup client ds max_tests s in
        ((id : ℕ) → has_entry id r.1 ≡ has_detection id ds)
        × (length r.0.calls ≤ length s.calls + 3 * or_else max_tests setup.config.max_tests)
  unfolding classify_many
  classify_many_covers ds max_tests s =
      let limit = or_else max_tests setup.config.max_tests in
      let sorted = sort_by (priority_leb rt) ds in
      (
        λ id.
            has_entry-classify_each id limit 0 sorted [] s
            ∙ any-sort_by (priority_leb rt) (λ d. d.identity_id == id) ds,
        omega (arith, length-classify_each limit 0 sorted [] s),
      )

  -- If every answer in the cache passed the guardrails, then whatever the client returns, every
  -- classification of a batch passes them, and so does every answer then in the cache.
  pub classify_many-Guarded :
      (ds : List (Detection F)) (max_tests : Option ℕ) (s : ClassifierState F)
      → FilesGuarded rt setup s
      → let r = classify_many rt setup client ds max_tests s in
        FilesGuarded rt setup r.0 × All (λ e. Guarded rt setup e.1) r.1
  unfolding classify_many
  classify_many-Guarded ds max_tests s h =
      classify_each-Guarded (or_else max_tests setup.config.max_tests) 0
        (sort_by (priority_leb rt) ds) [] s h tt
