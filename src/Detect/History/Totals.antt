-- ===== src/Detect/History/Totals.antt =====
-- The counters of `build_history` of detect/history.py.
use netflix_flaky_test_triag.Base.{
  ℕ, ◌+◌, ◌≡◌, refl, sym, ◌∙◌, ap, Bool, ◌&&◌, not, List, [], ◌∷◌, ◌++◌, map, keep, length, sum_of,
  count_of, sum-sort_by, sort_by, if◌then◌else◌, arith,
}
use netflix_flaky_test_triag.Runtime.{Runtime}
use netflix_flaky_test_triag.Config.{DetectConfig}
use netflix_flaky_test_triag.Models.Enums.{counts_as_observation}
use netflix_flaky_test_triag.Store.Execution.{ExecutionRecord}
use netflix_flaky_test_triag.Detect.Infra.{is_infra_failure}
use netflix_flaky_test_triag.Detect.Window.{
  sha_window, outcomes_of, observations as window_observations,
}
use netflix_flaky_test_triag.Detect.History.{
  Group, Grouping, observations, add_record, window_of, group_step, group_records, build_history,
  window_leb,
}

abbrev pub counts : ExecutionRecord → Bool
counts r = counts_as_observation r.outcome

group_size : Group → ℕ
group_size g = window_observations (window_of g)

length-outcomes_of : (rs : List ExecutionRecord) → length (outcomes_of rs) ≡ count_of counts rs
length-outcomes_of [] = refl
length-outcomes_of (r ∷ rs) = ground (arith, length-outcomes_of rs)

count-snoc :
    (r : ExecutionRecord) (rs : List ExecutionRecord)
    → count_of counts (rs ++ r ∷ []) ≡ count_of counts rs + (if counts r then 1 else 0)
count-snoc r [] = ground arith
count-snoc r (s ∷ rs) = ground (arith, count-snoc r rs)

size-snoc :
    (r : ExecutionRecord) (g : Group)
    → group_size (record g { rest = g.rest ++ r ∷ [] }) ≡ group_size g + (if counts r then 1 else 0)
unfolding group_size sha_window
size-snoc r g =
    length-outcomes_of (g.first ∷ g.rest ++ r ∷ [])
    ∙ count-snoc r (g.first ∷ g.rest)
    ∙ ap (λ n. n + (if counts r then 1 else 0)) (sym (length-outcomes_of (g.first ∷ g.rest)))

size-new :
    (r : ExecutionRecord)
    → group_size (record { sha = r.commit_sha; first = r; rest = [] }) ≡ (if counts r then 1 else 0)
unfolding group_size sha_window
size-new r = ground arith

sum-add_record :
    (r : ExecutionRecord) (gs : List Group)
    → sum_of group_size (add_record r gs) ≡ sum_of group_size gs + (if counts r then 1 else 0)
unfolding add_record
sum-add_record r [] = ground (arith, size-new r)
sum-add_record r (g ∷ gs) = ground (arith, size-snoc r g, sum-add_record r gs)

sum_of-map :
    {A B : Type 0} (f : B → ℕ) (g : A → B) (xs : List A)
    → sum_of f (map g xs) ≡ sum_of (λ x. f (g x)) xs
sum_of-map f g [] = refl
sum_of-map f g (x ∷ xs) = ground (arith, sum_of-map f g xs)

module _ {F : Type 0} (rt : Runtime F) (config : DetectConfig F) where
  abbrev pub infra : ExecutionRecord → Bool
  infra r = is_infra_failure rt config r

  -- What a state of the loop has seen, given what the records so far hold.
  group_records_totals :
      (rs : List ExecutionRecord) (s : Grouping)
      → let t = group_records rt config rs s in
        (sum_of group_size t.grouped
          ≡ sum_of group_size s.grouped + count_of (λ r. not (infra r) && counts r) rs)
        × (t.infra_excluded ≡ s.infra_excluded + count_of infra rs)
        × (t.skipped ≡ s.skipped + count_of (λ r. not (infra r) && not (counts r)) rs)
  unfolding group_records
  group_records_totals [] s = omega arith
  group_records_totals (r ∷ rs) s =
      ground (arith, sum-add_record r s.grouped, group_records_totals rs (group_step rt config r s))

  -- For every list of executions: the observations of the history are the executions that are
  -- neither platform failures nor skips, each counted once, and the two counters are the numbers
  -- of platform failures and of the other skips.
  pub build_history_totals :
      (rs : List ExecutionRecord)
      → let h = build_history rt config rs in
        (observations h ≡ count_of (λ r. not (infra r) && counts r) rs)
        × (h.infra_excluded ≡ count_of infra rs)
        × (h.skipped ≡ count_of (λ r. not (infra r) && not (counts r)) rs)
  unfolding build_history group_size
  build_history_totals rs =
      let start : Grouping = record { grouped = []; infra_excluded = 0; skipped = 0 } in
      let t = group_records rt config rs start in
      let (a, b, c) = group_records_totals rs start in
      (
        sum-sort_by window_leb window_observations (map window_of t.grouped)
            ∙ sum_of-map window_observations window_of t.grouped
            ∙ a
            ∙ omega arith,
        omega (arith, b),
        omega (arith, c),
      )

  group_records-keep :
      (rs : List ExecutionRecord) (s t : Grouping)
      → s.grouped ≡ t.grouped
      → (group_records rt config rs s).grouped
        ≡ (group_records rt config (keep (λ r. not (infra r)) rs) t).grouped
  unfolding group_records
  group_records-keep [] s t e = e
  group_records-keep (r ∷ rs) s t e = ground (
    arith,
    group_records-keep rs (group_step rt config r s) t,
    group_records-keep rs (group_step rt config r s) (group_step rt config r t),
  )

  -- Platform failures leave no trace in the windows: the windows of any executions are those of
  -- the same executions with every platform failure taken out.
  pub windows-keep :
      (rs : List ExecutionRecord)
      → (build_history rt config rs).windows
        ≡ (build_history rt config (keep (λ r. not (infra r)) rs)).windows
  unfolding build_history
  windows-keep rs =
      let start : Grouping = record { grouped = []; infra_excluded = 0; skipped = 0 } in
      ap (λ gs. sort_by window_leb (map window_of gs)) (group_records-keep rs start start refl)
