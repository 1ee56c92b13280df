-- ===== src/Detect/History/Separation.antt =====
-- The windows of `build_history` of detect/history.py, by commit.
use netflix_flaky_test_triag.Base.{
  ℕ, ◌≤◌, ◌≡◌, refl, sym, false, List, [], ◌∷◌, ◌++◌, map, sum_of, All, Text, text_eq, text_eq→eq,
  text_eq_iff, sum-sort_by, All-sort_by, if◌then◌else◌, arith, Bool-cases, inl, inr,
}
use netflix_flaky_test_triag.Runtime.{Runtime}
use netflix_flaky_test_triag.Config.{DetectConfig}
use netflix_flaky_test_triag.Store.Execution.{ExecutionRecord}
use netflix_flaky_test_triag.Detect.Infra.{is_infra_failure}
use netflix_flaky_test_triag.Detect.Window.{ShaWindow, sha_window}
use netflix_flaky_test_triag.Detect.History.{
  Group, Grouping, add_record, window_of, group_step, group_records, build_history, window_leb,
}

-- The number of groups, or of windows, of a commit.
abbrev groups_at : Text → List Group → ℕ
groups_at sha gs = sum_of (λ g. if text_eq g.sha sha then 1 else 0) gs

abbrev pub windows_at : Text → List ShaWindow → ℕ
windows_at sha ws = sum_of (λ w. if text_eq w.commit_sha sha then 1 else 0) ws

-- A record of the commit that is no platform failure.
abbrev pub Belongs : {F : Type 0} → Runtime F → DetectConfig F → Text → ExecutionRecord → Type 0
Belongs rt config sha r = (r.commit_sha ≡ sha) × (is_infra_failure rt config r ≡ false)

groups_at-add_other :
    (r : ExecutionRecord) (sha : Text) (gs : List Group)
    → text_eq r.commit_sha sha ≡ false
    → groups_at sha (add_record r gs) ≡ groups_at sha gs
unfolding add_record
groups_at-add_other r sha [] h = ground arith
groups_at-add_other r sha (g ∷ gs) h = ground (arith, groups_at-add_other r sha gs h)

groups_at-add_record :
    (r : ExecutionRecord) (sha : Text) (gs : List Group)
    → groups_at sha gs ≤ 1
    → groups_at sha (add_record r gs) ≤ 1
unfolding add_record
groups_at-add_record r sha [] h = ground arith
groups_at-add_record r sha (g ∷ gs) h = ground (
  arith,
  groups_at-add_record r sha gs,
  groups_at-add_other r sha gs,
  text_eq_iff g.sha r.commit_sha,
  text_eq_iff g.sha sha,
  text_eq_iff r.commit_sha sha,
)

All-snoc :
    {A : Type 0} (P : A → Type 0) (x : A) (xs : List A) → All P xs → P x → All P (xs ++ x ∷ [])
All-snoc P x [] h p = (p, tt)
All-snoc P x (y ∷ ys) (hy, hs) p = (hy, All-snoc P x ys hs p)

module _ {F : Type 0} (rt : Runtime F) (config : DetectConfig F) where
  abbrev IsSound : Group → Type 0
  IsSound g = All (Belongs rt config g.sha) (g.first ∷ g.rest)

  add_record-IsSound :
      (r : ExecutionRecord) (gs : List Group)
      → is_infra_failure rt config r ≡ false
      → All IsSound gs
      → All IsSound (add_record r gs)
  unfolding add_record
  add_record-IsSound r [] h s = (((refl, h), tt), tt)
  add_record-IsSound r (g ∷ gs) h (sg, ss) = elim (Bool-cases (text_eq g.sha r.commit_sha)) [
    | inl e ↦ rw e (
      All-snoc (Belongs rt config g.sha) r (g.first ∷ g.rest) sg
          (sym (text_eq→eq g.sha r.commit_sha e), h),
      ss,
    )
    | inr e ↦ rw e (sg, add_record-IsSound r gs h ss)
  ]

  -- Every group is sound, and no commit has two.
  record IsSeparated (gs : List Group) : Type 0 where
    sound : All IsSound gs
    once : (sha : Text) → groups_at sha gs ≤ 1

  group_step-IsSeparated :
      (r : ExecutionRecord) (s : Grouping)
      → IsSeparated s.grouped
      → IsSeparated (group_step rt config r s).grouped
  unfolding group_step
  group_step-IsSeparated r s h = elim (Bool-cases (is_infra_failure rt config r)) [
    | inl e ↦ rw e h
    | inr e ↦ rw e (record {
      sound = add_record-IsSound r s.grouped e h.sound;
      once = λ sha. groups_at-add_record r sha s.grouped (h.once sha);
    })
  ]

  group_records-IsSeparated :
      (rs : List ExecutionRecord) (s : Grouping)
      → IsSeparated s.grouped
      → IsSeparated (group_records rt config rs s).grouped
  unfolding group_records
  group_records-IsSeparated [] s h = h
  group_records-IsSeparated (r ∷ rs) s h =
      group_records-IsSeparated rs (group_step rt config r s) (group_step-IsSeparated r s h)

  abbrev pub WindowBelongs : ShaWindow → Type 0
  WindowBelongs w = All (Belongs rt config w.commit_sha) w.records

  windows-IsSound : (gs : List Group) → All IsSound gs → All WindowBelongs (map window_of gs)
  unfolding sha_window
  windows-IsSound [] h = tt
  windows-IsSound (g ∷ gs) (h, hs) = (h, windows-IsSound gs hs)

  windows_at-map :
      (sha : Text) (gs : List Group) → windows_at sha (map window_of gs) ≡ groups_at sha gs
  unfolding sha_window
  windows_at-map sha [] = refl
  windows_at-map sha (g ∷ gs) = ground (arith, windows_at-map sha gs)

  -- For every list of executions, the history has at most one window for each commit, and every
  -- execution in a window is of that window's commit and is no platform failure.
  pub build_history-windows :
      (rs : List ExecutionRecord)
      → let ws = (build_history rt config rs).windows in
        ((sha : Text) → windows_at sha ws ≤ 1) × All WindowBelongs ws
  unfolding build_history
  build_history-windows rs =
      let start : Grouping = record { grouped = []; infra_excluded = 0; skipped = 0 } in
      let t = group_records rt config rs start in
      let sep =
        group_records-IsSeparated rs start (record { sound = tt; once = λ sha. omega arith }) in
      (
        λ sha.
            rw
              (sum-sort_by window_leb (λ w. if text_eq w.commit_sha sha then 1 else 0)
                (map window_of t.grouped))
              (rw (windows_at-map sha t.grouped) (sep.once sha)),
        All-sort_by window_leb WindowBelongs (map window_of t.grouped)
            (windows-IsSound t.grouped sep.sound),
      )
