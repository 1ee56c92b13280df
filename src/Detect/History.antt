-- ===== src/Detect/History.antt =====
-- detect/history.py: a test's executions, collapsed into one window per commit.
pub mod Totals
pub mod Separation
use netflix_flaky_test_triag.Base.{
  ℕ, ◌+◌, ◌≡◌, Bool, true, false, ◌&&◌, ◌||◌, not, Option, none, some, List, [], ◌∷◌, ◌++◌, Text,
  map, reverse, keep, length, is_empty, last?, leb, sum_of, sort_by, text_eq, text_leb,
  if◌then◌else◌,
}
use netflix_flaky_test_triag.Runtime.{Runtime}
use netflix_flaky_test_triag.Config.{DetectConfig}
use netflix_flaky_test_triag.Models.Enums.{is_failure, counts_as_observation}
use netflix_flaky_test_triag.Store.Execution.{ExecutionRecord}
use netflix_flaky_test_triag.Detect.Infra.{is_infra_failure}
use netflix_flaky_test_triag.Detect.Window.{
  ShaWindow, WindowStatus, sha_window, observations as window_observations, status,
}

pub record History : Type 0 where
  pub windows : List ShaWindow
  pub infra_excluded : ℕ
  pub skipped : ℕ

-- `History.observations`
abbrev pub observations : History → ℕ
observations h = sum_of window_observations h.windows

-- `History.measurable_windows`
abbrev pub measurable_windows : History → List ShaWindow
measurable_windows h = keep (λ w. leb 2 (window_observations w)) h.windows

-- `History.retry_data_available`
abbrev pub retry_data_available : History → Bool
retry_data_available h = not (is_empty (measurable_windows h))

-- `History.latest`
abbrev pub latest : History → Option ShaWindow
latest h = last? h.windows

-- The last failing record of the first window that has one.
first_failure : List ShaWindow → Option ExecutionRecord
first_failure [] = none
first_failure (w ∷ ws) =
    let rest = first_failure ws in
    elim (last? (keep (λ r. is_failure r.outcome) w.records)) [ some r ↦ some r | none ↦ rest ]

-- `History.latest_failure`
unfoldable pub latest_failure : History → Option ExecutionRecord
unfolding first_failure
latest_failure h = first_failure (reverse h.windows)

-- `History.statuses`
unfoldable pub statuses : History → List WindowStatus
statuses h = map status h.windows

-- The records of one commit, in order of arrival: never empty, so the first is apart.
pub record Group : Type 0 where
  pub sha : Text
  pub first : ExecutionRecord
  pub rest : List ExecutionRecord

-- `grouped.setdefault(record.commit_sha, []).append(record)`
unfoldable pub add_record : ExecutionRecord → List Group → List Group
add_record r [] = record { sha = r.commit_sha; first = r; rest = [] } ∷ []
add_record r (g ∷ gs) =
    let more = g ∷ add_record r gs in
    if text_eq g.sha r.commit_sha then record g { rest = g.rest ++ r ∷ [] } ∷ gs else more

pub record Grouping : Type 0 where
  pub grouped : List Group
  pub infra_excluded : ℕ
  pub skipped : ℕ

-- `(window.started_at, window.commit_sha)`, compared as tuples.
window_leb : ShaWindow → ShaWindow → Bool
window_leb v w =
    if text_eq v.started_at w.started_at
    then text_leb v.commit_sha w.commit_sha
    else text_leb v.started_at w.started_at

abbrev window_of : Group → ShaWindow
window_of g = sha_window g.sha g.first g.rest

module _ {F : Type 0} (rt : Runtime F) (config : DetectConfig F) where
  -- One round of the loop of `build_history`.
  group_step : ExecutionRecord → Grouping → Grouping
  group_step r s =
      if is_infra_failure rt config r
      then record s { infra_excluded = s.infra_excluded + 1 }
      else record s {
        grouped = add_record r s.grouped;
        skipped = if counts_as_observation r.outcome then s.skipped else s.skipped + 1;
      }

  group_records : List ExecutionRecord → Grouping → Grouping
  unfolding group_step
  group_records [] s = s
  group_records (r ∷ rs) s = group_records rs (group_step r s)

  -- `build_history`
  unfoldable pub build_history : List ExecutionRecord → History
  unfolding group_records window_leb
  build_history rs =
      let s = group_records rs (record { grouped = []; infra_excluded = 0; skipped = 0 }) in
      record {
        windows = sort_by window_leb (map window_of s.grouped);
        infra_excluded = s.infra_excluded;
        skipped = s.skipped;
      }
