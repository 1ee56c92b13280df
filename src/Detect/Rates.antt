-- ===== src/Detect/Rates.antt =====
-- detect/rates.py: the flake rates, as exponentially weighted moving averages.
pub mod Bounds
use netflix_flaky_test_triag.Base.{
  ℕ, Bool, true, false, ◌||◌, not, List, [], ◌∷◌, keep, map, is_empty, length, ltb, if◌then◌else◌,
}
use netflix_flaky_test_triag.Runtime.{Runtime}
use netflix_flaky_test_triag.Config.{DetectConfig}
use netflix_flaky_test_triag.Detect.Window.{ShaWindow, WindowStatus, is_diverged, status}
use netflix_flaky_test_triag.Detect.History.{History, statuses, retry_data_available}

abbrev pub is_no_data : WindowStatus → Bool
is_no_data WindowStatus.no_data = true
is_no_data _ = false

abbrev pub is_diverged_status : WindowStatus → Bool
is_diverged_status WindowStatus.diverged = true
is_diverged_status _ = false

-- `current is not previous`
differs : WindowStatus → WindowStatus → Bool
differs WindowStatus.passed WindowStatus.passed = false
differs WindowStatus.failed WindowStatus.failed = false
differs WindowStatus.diverged WindowStatus.diverged = false
differs WindowStatus.no_data WindowStatus.no_data = false
differs _ _ = true

-- The indicator of one pair of consecutive commits.
abbrev flips : WindowStatus → WindowStatus → Bool
flips previous current =
    if is_diverged_status current || is_diverged_status previous
    then true
    else differs current previous

-- `pairwise`, with the test of each pair.
flip_list : WindowStatus → List WindowStatus → List Bool
flip_list previous [] = []
flip_list previous (current ∷ rest) = flips previous current ∷ flip_list current rest

pairwise_flips : List WindowStatus → List Bool
pairwise_flips [] = []
pairwise_flips (s ∷ ss) = flip_list s ss

-- The windows that produced data.
unfoldable pub data_windows : History → List ShaWindow
unfolding status
data_windows h = keep (λ w. not (is_no_data (status w))) h.windows

module _ {F : Type 0} (rt : Runtime F) where
  ewma_from : F → F → List F → F
  ewma_from alpha smoothed [] = smoothed
  ewma_from alpha smoothed (v ∷ vs) =
      ewma_from alpha (rt.add (rt.mul alpha v) (rt.mul (rt.sub (rt.of_nat 1) alpha) smoothed)) vs

  -- `ewma`
  unfoldable pub ewma : List F → F → F
  unfolding ewma_from
  ewma [] alpha = rt.of_nat 0
  ewma (v ∷ vs) alpha = ewma_from alpha v vs

  -- `1.0 if b else 0.0`
  abbrev pub indicator : Bool → F
  indicator b = if b then rt.of_nat 1 else rt.of_nat 0

  -- `divergence_rate`
  unfoldable pub divergence_rate : DetectConfig F → History → F
  unfolding data_windows
  divergence_rate config h =
      let windows = data_windows h in
      if is_empty windows
      then rt.of_nat 0
      else ewma (map (λ w. indicator (is_diverged w)) windows) config.ewma_alpha

  -- `intermittency_rate`
  unfoldable pub intermittency_rate : DetectConfig F → History → F
  unfolding pairwise_flips flip_list differs
  intermittency_rate config h =
      let known = keep (λ s. not (is_no_data s)) (statuses h) in
      if ltb (length known) 2
      then rt.of_nat 0
      else ewma (map indicator (pairwise_flips known)) config.ewma_alpha

  -- `flake_rate`
  unfoldable pub flake_rate : DetectConfig F → History → F
  flake_rate config h =
      if retry_data_available h then divergence_rate config h else intermittency_rate config h
