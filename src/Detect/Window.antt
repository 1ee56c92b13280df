-- ===== src/Detect/Window.antt =====
-- detect/history.py: all observations of one test at one commit.
pub mod Divergence
use netflix_flaky_test_triag.Base.{
  ℕ, ◌≡◌, Bool, true, false, ◌&&◌, ◌||◌, not, List, [], ◌∷◌, ◌++◌, Text, is_empty, any, keep, map,
  length, ltb, ◌==◌, text_eq, text_in, text_leb, sort_by, if◌then◌else◌, leb,
}
use netflix_flaky_test_triag.Models.Enums.{Outcome, is_pass, is_failure, counts_as_observation}
use netflix_flaky_test_triag.Store.Execution.{ExecutionRecord}

pub data WindowStatus : Type 0 where
  passed failed diverged no_data : WindowStatus

pub record ShaWindow : Type 0 where
  pub commit_sha : Text
  pub records : List ExecutionRecord
  pub started_at : Text
  pub branch : Text
  pub outcomes : List Outcome
  pub attempts : List ℕ
  pub shards : List Text
  pub rerun_observed : Bool
  pub infra_excluded : ℕ

-- The least of a text and some others.
min_text : Text → List Text → Text
min_text m [] = m
min_text m (t ∷ ts) = min_text (if text_leb m t then m else t) ts

-- A set of numbers or of texts, in order of first appearance.
abbrev pub has : ℕ → List ℕ → Bool
has n ns = any (λ m. m == n) ns

unfoldable pub distinct : List ℕ → List ℕ
distinct [] = []
distinct (n ∷ ns) = let rest = distinct ns in if has n ns then rest else n ∷ rest

unfoldable pub distinct_texts : List Text → List Text
distinct_texts [] = []
distinct_texts (t ∷ ts) = let rest = distinct_texts ts in if text_in t ts then rest else t ∷ rest

abbrev pub outcomes_of : List ExecutionRecord → List Outcome
outcomes_of rs = keep counts_as_observation (map (λ r. r.outcome) rs)

-- `ShaWindow(commit_sha, records)`: the records of a commit are never empty, so the first is apart.
unfoldable pub sha_window : Text → ExecutionRecord → List ExecutionRecord → ShaWindow
unfolding min_text distinct distinct_texts
sha_window sha first rest =
    let records = first ∷ rest in
    record {
      commit_sha = sha;
      records = records;
      started_at = min_text first.started_at (map (λ r. r.started_at) rest);
      branch = first.branch;
      outcomes = outcomes_of records;
      attempts = sort_by leb (distinct (map (λ r. r.attempt) records));
      shards =
          sort_by text_leb
            (distinct_texts (keep (λ s. not (is_empty s)) (map (λ r. r.shard_id) records)));
      rerun_observed = any (λ r. r.rerun_observed) records;
      infra_excluded = 0;
    }

abbrev pub observations : ShaWindow → ℕ
observations w = length w.outcomes

abbrev pub has_pass : ShaWindow → Bool
has_pass w = any is_pass w.outcomes

abbrev pub has_failure : ShaWindow → Bool
has_failure w = any is_failure w.outcomes

-- `ShaWindow.diverged`
abbrev pub is_diverged : ShaWindow → Bool
is_diverged w = (has_pass w && has_failure w) || w.rerun_observed

-- The attempts that have an observed outcome of a kind, as `by_attempt` collects them.
attempts_with : (Outcome → Bool) → List ExecutionRecord → List ℕ
attempts_with kind rs =
    map (λ r. r.attempt) (keep (λ r. counts_as_observation r.outcome && kind r.outcome) rs)

-- `xs - ys` has an element.
abbrev has_beyond : List ℕ → List ℕ → Bool
has_beyond xs ys = any (λ x. not (has x ys)) xs

-- `ShaWindow.diverged_across_attempts`
unfoldable pub diverged_across_attempts : ShaWindow → Bool
unfolding attempts_with
diverged_across_attempts w =
    let passing = attempts_with is_pass w.records in
    let failing = attempts_with is_failure w.records in
    if not (is_diverged w) || ltb (length w.attempts) 2
    then false
    else not (is_empty passing)
      && not (is_empty failing)
      && (has_beyond passing failing || has_beyond failing passing)

-- `ShaWindow.status`
unfoldable pub status : ShaWindow → WindowStatus
status w =
    if is_diverged w
    then diverged
    else if is_empty w.outcomes
    then no_data
    else if has_failure w
    then failed
    else passed

-- `ShaWindow.failing_shards`
unfoldable pub failing_shards : ShaWindow → List Text
unfolding distinct_texts
failing_shards w = sort_by text_leb (
    distinct_texts (
      map (λ r. r.shard_id)
        (keep (λ r. not (is_empty r.shard_id) && is_failure r.outcome) w.records)))
