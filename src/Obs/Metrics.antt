-- ===== src/Obs/Metrics.antt =====
-- obs/metrics.py: the tables of model calls and classifications, and their aggregates.
use netflix_flaky_test_triag.Base.{
  ℕ, Bool, true, false, ◌&&◌, ◌||◌, Option, none, some, List, [], ◌∷◌, ◌++◌, map, reverse, Text,
  length, any, ◌>>=◌, is_empty, ◌==◌, if◌then◌else◌,
}
use netflix_flaky_test_triag.Models.Enums.{CauseCode, DowngradeReason}
use netflix_flaky_test_triag.Models.Records.{Classification}
use netflix_flaky_test_triag.Store.Aliases.{has_id}
use netflix_flaky_test_triag.Store.Tables.{RunRow, next_id}
use netflix_flaky_test_triag.Classify.Classifier.{CallKind, CallRecord}

pub record CallMetric (F : Type 0) : Type 0 where
  pub kind : CallKind
  pub model : Text
  pub prompt_version : Text
  pub input_tokens : ℕ
  pub output_tokens : ℕ
  pub cost_usd : F
  pub latency_ms : F
  pub cache_hit : Bool
  pub schema_valid : Bool
  pub error : Option Text

-- `Classifier.as_call_metrics`; no call record has other flags than these.
unfoldable pub as_call_metrics : {F : Type 0} → Text → List (CallRecord F) → List (CallMetric F)
as_call_metrics prompt_version = map (λ r. record {
  kind = r.kind;
  model = r.model;
  prompt_version = prompt_version;
  input_tokens = r.input_tokens;
  output_tokens = r.output_tokens;
  cost_usd = r.cost_usd;
  latency_ms = r.latency_ms;
  cache_hit = false;
  schema_valid = true;
  error = r.error;
})

pub record CallRow (F : Type 0) : Type 0 where
  pub run_pk : Option ℕ
  pub call : CallMetric F
  pub created_at : Text

-- The columns of `classifications`; an absent text is NULL, and `evidence` is the list that the
-- JSON text stands for.
pub record ClassificationRow (F : Type 0) : Type 0 where
  pub id : ℕ
  pub identity_id : ℕ
  pub run_pk : Option ℕ
  pub commit_sha : Text
  pub cause : CauseCode
  pub confidence : F
  pub abstained : Bool
  pub downgrade_reason : DowngradeReason
  pub reasoning : Option Text
  pub evidence : Option (List Text)
  pub suggested_action : Option Text
  pub model : Text
  pub prompt_version : Text
  pub cache_hit : Bool
  pub created_at : Text

-- The tables that the metrics read, the newest rows first, with the ids of the tests.
pub record MetricTables (F : Type 0) : Type 0 where
  pub runs : List RunRow
  pub test_ids : List ℕ
  pub llm_calls : List (CallRow F)
  pub classifications : List (ClassificationRow F)

abbrev pub non_empty : {A : Type 0} → List A → Option (List A)
non_empty [] = none
non_empty (x ∷ xs) = some (x ∷ xs)

-- A reference to a run holds, or is NULL.
abbrev pub known_run : Option ℕ → List RunRow → Bool
known_run none runs = true
known_run (some id) runs = any (λ r. r.id == id) runs

-- All keys are ids of tests.
abbrev pub known_tests : {A : Type 0} → List (ℕ × A) → List ℕ → Bool
known_tests [] ids = true
known_tests ((id, a) ∷ items) ids = has_id id ids && known_tests items ids

module _ {F : Type 0} where
  -- `record_calls`, none for a failed reference.
  unfoldable pub record_calls :
      Text → Option ℕ → List (CallMetric F) → MetricTables F → Option (MetricTables F × ℕ)
  record_calls now run_pk calls t =
      if is_empty calls || known_run run_pk t.runs
      then some (
        record t {
          llm_calls =
              reverse (map (λ c. record { run_pk = run_pk; call = c; created_at = now }) calls)
              ++ t.llm_calls;
        },
        length calls,
      )
      else none

  -- One row of `record_classifications`.
  unfoldable pub classification_row :
      Text
      → Option ℕ
      → Text
      → List ℕ
      → ℕ × Classification F
      → List (ClassificationRow F)
      → ClassificationRow F
  classification_row now run_pk commit_sha cache_hits (identity_id, c) rows = record {
    id = next_id (λ r. r.id) rows;
    identity_id = identity_id;
    run_pk = run_pk;
    commit_sha = commit_sha;
    cause = c.cause;
    confidence = c.confidence;
    abstained = c.abstained;
    downgrade_reason = c.downgrade_reason;
    reasoning = non_empty c.reasoning;
    evidence = non_empty c.evidence;
    suggested_action = non_empty c.suggested_action;
    model = c.model;
    prompt_version = c.prompt_version;
    cache_hit = has_id identity_id cache_hits;
    created_at = now;
  }

  unfoldable pub add_classifications :
      Text
      → Option ℕ
      → Text
      → List ℕ
      → List (ℕ × Classification F)
      → List (ClassificationRow F)
      → List (ClassificationRow F)
  unfolding classification_row
  add_classifications now run_pk commit_sha cache_hits [] rows = rows
  add_classifications now run_pk commit_sha cache_hits (item ∷ items) rows =
      add_classifications now run_pk commit_sha cache_hits items
        (classification_row now run_pk commit_sha cache_hits item rows ∷ rows)

  -- `record_classifications`, of the items of the dictionary; none for a failed reference.
  unfoldable pub record_classifications :
      Text
      → Option ℕ
      → Text
      → List ℕ
      → List (ℕ × Classification F)
      → MetricTables F
      → Option (MetricTables F × ℕ)
  unfolding add_classifications
  record_classifications now run_pk commit_sha cache_hits items t =
      if is_empty items || (known_run run_pk t.runs && known_tests items t.test_ids)
      then some (
        record t {
          classifications =
              add_classifications now run_pk commit_sha cache_hits items t.classifications;
        },
        length items,
      )
      else none

  -- `RunStore.record_metrics`, one transaction: none leaves the tables as they are.
  unfoldable pub record_metrics :
      Text
      → Text
      → Option ℕ
      → Text
      → List ℕ
      → List (CallMetric F)
      → List (ℕ × Classification F)
      → MetricTables F
      → Option (MetricTables F × (ℕ × ℕ))
  unfolding record_calls record_classifications
  record_metrics now later run_pk commit_sha cache_hits calls items t = do
    (with_calls, n) ← record_calls now run_pk calls t
    (with_both, k) ← record_classifications later run_pk commit_sha cache_hits items with_calls
    some (with_both, (n, k))
