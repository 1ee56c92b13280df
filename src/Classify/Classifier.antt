-- ===== src/Classify/Classifier.antt =====
-- classify/classifier.py: one detection to one classification, within a budget.
use netflix_flaky_test_triag.Base.{
  ℕ, ◌+◌, Bool, true, false, ◌&&◌, ◌||◌, not, Option, none, some, List, [], ◌∷◌, ◌++◌, Text, codes,
  if◌then◌else◌, or_else, is_empty, strip, take, length, ltb, leb, ◌==◌, keep, decimal, sort_by,
}
use netflix_flaky_test_triag.Runtime.{Runtime, Json, Fields}
use netflix_flaky_test_triag.Config.{ClassifyConfig}
use netflix_flaky_test_triag.Models.Enums.{DowngradeReason}
use netflix_flaky_test_triag.Models.Records.{Classification}
use netflix_flaky_test_triag.Models.Diff.{FileChange}
use netflix_flaky_test_triag.Detect.Results.{Detection, priority}
use netflix_flaky_test_triag.Classify.Schema.{
  RawClassification, abstain, parse_and_validate, get_field,
}
use netflix_flaky_test_triag.Classify.Pricing.{cost_usd}
use netflix_flaky_test_triag.Classify.Cache.{ClassificationCache, get, put, context_key}
pub mod Run
pub mod Spending
pub mod Guarded
pub mod Batch

pub data CallKind : Type 0 where
  prefilter_call classify_call repair_call : CallKind

-- `record.kind in {"classify", "repair"}`
abbrev pub is_billed : CallKind → Bool
is_billed CallKind.prefilter_call = false
is_billed _ = true

-- `CallRecord`, less the two flags that no call sets.
pub record CallRecord (F : Type 0) : Type 0 where
  pub kind : CallKind
  pub model : Text
  pub input_tokens : ℕ
  pub output_tokens : ℕ
  pub latency_ms : F
  pub cost_usd : F
  pub error : Option Text

pub data OutputSchema : Type 0 where
  classification_schema prefilter_schema : OutputSchema

-- The arguments of `ModelClient.complete`.
pub record Request (F : Type 0) : Type 0 where
  pub model : Text
  pub system : Text
  pub user : Text
  pub max_tokens : ℕ
  pub temperature : F
  pub schema : OutputSchema

-- `ModelResponse`, less the name of the model, which the classifier does not read.
pub record ModelResponse (F : Type 0) : Type 0 where
  pub text : Option Text
  pub input_tokens : ℕ
  pub output_tokens : ℕ
  pub latency_ms : F
  pub error : Option Text

-- The fixed texts of prompt.py, its cut of a budget, and what `str.format` makes.
pub record Prompts (F : Type 0) : Type 0 where
  -- `int(budget * _HEAD_FRACTION)`
  pub head_budget : ℕ → ℕ
  pub system_prompt : Text
  pub prefilter_system_prompt : Text
  pub repair_instruction : DowngradeReason → Text
  pub prompt_version_hash : Text
  -- `f"{x:.2f}"`
  pub cents : F → Text

-- What the classifier is built with, and the diff it is called with; `writable` and
-- `model_validate` belong to the file system and to pydantic.
pub record Setup (F : Type 0) : Type 0 where
  pub config : ClassifyConfig F
  pub budget_usd : F
  pub prices : List (Text × (F × F))
  pub prompts : Prompts F
  pub diff : Option (List FileChange)
  pub model_validate : Fields F → Option (RawClassification F)
  pub writable : Text → Bool

-- What changes while it runs: `ClassifyStats`, the cache and `cache_hit_ids`.
pub record ClassifierState (F : Type 0) : Type 0 where
  pub calls : List (CallRecord F)
  pub cache_hits : ℕ
  pub cache_misses : ℕ
  pub prefiltered : ℕ
  pub repairs_attempted : ℕ
  pub repairs_succeeded : ℕ
  pub schema_failures : ℕ
  pub budget_exhausted_count : ℕ
  pub cache : Option (ClassificationCache F)
  pub cache_hit_ids : List ℕ

-- A client answers a request as it will, the calls before it known to it.
abbrev pub ModelClient : Type 0 → Type 0
ModelClient F = List (CallRecord F) → Request F → ModelResponse F

module _ {F : Type 0} (rt : Runtime F) where
  unfoldable pub cost_from : F → List (CallRecord F) → F
  cost_from spent [] = spent
  cost_from spent (c ∷ calls) = cost_from (rt.add spent c.cost_usd) calls

  -- `ClassifyStats.total_cost_usd`
  unfoldable pub total_cost_usd : List (CallRecord F) → F
  total_cost_usd calls = cost_from (rt.of_nat 0) calls

  -- `_mean_classify_cost`
  unfoldable pub mean_classify_cost : List (CallRecord F) → F
  mean_classify_cost calls =
      let billed = keep (λ c. is_billed c.kind) calls in
      if is_empty billed
      then rt.of_nat 0
      else rt.div (total_cost_usd billed) (rt.of_nat (length billed))

  -- `_would_exceed_budget`
  unfoldable pub would_exceed_budget : F → List (CallRecord F) → Bool
  would_exceed_budget budget calls =
      let spent = total_cost_usd calls in
      let estimate = mean_classify_cost calls in
      if rt.le budget spent
      then true
      else rt.lt (rt.of_nat 0) estimate && rt.lt budget (rt.add spent estimate)

  -- `_read_prefilter_verdict`
  unfoldable pub verdict_of : Option (Json F) → Bool
  verdict_of (some (Json.obj payload)) = elim (get_field (codes "classifiable") payload) [
    | some (Json.bool verdict) ↦ verdict
    | _ ↦ true
  ]
  verdict_of _ = true

  unfoldable pub read_prefilter_verdict : Text → Bool
  read_prefilter_verdict text = verdict_of (rt.json_loads (strip text))

  -- The order of `sorted(..., key=priority, reverse=True)`: the higher tuple first.
  unfoldable pub priority_leb : Detection F → Detection F → Bool
  priority_leb a b =
      let (rate, seen) = priority a in
      let (rate', seen') = priority b in
      if rt.lt rate' rate then true else if rt.lt rate rate' then false else leb seen' seen
