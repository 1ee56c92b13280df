-- ===== src/Classify/Schema.antt =====
-- classify/schema.py: what is kept of a model's answer.
use netflix_flaky_test_triag.Base.{
  ℕ, ◌+◌, ◌-◌, suc, zero, ◌≡◌, Bool, true, false, ◌&&◌, ◌||◌, not, Option, none, some, List, [],
  ◌∷◌, Text, codes, is_empty, if◌then◌else◌, strip, take, length, ltb, leb, starts_with,
  split_lines, join, text_eq, text_in,
}
use netflix_flaky_test_triag.Runtime.{Runtime, Json, Items, Fields}
use netflix_flaky_test_triag.Models.Enums.{CauseCode, DowngradeReason, is_unknown}
use netflix_flaky_test_triag.Models.Records.{Classification}
pub mod Guardrails
pub mod Answers

pub record RawClassification (F : Type 0) : Type 0 where
  pub cause : CauseCode
  pub confidence : F
  pub reasoning : Text
  pub evidence : List Text
  pub suggested_action : Text
  pub abstained : Bool

abbrev pub max_evidence_items : ℕ
max_evidence_items = 6

abbrev pub max_evidence_chars : ℕ
max_evidence_chars = 300

-- `code.value for code in CauseCode`
abbrev pub cause_values : List Text
cause_values =
    codes "RACE_CONDITION"
    ∷ codes "TIMING_DEPENDENCY"
    ∷ codes "TEST_ORDER_DEPENDENCY"
    ∷ codes "EXTERNAL_DEPENDENCY"
    ∷ codes "SHARED_STATE_LEAK"
    ∷ codes "RESOURCE_EXHAUSTION"
    ∷ codes "INFRA_FLAKE"
    ∷ codes "REAL_REGRESSION"
    ∷ codes "UNKNOWN"
    ∷ []

-- The loop of `_clean_evidence`, where `room` is what `cleaned` still lacks of the limit.
unfoldable pub clean_from : ℕ → List Text → List Text
clean_from zero items = []
clean_from (suc room) [] = []
clean_from (suc room) (item ∷ items) =
    let text = strip item in
    elim (is_empty text) [
      | true ↦ clean_from (suc room) items
      | false ↦ take max_evidence_chars text ∷ clean_from room items
    ]

-- `_clean_evidence`
unfoldable pub clean_evidence : List Text → List Text
clean_evidence items = clean_from max_evidence_items items

-- `lines[1:]`
abbrev pub tail : List Text → List Text
tail [] = []
tail (x ∷ xs) = xs

-- `lines[-1].strip().startswith("```")`
unfoldable pub ends_fenced : List Text → Bool
ends_fenced [] = false
ends_fenced (x ∷ []) = starts_with (codes "```") (strip x)
ends_fenced (x ∷ y ∷ xs) = ends_fenced (y ∷ xs)

-- `_strip_code_fence`
unfoldable pub strip_code_fence : Text → Text
strip_code_fence text =
    let stripped = strip text in
    let lines = split_lines stripped in
    let fenced = ltb 2 (length lines) && ends_fenced lines in
    if not (starts_with (codes "```") stripped)
    then stripped
    else strip
        (join (codes "\n") (if fenced then take (length lines - 2) (tail lines) else tail lines))

-- `payload.get(key)`: the fields in their order, one for each key.
unfoldable pub get_field : {F : Type 0} → Text → Fields F → Option (Json F)
get_field key Fields.end = none
get_field key (Fields.field name value rest) =
    if text_eq name key then some value else get_field key rest

module _ {F : Type 0} (rt : Runtime F) where
  -- `abstain`
  unfoldable pub abstain : DowngradeReason → Text → Text → Text → Classification F
  abstain reason model prompt_version detail = record {
    cause = CauseCode.unknown;
    confidence = rt.of_nat 0;
    reasoning = detail;
    evidence = [];
    suggested_action = [];
    abstained = true;
    downgrade_reason = reason;
    model = model;
    prompt_version = prompt_version;
  }

  -- `apply_guardrails`
  unfoldable pub apply_guardrails : F → Text → Text → RawClassification F → Classification F
  apply_guardrails floor model prompt_version raw =
      let evidence = clean_evidence raw.evidence in
      if raw.abstained || is_unknown raw.cause
      then record {
        cause = CauseCode.unknown;
        confidence = raw.confidence;
        reasoning = raw.reasoning;
        evidence = evidence;
        suggested_action = raw.suggested_action;
        abstained = true;
        downgrade_reason =
            if raw.abstained then DowngradeReason.model_abstained else DowngradeReason.none;
        model = model;
        prompt_version = prompt_version;
      }
      else if is_empty evidence
      then abstain DowngradeReason.no_evidence model prompt_version raw.reasoning
      else if rt.lt raw.confidence floor
      then abstain DowngradeReason.below_confidence_floor model prompt_version raw.reasoning
      else record {
        cause = raw.cause;
        confidence = raw.confidence;
        reasoning = raw.reasoning;
        evidence = evidence;
        suggested_action = raw.suggested_action;
        abstained = false;
        downgrade_reason = DowngradeReason.none;
        model = model;
        prompt_version = prompt_version;
      }

  -- The test for a category the model invented.
  unfoldable pub is_invented : Option (Json F) → Bool
  is_invented (some (Json.str raw_cause)) = not (text_in (rt.upper (strip raw_cause)) cause_values)
  is_invented _ = false

  -- `RawClassification.model_validate`, pydantic's, over the fields of the object.
  module _ (model_validate : Fields F → Option (RawClassification F)) where
    -- What `parse_and_validate` does once the text is a JSON object.
    unfoldable pub validate_fields : F → Text → Text → Fields F → Classification F × Bool
    validate_fields floor model prompt_version payload =
        if is_invented (get_field (codes "cause") payload)
        then (abstain DowngradeReason.unknown_cause model prompt_version [], true)
        else elim (model_validate payload) [
          | none ↦ (abstain DowngradeReason.schema_invalid model prompt_version [], true)
          | some raw ↦ (apply_guardrails floor model prompt_version raw, false)
        ]

    unfoldable pub validate_json : F → Text → Text → Option (Json F) → Classification F × Bool
    validate_json floor model prompt_version none =
        (abstain DowngradeReason.invalid_json model prompt_version [], true)
    validate_json floor model prompt_version (some (Json.obj payload)) =
        validate_fields floor model prompt_version payload
    validate_json floor model prompt_version (some _) =
        (abstain DowngradeReason.schema_invalid model prompt_version [], true)

    -- The classification and whether the output was malformed.
    unfoldable pub judge : F → Text → Text → Option Text → Classification F × Bool
    judge floor model prompt_version none =
        (abstain DowngradeReason.empty_response model prompt_version [], true)
    judge floor model prompt_version (some text) =
        if is_empty (strip text)
        then (abstain DowngradeReason.empty_response model prompt_version [], true)
        else validate_json floor model prompt_version (rt.json_loads (strip_code_fence text))

    -- `parse_and_validate`, with the offending text where something was wrong with it: the text
    -- is `None` for an absent response as well.
    unfoldable pub parse_and_validate :
        F → Text → Text → Option Text → Classification F × Option Text
    parse_and_validate floor model prompt_version text =
        let (classification, malformed) = judge floor model prompt_version text in
        (classification, if malformed then text else none)
