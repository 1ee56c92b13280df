-- ===== src/Classify/Schema/Answers.antt =====
-- `parse_and_validate` of classify/schema.py on every answer.
use netflix_flaky_test_triag.Base.{
  ◌≡◌, ◌⊎◌, refl, Bool, true, false, Option, none, some, Text, is_empty, strip, codes, Bool-cases,
  inl, inr, Option-cases,
}
use netflix_flaky_test_triag.Runtime.{Runtime, Json, Fields}
use netflix_flaky_test_triag.Models.Enums.{DowngradeReason}
use netflix_flaky_test_triag.Models.Records.{Classification, is_abstention}
use netflix_flaky_test_triag.Classify.Schema.{
  RawClassification, abstain, apply_guardrails, get_field, is_invented, validate_fields,
  validate_json, judge, parse_and_validate, strip_code_fence,
}
use netflix_flaky_test_triag.Classify.Schema.Guardrails.{
  IsGuarded, abstain-IsGuarded, apply_guardrails-IsGuarded,
}

-- The reasons for which an answer is refused as output.
abbrev pub is_output_failure : DowngradeReason → Bool
is_output_failure DowngradeReason.empty_response = true
is_output_failure DowngradeReason.invalid_json = true
is_output_failure DowngradeReason.schema_invalid = true
is_output_failure DowngradeReason.unknown_cause = true
is_output_failure _ = false

module _ {F : Type 0} (rt : Runtime F) (model_validate : Fields F → Option (RawClassification F))
    (floor : F) (model version : Text) where
  validate_fields-IsGuarded :
      (payload : Fields F)
      → IsGuarded rt floor (validate_fields rt model_validate floor model version payload).0
  unfolding validate_fields
  validate_fields-IsGuarded payload =
      elim (Bool-cases (is_invented rt (get_field (codes "cause") payload))) [
        | inl e ↦ rw e (abstain-IsGuarded rt floor _ model version _)
        | inr e ↦ rw e (elim (Option-cases (model_validate payload)) [
          | inl n ↦ rw n (abstain-IsGuarded rt floor _ model version _)
          | inr (raw, s) ↦ rw s (apply_guardrails-IsGuarded rt floor model version raw)
        ])
      ]

  validate_json-IsGuarded :
      (json : Option (Json F))
      → IsGuarded rt floor (validate_json rt model_validate floor model version json).0
  unfolding validate_json
  validate_json-IsGuarded none = abstain-IsGuarded rt floor _ model version _
  validate_json-IsGuarded (some Json.null) = abstain-IsGuarded rt floor _ model version _
  validate_json-IsGuarded (some (Json.bool b)) = abstain-IsGuarded rt floor _ model version _
  validate_json-IsGuarded (some (Json.num x)) = abstain-IsGuarded rt floor _ model version _
  validate_json-IsGuarded (some (Json.str s)) = abstain-IsGuarded rt floor _ model version _
  validate_json-IsGuarded (some (Json.arr xs)) = abstain-IsGuarded rt floor _ model version _
  validate_json-IsGuarded (some (Json.obj payload)) = validate_fields-IsGuarded payload

  -- Whatever text a model returns, the classification `parse_and_validate` makes of it either
  -- abstains and names no cause, or names one with one to six pieces of evidence, each a text of
  -- one to 300 characters, and a confidence not below the floor.
  pub parse_and_validate-IsGuarded :
      (text : Option Text)
      → IsGuarded rt floor (parse_and_validate rt model_validate floor model version text).0
  unfolding parse_and_validate judge
  parse_and_validate-IsGuarded none = abstain-IsGuarded rt floor _ model version _
  parse_and_validate-IsGuarded (some text) = elim (Bool-cases (is_empty (strip text))) [
    | inl e ↦ rw e (abstain-IsGuarded rt floor _ model version _)
    | inr e ↦ rw e (validate_json-IsGuarded (rt.json_loads (strip_code_fence text)))
  ]

  -- Where an accepted answer comes from: an object that the schema accepts, and the guardrails.
  abbrev pub IsAccepted : Option (Json F) → Classification F → Type 0
  IsAccepted json c =
      (payload : Fields F) × (raw : RawClassification F) × (json ≡ some (Json.obj payload))
      × (is_invented rt (get_field (codes "cause") payload) ≡ false)
      × (model_validate payload ≡ some raw)
      × (c ≡ apply_guardrails rt floor model version raw)

  abbrev pub IsRefused : Classification F → Type 0
  IsRefused c = (is_abstention c ≡ true) × (is_output_failure c.downgrade_reason ≡ true)

  validate_json-outcome :
      (json : Option (Json F))
      → let r = validate_json rt model_validate floor model version json in
        (r.1 ≡ true) × IsRefused r.0 ⊎ (r.1 ≡ false) × IsAccepted json r.0
  unfolding validate_json validate_fields abstain
  validate_json-outcome none = inl (refl, (refl, refl))
  validate_json-outcome (some Json.null) = inl (refl, (refl, refl))
  validate_json-outcome (some (Json.bool b)) = inl (refl, (refl, refl))
  validate_json-outcome (some (Json.num x)) = inl (refl, (refl, refl))
  validate_json-outcome (some (Json.str s)) = inl (refl, (refl, refl))
  validate_json-outcome (some (Json.arr xs)) = inl (refl, (refl, refl))
  validate_json-outcome (some (Json.obj payload)) =
      elim (Bool-cases (is_invented rt (get_field (codes "cause") payload))) [
        | inl e ↦ rw e (inl (refl, (refl, refl)))
        | inr e ↦ elim (Option-cases (model_validate payload)) [
          | inl n ↦ rw (e, n) (inl (refl, (refl, refl)))
          | inr (raw, s) ↦ rw (e, s) (inr (refl, (payload, raw, refl, e, s, refl)))
        ]
      ]

  -- A text is reported as malformed only when it is the response itself, and then the
  -- classification abstains with a reason that says what was wrong with the output. A response
  -- that is not reported and is not absent was a JSON object that the schema accepts, with no
  -- invented cause, and the classification is what the guardrails make of it.
  pub parse_and_validate_lem :
      (text : Text)
      → let r = parse_and_validate rt model_validate floor model version (some text) in
        (r.1 ≡ some text) × IsRefused r.0
        ⊎ (r.1 ≡ none) × IsAccepted (rt.json_loads (strip_code_fence text)) r.0
  unfolding parse_and_validate judge abstain
  parse_and_validate_lem text = elim (Bool-cases (is_empty (strip text))) [
    | inl e ↦ rw e (inl (refl, (refl, refl)))
    | inr e ↦ rw e (elim (validate_json-outcome (rt.json_loads (strip_code_fence text))) [
      | inl (m, h) ↦ rw m (inl (refl, h))
      | inr (m, h) ↦ rw m (inr (refl, h))
    ])
  ]
