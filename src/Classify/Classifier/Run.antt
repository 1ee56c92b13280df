-- ===== src/Classify/Classifier/Run.antt =====
-- classify/classifier.py: the methods of `Classifier`, each from a state to the next.
use netflix_flaky_test_triag.Base.{
  ℕ, ◌+◌, Bool, true, ◌&&◌, not, Option, none, some, [], ◌∷◌, ◌++◌, Text, codes, if◌then◌else◌,
  or_else, is_empty, take, ◌==◌,
}
use netflix_flaky_test_triag.Runtime.{Runtime}
use netflix_flaky_test_triag.Models.Enums.{DowngradeReason}
use netflix_flaky_test_triag.Models.Records.{Classification}
use netflix_flaky_test_triag.Detect.Results.{Detection}
use netflix_flaky_test_triag.Classify.Schema.{abstain, parse_and_validate}
use netflix_flaky_test_triag.Classify.Context.Message.{build_context, build_prefilter_context}
use netflix_flaky_test_triag.Classify.Pricing.{cost_usd}
use netflix_flaky_test_triag.Classify.Cache.{get, put, context_key}
use netflix_flaky_test_triag.Classify.Classifier.{
  CallKind, CallRecord, OutputSchema, Request, ModelResponse, Setup, ClassifierState, ModelClient,
  would_exceed_budget, read_prefilter_verdict,
}

-- `max_tokens or self._config.max_output_tokens`
abbrev pub nonzero_or : Option ℕ → ℕ → ℕ
nonzero_or none n = n
nonzero_or (some m) n = if m == 0 then n else m

module _ {F : Type 0} (rt : Runtime F) (setup : Setup F) where
  unfoldable pub refuse : DowngradeReason → Text → Text → Classification F
  refuse reason model detail = abstain rt reason model setup.prompts.prompt_version_hash detail

  -- `_would_exceed_budget` of the classifier.
  unfoldable pub exceeds : ClassifierState F → Bool
  exceeds s = would_exceed_budget rt setup.budget_usd s.calls

  -- The `build_context` of `classify`.
  unfoldable pub context_of : Detection F → Text
  context_of detection =
      build_context rt setup.prompts.head_budget detection setup.diff
        setup.config.trace_budget_chars none

  -- `_cache_model_id`
  unfoldable pub cache_model_id : Text
  cache_model_id =
      if not setup.config.prefilter_enabled
      then setup.config.classifier_model
      else setup.config.classifier_model ++ codes "+gate:" ++ setup.config.prefilter_model

  unfoldable pub call_record : CallKind → Request F → ModelResponse F → CallRecord F
  call_record kind request response = record {
    kind = kind;
    model = request.model;
    input_tokens = response.input_tokens;
    output_tokens = response.output_tokens;
    latency_ms = response.latency_ms;
    cost_usd = cost_usd rt setup.prices request.model response.input_tokens response.output_tokens;
    error = response.error;
  }

  unfoldable pub request_for : Text → Text → Text → Option ℕ → OutputSchema → Request F
  request_for model system user max_tokens schema = record {
    model = model;
    system = system;
    user = user;
    max_tokens = nonzero_or max_tokens setup.config.max_output_tokens;
    temperature = setup.config.temperature;
    schema = schema;
  }

  -- `_store`
  unfoldable pub store : Text → Classification F → ClassifierState F → ClassifierState F
  store key c s = elim s.cache [
    | none ↦ s
    | some cache ↦ record s { cache = some (put setup.writable key c cache) }
  ]

  -- The cache of `classify`: the state after the lookup, and the answer found.
  unfoldable pub look_up :
      Text → Detection F → ClassifierState F → ClassifierState F × Option (Classification F)
  look_up key detection s = elim s.cache [
    | none ↦ (s, none)
    | some cache ↦
        let found = get key cache in
        elim found.1 [
          | some cached ↦ (
            record s {
              cache = some found.0;
              cache_hits = s.cache_hits + 1;
              cache_hit_ids = detection.identity_id ∷ s.cache_hit_ids;
            },
            some cached,
          )
          | none ↦ (record s { cache = some found.0; cache_misses = s.cache_misses + 1 }, none)
        ]
  ]

  module _ (client : ModelClient F) where
    -- `_call`
    unfoldable pub call :
        CallKind → Request F → ClassifierState F → ClassifierState F × ModelResponse F
    call kind request s =
        let response = client s.calls request in
        (record s { calls = s.calls ++ call_record kind request response ∷ [] }, response)

    unfoldable pub escalates : ModelResponse F → Bool
    escalates response = elim response.error [
      | some error ↦ true
      | none ↦ elim response.text [
        | none ↦ true
        | some text ↦ if is_empty text then true else read_prefilter_verdict rt text
      ]
    ]

    -- `_prefilter`: whether to go on.
    unfoldable pub prefilter : Detection F → ClassifierState F → ClassifierState F × Bool
    prefilter detection s =
        let request =
          request_for setup.config.prefilter_model setup.prompts.prefilter_system_prompt
            (build_prefilter_context rt setup.prompts.head_budget detection 600)
            (some setup.config.prefilter_max_output_tokens) OutputSchema.prefilter_schema in
        let (after, response) = call CallKind.prefilter_call request s in
        (after, escalates response)

    -- A call of the classifier's model, and its answer read: none where the call failed.
    unfoldable pub ask :
        CallKind
        → Text
        → ClassifierState F
        → ClassifierState F × ModelResponse F × Option (Classification F × Option Text)
    ask kind user s =
        let model = setup.config.classifier_model in
        let request =
          request_for model setup.prompts.system_prompt user none
            OutputSchema.classification_schema in
        let (after, response) = call kind request s in
        let read =
          parse_and_validate rt setup.model_validate setup.config.confidence_floor model
            setup.prompts.prompt_version_hash response.text in
        (after, response, elim response.error [ none ↦ some read | some error ↦ none ])

    unfoldable pub repair_prompt : Text → DowngradeReason → Option Text → Text
    repair_prompt context reason previous =
        context
        ++ codes "\n\n"
        ++ setup.prompts.repair_instruction reason
        ++ codes "\n\nYour previous response was:\n"
        ++ take 800 (or_else previous [])

    -- `_classify_with_repair`, from the first malformed answer on.
    unfoldable pub repair :
        Text
        → DowngradeReason
        → Option Text
        → ClassifierState F
        → ClassifierState F × Classification F
    repair context reason previous s =
        let model = setup.config.classifier_model in
        let counted : ClassifierState F = record s {
          schema_failures = s.schema_failures + 1;
          repairs_attempted = s.repairs_attempted + 1;
        } in
        let (after, response, answer) =
          ask CallKind.repair_call (repair_prompt context reason previous) counted in
        if exceeds counted
        then (
          counted,
          refuse DowngradeReason.budget_exhausted model
              (codes "schema repair skipped: budget exhausted"),
        )
        else elim answer [
          | none ↦ (
            after,
            refuse DowngradeReason.api_error model
                (codes "repair call failed: " ++ or_else response.error []),
          )
          | some (c, none) ↦ (record after { repairs_succeeded = after.repairs_succeeded + 1 }, c)
          | some (c, some malformed) ↦ (
            after,
            refuse DowngradeReason.schema_invalid model
                (codes "model output failed schema validation twice"),
          )
        ]

    -- `_classify_with_repair`
    unfoldable pub classify_with_repair :
        Text → ClassifierState F → ClassifierState F × Classification F
    classify_with_repair context s =
        let (after, response, answer) = ask CallKind.classify_call context s in
        elim answer [
          | none ↦ (
            after,
            refuse DowngradeReason.api_error setup.config.classifier_model
                (codes "model call failed: " ++ or_else response.error []),
          )
          | some (c, none) ↦ (after, c)
          | some (c, some malformed) ↦ repair context c.downgrade_reason response.text after
        ]

    -- `classify`, from the budget check on.
    unfoldable pub classify_fresh :
        Text → Text → Detection F → ClassifierState F → ClassifierState F × Classification F
    classify_fresh key context detection s =
        let gate = prefilter detection s in
        let gated = setup.config.prefilter_enabled in
        let rejected =
          refuse DowngradeReason.prefiltered setup.config.prefilter_model
            (codes "the cheap triage gate found no specific evidence to classify") in
        let answered = classify_with_repair context (if gated then gate.0 else s) in
        if exceeds s
        then (
          record s { budget_exhausted_count = s.budget_exhausted_count + 1 },
          refuse DowngradeReason.budget_exhausted setup.config.classifier_model (
              codes "per-invocation budget of $"
              ++ setup.prompts.cents setup.budget_usd
              ++ codes " is exhausted"),
        )
        else if gated && not gate.1
        then (store key rejected (record gate.0 { prefiltered = gate.0.prefiltered + 1 }), rejected)
        else (store key answered.1 answered.0, answered.1)

  -- `classify`
  unfoldable pub classify :
      Option (ModelClient F)
      → Detection F
      → ClassifierState F
      → ClassifierState F × Classification F
  classify none detection s =
      (s, refuse DowngradeReason.llm_disabled [] (codes "classification was not requested"))
  classify (some client) detection s =
      let context = context_of detection in
      let key = context_key rt context cache_model_id setup.prompts.prompt_version_hash in
      let looked = look_up key detection s in
      elim looked.1 [
        | some cached ↦ (looked.0, cached)
        | none ↦ classify_fresh client key context detection looked.0
      ]
