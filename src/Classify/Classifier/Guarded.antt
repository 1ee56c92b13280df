-- ===== src/Classify/Classifier/Guarded.antt =====
-- The answers of `classify` of classify/classifier.py and of its cache.
use mathlib.Core.Path.{subst}
use netflix_flaky_test_triag.Base.{
  ◌+◌, ◌≡◌, ◌∙◌, refl, sym, if◌then◌else◌, Bool, true, false, ◌&&◌, not, Option, none, some, Text,
  inl, inr, arith, Bool-cases, Option-cases,
}
use netflix_flaky_test_triag.Runtime.{Runtime}
use netflix_flaky_test_triag.Models.Enums.{DowngradeReason}
use netflix_flaky_test_triag.Models.Records.{Classification}
use netflix_flaky_test_triag.Detect.Results.{Detection}
use netflix_flaky_test_triag.Classify.Schema.{parse_and_validate}
use netflix_flaky_test_triag.Classify.Schema.Guardrails.{IsGuarded, abstain-IsGuarded}
use netflix_flaky_test_triag.Classify.Schema.Answers.{parse_and_validate-IsGuarded}
use netflix_flaky_test_triag.Classify.Cache.{ClassificationCache, get, context_key}
use netflix_flaky_test_triag.Classify.Cache.Holds.{
  FilesHold, get-FilesHold, get-served, put-FilesHold,
}
use netflix_flaky_test_triag.Classify.Classifier.{
  CallKind, OutputSchema, Setup, ClassifierState, ModelClient,
}
use netflix_flaky_test_triag.Classify.Classifier.Run.{
  cache_model_id, context_of, request_for, repair_prompt, refuse, exceeds, store, call, prefilter,
  ask, repair, classify_with_repair, classify_fresh, look_up, classify,
}

module _ {F : Type 0} (rt : Runtime F) (setup : Setup F) where
  abbrev pub Guarded : Classification F → Type 0
  Guarded c = IsGuarded rt setup.config.confidence_floor c

  abbrev CacheGuarded : Option (ClassificationCache F) → Type 0
  CacheGuarded none = Unit
  CacheGuarded (some cache) = FilesHold Guarded cache.files

  -- Every answer in the cache passed the guardrails.
  abbrev pub FilesGuarded : ClassifierState F → Type 0
  FilesGuarded s = CacheGuarded s.cache

  refuse-Guarded :
      (reason : DowngradeReason) (model detail : Text)
      → Guarded (refuse rt setup reason model detail)
  unfolding refuse
  refuse-Guarded reason model detail =
      abstain-IsGuarded rt setup.config.confidence_floor reason model
        setup.prompts.prompt_version_hash detail

  store-FilesGuarded :
      (key : Text) (c : Classification F) (s : ClassifierState F)
      → Guarded c
      → FilesGuarded s
      → FilesGuarded (store rt setup key c s)
  unfolding store
  store-FilesGuarded key c s g h = stored s.cache h
    where
      stored :
          (cache : Option (ClassificationCache F))
          → CacheGuarded cache
          → CacheGuarded (store rt setup key c (record s { cache = cache })).cache
      stored none h = tt
      stored (some cache) h = put-FilesHold Guarded setup.writable key c cache (λ k. g) h

  abbrev IsLookedUp : ClassifierState F × Option (Classification F) → Type 0
  IsLookedUp r = FilesGuarded r.0 × ((c : Classification F) → r.1 ≡ some c → Guarded c)

  look_up-IsLookedUp :
      (key : Text) (d : Detection F) (s : ClassifierState F)
      → FilesGuarded s
      → IsLookedUp (look_up rt setup key d s)
  unfolding look_up
  look_up-IsLookedUp key d s h = found s.cache h
    where
      found :
          (cache : Option (ClassificationCache F))
          → CacheGuarded cache
          → IsLookedUp (look_up rt setup key d (record s { cache = cache }))
      found none h = (tt, λ c e. cc)
      found (some cache) h =
          let after = get-FilesHold Guarded key cache h in
          elim (Option-cases (get key cache).1) [
            | inl n ↦ rw (n, look_up) (after, λ c e. cc)
            | inr (k, e) ↦
                rw (e, look_up) (after, λ c same. get-served Guarded key c cache h (e ∙ same))
          ]

  -- What `_classify_with_repair` does to a state: a guarded answer, and no write of the cache.
  abbrev IsAnswer : ClassifierState F → ClassifierState F × Classification F → Type 0
  IsAnswer s r = (r.0.cache ≡ s.cache) × Guarded r.1

  module _ (client : ModelClient F) where
    ask-IsAnswer :
        (kind : CallKind) (user : Text) (s : ClassifierState F)
        → let r = ask rt setup client kind user s in
          (r.0.cache ≡ s.cache)
          × ((c : Classification F) (t : Option Text) → r.2 ≡ some (c, t) → Guarded c)
    unfolding ask call
    ask-IsAnswer kind user s =
        let model = setup.config.classifier_model in
        let request =
          request_for rt setup model setup.prompts.system_prompt user none
            OutputSchema.classification_schema in
        let response = client s.calls request in
        let floor = setup.config.confidence_floor in
        let version = setup.prompts.prompt_version_hash in
        let read = parse_and_validate rt setup.model_validate floor model version response.text in
        (
          refl,
          λ c t e.
              let same : read.0 ≡ c = ground (arith, e) in
              subst Guarded same (
                parse_and_validate-IsGuarded rt setup.model_validate floor model version
                  response.text),
        )

    repair-IsAnswer :
        (context : Text) (reason : DowngradeReason) (previous : Option Text) (s : ClassifierState F)
        → IsAnswer s (repair rt setup client context reason previous s)
    unfolding repair
    repair-IsAnswer context reason previous s =
        let counted : ClassifierState F = record s {
          schema_failures = s.schema_failures + 1;
          repairs_attempted = s.repairs_attempted + 1;
        } in
        let user = repair_prompt rt setup client context reason previous in
        let (cached, guarded) = ask-IsAnswer CallKind.repair_call user counted in
        let (after, response, answer) = ask rt setup client CallKind.repair_call user counted in
        elim (Bool-cases (exceeds rt setup counted)) [
          | inl e ↦ rw e (refl, refuse-Guarded _ _ _)
          | inr e ↦ elim (Option-cases answer) [
            | inl n ↦ rw (e, n) (cached, refuse-Guarded _ _ _)
            | inr ((k, none), a) ↦ rw (e, a) (cached, guarded k none a)
            | inr ((k, some t), a) ↦ rw (e, a) (cached, refuse-Guarded _ _ _)
          ]
        ]

    classify_with_repair-IsAnswer :
        (context : Text) (s : ClassifierState F)
        → IsAnswer s (classify_with_repair rt setup client context s)
    unfolding classify_with_repair ask call
    classify_with_repair-IsAnswer context s =
        let (cached, guarded) = ask-IsAnswer CallKind.classify_call context s in
        let (after, response, answer) = ask rt setup client CallKind.classify_call context s in
        elim (Option-cases answer) [
          | inl n ↦ rw n (cached, refuse-Guarded _ _ _)
          | inr ((k, none), a) ↦ rw a (cached, guarded k none a)
          | inr ((k, some t), a) ↦
              let (kept, g) = repair-IsAnswer context k.downgrade_reason response.text after in
              rw a (kept ∙ cached, g)
        ]

    cache-prefilter :
        (d : Detection F) (s : ClassifierState F)
        → (prefilter rt setup client d s).0.cache ≡ s.cache
    unfolding prefilter call
    cache-prefilter d s = refl

    answered-Guarded :
        (gated : Bool) (key context : Text) (d : Detection F) (s : ClassifierState F)
        → FilesGuarded s
        → let a =
            classify_with_repair rt setup client context
              (if gated then (prefilter rt setup client d s).0 else s) in
          FilesGuarded (store rt setup key a.1 a.0) × Guarded a.1
    answered-Guarded true key context d s h =
        let gate = (prefilter rt setup client d s).0 in
        let (kept, g) = classify_with_repair-IsAnswer context gate in
        let a = classify_with_repair rt setup client context gate in
        (
          store-FilesGuarded key a.1 a.0 g
              (subst CacheGuarded (sym (kept ∙ cache-prefilter d s)) h),
          g,
        )
    answered-Guarded false key context d s h =
        let (kept, g) = classify_with_repair-IsAnswer context s in
        let a = classify_with_repair rt setup client context s in
        (store-FilesGuarded key a.1 a.0 g (subst CacheGuarded (sym kept) h), g)

    classify_fresh-Guarded :
        (key context : Text) (d : Detection F) (s : ClassifierState F)
        → FilesGuarded s
        → let r = classify_fresh rt setup client key context d s in FilesGuarded r.0 × Guarded r.1
    unfolding classify_fresh
    classify_fresh-Guarded key context d s h =
        let gate = prefilter rt setup client d s in
        let gated = setup.config.prefilter_enabled in
        elim (Bool-cases (exceeds rt setup s)) [
          | inl e ↦ rw e (h, refuse-Guarded _ _ _)
          | inr e ↦ elim (Bool-cases (gated && not gate.1)) [
            | inl g ↦
                rw (e, g)
                  (
                    store-FilesGuarded key _
                        (record gate.0 { prefiltered = gate.0.prefiltered + 1 })
                        (refuse-Guarded _ _ _) (subst CacheGuarded (sym (cache-prefilter d s)) h),
                    refuse-Guarded _ _ _,
                  )
            | inr g ↦ rw (e, g) (answered-Guarded gated key context d s h)
          ]
        ]

  -- If every answer in the cache passed the guardrails, then whatever the client returns,
  -- `classify` answers with a classification that passes them, and so does every answer then in
  -- the cache.
  pub classify-Guarded :
      (client : Option (ModelClient F)) (d : Detection F) (s : ClassifierState F)
      → FilesGuarded s
      → FilesGuarded (classify rt setup client d s).0 × Guarded (classify rt setup client d s).1
  unfolding classify
  classify-Guarded none d s h = (h, refuse-Guarded _ _ _)
  classify-Guarded (some client) d s h =
      let context = context_of rt setup d in
      let key =
        context_key rt context (cache_model_id rt setup) setup.prompts.prompt_version_hash in
      let (files, served) = look_up-IsLookedUp key d s h in
      let looked = look_up rt setup key d s in
      elim (Option-cases looked.1) [
        | inl n ↦ rw (n, classify) (classify_fresh-Guarded client key context d looked.0 files)
        | inr (k, e) ↦ rw (e, classify) (files, served k e)
      ]
