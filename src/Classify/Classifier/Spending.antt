-- ===== src/Classify/Classifier/Spending.antt =====
-- The calls of `classify` of classify/classifier.py and its looks at the budget.
use mathlib.Core.Path.{subst}
use netflix_flaky_test_triag.Base.{
  ◌+◌, ◌≤◌, ◌≡◌, ◌⊎◌, ◌∙◌, ap, refl, sym, if◌then◌else◌, Bool, true, false, ◌&&◌, not, Option, none,
  some, List, [], ◌∷◌, ◌++◌, Text, append-nil, append_assoc, length, inl, inr, arith, Bool-cases,
  Option-cases,
}
use netflix_flaky_test_triag.Runtime.{Runtime}
use netflix_flaky_test_triag.Models.Enums.{DowngradeReason}
use netflix_flaky_test_triag.Models.Records.{Classification}
use netflix_flaky_test_triag.Detect.Results.{Detection}
use netflix_flaky_test_triag.Classify.Cache.{context_key}
use netflix_flaky_test_triag.Classify.Classifier.{
  CallKind, CallRecord, Setup, ClassifierState, ModelClient, would_exceed_budget,
}
use netflix_flaky_test_triag.Classify.Classifier.Run.{
  cache_model_id, context_of, repair_prompt, exceeds, store, call, prefilter, ask, repair,
  classify_with_repair, classify_fresh, look_up, classify,
}

module _ {F : Type 0} (rt : Runtime F) (setup : Setup F) where
  abbrev pub HasRoom : List (CallRecord F) → Type 0
  HasRoom calls = would_exceed_budget rt setup.budget_usd calls ≡ false

  -- The calls made for one test: none, or up to two on one look at the budget and then at most
  -- one more on another.
  abbrev pub IsSpend : List (CallRecord F) → List (CallRecord F) → Type 0
  IsSpend before after =
      (after ≡ before)
      ⊎ HasRoom before
        × (first : List (CallRecord F)) × (then_one : List (CallRecord F)) × (after
            ≡ (before ++ first) ++ then_one)
        × (length first ≤ 2)
        × (length then_one ≤ 1)
        × ((then_one ≡ []) ⊎ HasRoom (before ++ first))

  -- The calls of `classify_with_repair`: one, and at most one more on a look at the budget.
  abbrev IsRepaired : List (CallRecord F) → List (CallRecord F) → Type 0
  IsRepaired before after =
      (c : CallRecord F) × (then_one : List (CallRecord F)) × (after
        ≡ (before ++ c ∷ []) ++ then_one)
      × (length then_one ≤ 1)
      × ((then_one ≡ []) ⊎ HasRoom (before ++ c ∷ []))

  calls-store :
      (key : Text) (c : Classification F) (s : ClassifierState F)
      → (store rt setup key c s).calls ≡ s.calls
  unfolding store
  calls-store key c s = ground arith

  calls-look_up :
      (key : Text) (d : Detection F) (s : ClassifierState F)
      → (look_up rt setup key d s).0.calls ≡ s.calls
  unfolding look_up
  calls-look_up key d s = ground arith

  module _ (client : ModelClient F) where
    calls-ask :
        (kind : CallKind) (user : Text) (s : ClassifierState F)
        → (c : CallRecord F) × ((ask rt setup client kind user s).0.calls ≡ s.calls ++ c ∷ [])
    unfolding ask call
    calls-ask kind user s = (_, refl)

    calls-repair :
        (context : Text) (reason : DowngradeReason) (previous : Option Text) (s : ClassifierState F)
        → (then_one : List (CallRecord F)) × ((repair rt setup client context reason previous
              s).0.calls
            ≡ s.calls ++ then_one)
          × (length then_one ≤ 1)
          × ((then_one ≡ []) ⊎ HasRoom s.calls)
    unfolding repair exceeds
    calls-repair context reason previous s =
        let counted : ClassifierState F = record s {
          schema_failures = s.schema_failures + 1;
          repairs_attempted = s.repairs_attempted + 1;
        } in
        let user = repair_prompt rt setup client context reason previous in
        let (c, asked) = calls-ask CallKind.repair_call user counted in
        elim (Bool-cases (would_exceed_budget rt setup.budget_usd s.calls)) [
          | inl e ↦ ([], ground (arith, append-nil s.calls), ground arith, inl refl)
          | inr e ↦ (c ∷ [], ground (arith, asked), ground arith, inr e)
        ]

    calls-classify_with_repair :
        (context : Text) (s : ClassifierState F)
        → IsRepaired s.calls (classify_with_repair rt setup client context s).0.calls
    unfolding classify_with_repair
    calls-classify_with_repair context s =
        let (c, asked) = calls-ask CallKind.classify_call context s in
        let one = s.calls ++ c ∷ [] in
        let (after, response, answer) = ask rt setup client CallKind.classify_call context s in
        elim (Option-cases answer) [
          | inl n ↦ (c, [], ground (arith, append-nil one), ground arith, inl refl)
          | inr ((k, none), e) ↦ (c, [], ground (arith, append-nil one), ground arith, inl refl)
          | inr ((k, some t), e) ↦
              let (more, calls, few, room) =
                calls-repair context k.downgrade_reason response.text after in
              (c, more, ground (arith, calls, asked), few, ground (arith, room, asked))
        ]

    calls-prefilter :
        (d : Detection F) (s : ClassifierState F)
        → (c : CallRecord F) × ((prefilter rt setup client d s).0.calls ≡ s.calls ++ c ∷ [])
    unfolding prefilter call
    calls-prefilter d s = (_, refl)

    -- Both ways past the gate.
    calls-answered :
        (gated : Bool) (context : Text) (d : Detection F) (s : ClassifierState F)
        → HasRoom s.calls
        → IsSpend s.calls
            (classify_with_repair rt setup client context
              (if gated then (prefilter rt setup client d s).0 else s)).0.calls
    calls-answered true context d s room =
        let gate = (prefilter rt setup client d s).0 in
        let (p, passed) = calls-prefilter d s in
        let (c, more, calls, few, later) = calls-classify_with_repair context gate in
        let two : gate.calls ++ c ∷ [] ≡ s.calls ++ p ∷ c ∷ [] =
          ap (λ cs. cs ++ c ∷ []) passed ∙ append_assoc s.calls (p ∷ []) (c ∷ []) in
        inr (
          room,
          p ∷ c ∷ [],
          more,
          calls ∙ ap (λ cs. cs ++ more) two,
          ground arith,
          few,
          subst (λ cs. (more ≡ []) ⊎ HasRoom cs) two later,
        )
    calls-answered false context d s room =
        let (c, more, calls, few, later) = calls-classify_with_repair context s in
        inr (room, c ∷ [], more, calls, ground arith, few, later)

    calls-classify_fresh :
        (key context : Text) (d : Detection F) (s : ClassifierState F)
        → IsSpend s.calls (classify_fresh rt setup client key context d s).0.calls
    unfolding classify_fresh exceeds
    calls-classify_fresh key context d s =
        let gate = prefilter rt setup client d s in
        let gated = setup.config.prefilter_enabled in
        let (p, passed) = calls-prefilter d s in
        let one = s.calls ++ p ∷ [] in
        elim (Bool-cases (would_exceed_budget rt setup.budget_usd s.calls)) [
          | inl e ↦ inl (ground arith)
          | inr e ↦ elim (Bool-cases (gated && not gate.1)) [
            | inl g ↦
                let spent : (classify_fresh rt setup client key context d s).0.calls ≡ one =
                  rw (e, g) (calls-store _ _ _ ∙ passed) in
                inr (
                  e,
                  p ∷ [],
                  [],
                  spent ∙ sym (append-nil one),
                  ground arith,
                  ground arith,
                  inl refl,
                )
            | inr g ↦
                let answered =
                  classify_with_repair rt setup client context (if gated then gate.0 else s) in
                let spent : (classify_fresh rt setup client key context d s).0.calls
                    ≡ answered.0.calls =
                  rw (e, g) (calls-store _ _ _) in
                subst (IsSpend s.calls) (sym spent) (calls-answered gated context d s e)
          ]
        ]

  -- The calls that `classify` makes for one test are none unless the budget is not reached
  -- before the first of them, and are at most three: up to two after that look at the budget,
  -- and one more only if the budget is not reached after those.
  pub classify-IsSpend :
      (client : Option (ModelClient F)) (d : Detection F) (s : ClassifierState F)
      → IsSpend s.calls (classify rt setup client d s).0.calls
  unfolding classify
  classify-IsSpend none d s = inl refl
  classify-IsSpend (some client) d s =
      let context = context_of rt setup d in
      let key =
        context_key rt context (cache_model_id rt setup) setup.prompts.prompt_version_hash in
      let looked = look_up rt setup key d s in
      let fresh = classify_fresh rt setup client key context d looked.0 in
      elim (Option-cases looked.1) [
        | inl n ↦
            let spent : (classify rt setup (some client) d s).0.calls ≡ fresh.0.calls =
              ground arith in
            subst (λ cs. IsSpend cs (classify rt setup (some client) d s).0.calls)
              (calls-look_up key d s)
              (subst (IsSpend looked.0.calls) (sym spent)
                (calls-classify_fresh client key context d looked.0))
        | inr (cached, c) ↦ inl (ground (arith, calls-look_up key d s))
      ]
