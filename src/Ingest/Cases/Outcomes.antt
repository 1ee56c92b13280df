-- ===== src/Ingest/Cases/Outcomes.antt =====
-- ingest/junit.py: how the children of a test case decide its outcome.
use mathlib.Core.Path.{subst}
use netflix_flaky_test_triag.Base.{
  ◌≡◌, ◌∙◌, refl, sym, ap, if◌then◌else◌, text_eq→eq, Bool, false, ◌||◌, Option, none, some, List,
  [], ◌∷◌, Text, codes, text_in, text_eq, any, arith, Option-cases, Bool-cases, inl, inr,
}
use netflix_flaky_test_triag.Runtime.{Runtime}
use netflix_flaky_test_triag.Models.Enums.{Outcome, is_pass}
use netflix_flaky_test_triag.Ingest.Elements.{Child, get, clean, lower_tag}
use netflix_flaky_test_triag.Ingest.Cases.{
  failure_outcome, rerun_tags, CaseParts, no_parts, with_failure, other_child, add_child,
  case_parts,
}

module _ {F : Type 0} (rt : Runtime F) where
  -- The first child with a failure tag, and its outcome.
  abbrev pub first_failure : List Child → Option (Outcome × Child)
  first_failure [] = none
  first_failure (c ∷ cs) = elim (failure_outcome (lower_tag rt c.tag)) [
    | some outcome ↦ some (outcome, c)
    | none ↦ first_failure cs
  ]

  abbrev pub is_rerun : Child → Bool
  is_rerun c = text_in (lower_tag rt c.tag) rerun_tags

  abbrev pub outcome_of : Option (Outcome × Child) → Outcome
  outcome_of none = Outcome.pass
  outcome_of (some (outcome, c)) = outcome

  -- The failure is described by this child, and not by one with another message.
  abbrev pub IsDescribedBy : Child → CaseParts → Type 0
  IsDescribedBy c p =
      (p.failure_type ≡ clean (get (codes "type") c.attributes))
      × (p.failure_message ≡ clean (get (codes "message") c.attributes))
      × (p.stack_trace ≡ clean c.text)

  other_child-outcome :
      (tag : Text) (c : Child) (p : CaseParts) → (other_child tag c p).outcome ≡ p.outcome
  unfolding other_child
  other_child-outcome tag c p = ground arith

  other_child-details :
      (tag : Text) (c : Child) (p : CaseParts) (m : Text)
      → p.failure_message ≡ some m
      → ((other_child tag c p).failure_type ≡ p.failure_type)
        × ((other_child tag c p).failure_message ≡ p.failure_message)
        × ((other_child tag c p).stack_trace ≡ p.stack_trace)
  unfolding other_child
  other_child-details tag c p m e = ground arith

  other_child-rerun :
      (tag : Text) (c : Child) (p : CaseParts)
      → (other_child tag c p).rerun_observed ≡ (p.rerun_observed || text_in tag rerun_tags)
  unfolding other_child
  other_child-rerun tag c p = ground arith

  -- No failure tag is a rerun tag.
  failure_outcome-rerun :
      (tag : Text) {outcome : Outcome}
      → failure_outcome tag ≡ some outcome
      → text_in tag rerun_tags ≡ false
  unfolding text_in
  failure_outcome-rerun tag e = elim (Bool-cases (text_eq tag (codes "failure"))) [
    | inl k ↦ rw (text_eq→eq tag (codes "failure") k) (unfold text_eq in refl)
    | inr k ↦ elim (Bool-cases (text_eq tag (codes "error"))) [
      | inl l ↦ rw (text_eq→eq tag (codes "error") l) (unfold text_eq in refl)
      | inr l ↦ elim (Bool-cases (text_eq tag (codes "skipped"))) [
        | inl j ↦ rw (text_eq→eq tag (codes "skipped") j) (unfold text_eq in refl)
        | inr j ↦ ground arith
      ]
    ]
  ]

  add_child-rerun :
      (tag : Text) (c : Child) (p : CaseParts)
      → (add_child tag (failure_outcome tag) c p).rerun_observed
        ≡ (p.rerun_observed || text_in tag rerun_tags)
  unfolding add_child
  add_child-rerun tag c p = elim (Option-cases (failure_outcome tag)) [
    | inl e ↦ rw e (other_child-rerun tag c p)
    | inr (outcome, e) ↦
        rw e (ground (arith, failure_outcome-rerun tag e, other_child-rerun tag c p))
  ]

  case_parts-rerun :
      (cs : List Child) (p : CaseParts)
      → (case_parts rt cs p).rerun_observed ≡ (p.rerun_observed || any is_rerun cs)
  unfolding case_parts
  case_parts-rerun [] p = ground arith
  case_parts-rerun (c ∷ cs) p =
      let tag = lower_tag rt c.tag in
      ground (
        arith,
        add_child-rerun tag c p,
        case_parts-rerun cs (add_child tag (failure_outcome tag) c p),
      )

  add_child-settled :
      (tag : Text) (o : Option Outcome) (c : Child) (p : CaseParts)
      → is_pass p.outcome ≡ false
      → add_child tag o c p ≡ other_child tag c p
  unfolding add_child
  add_child-settled tag none c p h = refl
  add_child-settled tag (some outcome) c p h = rw h refl

  -- Once there is an outcome, the rest of the children keep it.
  case_parts-settled :
      (cs : List Child) (p : CaseParts)
      → is_pass p.outcome ≡ false
      → (case_parts rt cs p).outcome ≡ p.outcome
  unfolding case_parts
  case_parts-settled [] p h = refl
  case_parts-settled (c ∷ cs) p h =
      let tag = lower_tag rt c.tag in
      let same = other_child-outcome tag c p in
      rw (add_child-settled tag (failure_outcome tag) c p h, case_parts)
        (case_parts-settled cs (other_child tag c p) (rw same h) ∙ same)

  case_parts-described :
      (cs : List Child) (p : CaseParts) (m : Text)
      → is_pass p.outcome ≡ false
      → p.failure_message ≡ some m
      → ((case_parts rt cs p).failure_type ≡ p.failure_type)
        × ((case_parts rt cs p).failure_message ≡ p.failure_message)
        × ((case_parts rt cs p).stack_trace ≡ p.stack_trace)
  unfolding case_parts
  case_parts-described [] p m h e = (refl, refl, refl)
  case_parts-described (c ∷ cs) p m h e =
      let tag = lower_tag rt c.tag in
      let same = other_child-outcome tag c p in
      let (a, b, d) = other_child-details tag c p m e in
      let (a', b', d') = case_parts-described cs (other_child tag c p) m (rw same h) (b ∙ e) in
      rw (add_child-settled tag (failure_outcome tag) c p h, case_parts) (a' ∙ a, b' ∙ b, d' ∙ d)

  failure_outcome-fails :
      (tag : Text) (outcome : Outcome)
      → failure_outcome tag ≡ some outcome
      → is_pass outcome ≡ false
  failure_outcome-fails tag outcome e = ground arith

  -- One turn, by whether the child has a failure tag.
  case_parts-none :
      (c : Child) (cs : List Child) (p : CaseParts)
      → failure_outcome (lower_tag rt c.tag) ≡ none
      → (case_parts rt (c ∷ cs) p ≡ case_parts rt cs (other_child (lower_tag rt c.tag) c p))
        × (first_failure (c ∷ cs) ≡ first_failure cs)
  unfolding case_parts add_child
  case_parts-none c cs p e = (
    ap (λ o. case_parts rt cs (add_child (lower_tag rt c.tag) o c p)) e,
    rw (e, first_failure) refl,
  )

  case_parts-some :
      (c : Child) (cs : List Child) (p : CaseParts) (outcome : Outcome)
      → failure_outcome (lower_tag rt c.tag) ≡ some outcome
      → p.outcome ≡ Outcome.pass
      → (case_parts rt (c ∷ cs) p ≡ case_parts rt cs (with_failure outcome c p))
        × (first_failure (c ∷ cs) ≡ some (outcome, c))
  unfolding case_parts add_child
  case_parts-some c cs p outcome e h = (
    ap (λ o. case_parts rt cs (add_child (lower_tag rt c.tag) o c p)) e
        ∙ ap (case_parts rt cs) (
            ap
              (λ o.
                if is_pass o
                then with_failure outcome c p
                else other_child (lower_tag rt c.tag) c p)
              h),
    rw (e, first_failure) refl,
  )

  case_parts-first :
      (cs : List Child) (p : CaseParts)
      → p.outcome ≡ Outcome.pass
      → (case_parts rt cs p).outcome ≡ outcome_of (first_failure cs)
  unfolding case_parts
  case_parts-first [] p h = h
  case_parts-first (c ∷ cs) p h =
      let tag = lower_tag rt c.tag in
      elim (Option-cases (failure_outcome tag)) [
        | inl e ↦
            let (a, b) = case_parts-none c cs p e in
            ap (λ q. q.outcome) a
            ∙ case_parts-first cs (other_child tag c p) (other_child-outcome tag c p ∙ h)
            ∙ ap outcome_of (sym b)
        | inr (outcome, e) ↦
            let (a, b) = case_parts-some c cs p outcome e h in
            ap (λ q. q.outcome) a
            ∙ case_parts-settled cs (with_failure outcome c p) (failure_outcome-fails tag outcome e)
            ∙ ap outcome_of (sym b)
      ]

  -- The first failure of the children, with a message.
  abbrev pub IsFirst : List Child → Child → Text → Type 0
  IsFirst cs c m =
      (outcome : Outcome) × (first_failure cs ≡ some (outcome, c))
      × (clean (get (codes "message") c.attributes) ≡ some m)

  case_parts-first_described :
      (cs : List Child) (p : CaseParts) (f : Child) (m : Text)
      → p.outcome ≡ Outcome.pass
      → IsFirst cs f m
      → IsDescribedBy f (case_parts rt cs p)
  case_parts-first_described [] p f m h (outcome, e, k) = cc
  case_parts-first_described (c ∷ cs) p f m h (outcome, e, k) =
      let tag = lower_tag rt c.tag in
      elim (Option-cases (failure_outcome tag)) [
        | inl n ↦
            let (a, b) = case_parts-none c cs p n in
            subst (IsDescribedBy f) (sym a) (
              case_parts-first_described cs (other_child tag c p) f m
                (other_child-outcome tag c p ∙ h) (outcome, sym b ∙ e, k))
        | inr (first, n) ↦
            let (a, b) = case_parts-some c cs p first n h in
            let same : c ≡ f = cc (b, e) in
            subst (λ x. IsDescribedBy x (case_parts rt (c ∷ cs) p)) same
              (subst (IsDescribedBy c) (sym a) (
                case_parts-described cs (with_failure first c p) m
                  (failure_outcome-fails tag first n)
                  (ap (λ x. clean (get (codes "message") x.attributes)) same ∙ k)))
      ]

  -- For every list of children of a test case, the outcome is that of the first child with a
  -- failure tag, and a pass without one; a rerun is observed exactly when some child has a rerun
  -- tag; and if the first failure has a message, then type, message and trace are all its own.
  pub case_parts-first_failure :
      (cs : List Child)
      → let p = case_parts rt cs no_parts in
        (p.outcome ≡ outcome_of (first_failure cs))
        × (p.rerun_observed ≡ any is_rerun cs)
        × ((f : Child) (m : Text) → IsFirst cs f m → IsDescribedBy f p)
  case_parts-first_failure cs = (
    case_parts-first cs no_parts refl,
    case_parts-rerun cs no_parts,
    λ f m. case_parts-first_described cs no_parts f m refl,
  )
