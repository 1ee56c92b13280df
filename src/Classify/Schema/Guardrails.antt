-- ===== src/Classify/Schema/Guardrails.antt =====
-- `apply_guardrails` and `_clean_evidence` of classify/schema.py.
use netflix_flaky_test_triag.Base.{
  ℕ, suc, zero, ◌≤◌, ◌≡◌, ◌⊎◌, refl, true, false, List, [], ◌∷◌, Text, is_empty, strip, take,
  length, All, arith, Bool-cases, inl, inr,
}
use netflix_flaky_test_triag.Runtime.{Runtime}
use netflix_flaky_test_triag.Models.Enums.{CauseCode, DowngradeReason, is_unknown}
use netflix_flaky_test_triag.Models.Records.{Classification}
use netflix_flaky_test_triag.Classify.Schema.{
  RawClassification, clean_from, clean_evidence, abstain, apply_guardrails,
}

-- A text that can be shown as evidence: not empty, and within the limit on its length.
abbrev pub IsCitation : Text → Type 0
IsCitation t = (is_empty t ≡ false) × (length t ≤ 300)

length-take : (n : ℕ) (t : Text) → length (take n t) ≤ n
length-take zero t = ground arith
length-take (suc n) [] = ground arith
length-take (suc n) (c ∷ t) = ground (arith, length-take n t)

take-IsCitation : (t : Text) → is_empty t ≡ false → IsCitation (take 300 t)
take-IsCitation t h = (cited 299 t h, length-take 300 t)
  where
    cited : (n : ℕ) (t : Text) → is_empty t ≡ false → is_empty (take (suc n) t) ≡ false
    cited n [] h = h
    cited n (c ∷ t) h = refl

clean_from-IsCitation : (room : ℕ) (items : List Text) → All IsCitation (clean_from room items)
unfolding clean_from
clean_from-IsCitation zero items = tt
clean_from-IsCitation (suc room) [] = tt
clean_from-IsCitation (suc room) (item ∷ items) = elim (Bool-cases (is_empty (strip item))) [
  | inl e ↦ rw (e, clean_from, All) (clean_from-IsCitation (suc room) items)
  | inr e ↦
      rw (e, clean_from, All) (take-IsCitation (strip item) e, clean_from-IsCitation room items)
]

length-clean_from : (room : ℕ) (items : List Text) → length (clean_from room items) ≤ room
unfolding clean_from
length-clean_from zero items = ground arith
length-clean_from (suc room) [] = ground arith
length-clean_from (suc room) (item ∷ items) = elim (Bool-cases (is_empty (strip item))) [
  | inl e ↦ rw (e, clean_from, length) (length-clean_from (suc room) items)
  | inr e ↦ rw (e, clean_from, length) (ground (arith, length-clean_from room items))
]

-- What the guardrails promise of an answer: it abstains and names no cause, or it cites one to
-- six texts and its confidence is not below the floor.
abbrev pub IsGuarded : {F : Type 0} → Runtime F → F → Classification F → Type 0
IsGuarded rt floor c =
    All IsCitation c.evidence
    × (length c.evidence ≤ 6)
    × ((c.abstained ≡ true) × (c.cause ≡ CauseCode.unknown)
        ⊎ (c.abstained ≡ false)
          × (is_unknown c.cause ≡ false)
          × (is_empty c.evidence ≡ false)
          × (rt.lt c.confidence floor ≡ false)
          × (c.downgrade_reason ≡ DowngradeReason.none))

module _ {F : Type 0} (rt : Runtime F) where
  pub abstain-IsGuarded :
      (floor : F) (reason : DowngradeReason) (model version detail : Text)
      → IsGuarded rt floor (abstain rt reason model version detail)
  unfolding abstain
  abstain-IsGuarded floor reason model version detail = (tt, ground arith, inl (refl, refl))

  pub apply_guardrails-IsGuarded :
      (floor : F) (model version : Text) (raw : RawClassification F)
      → IsGuarded rt floor (apply_guardrails rt floor model version raw)
  unfolding apply_guardrails abstain clean_evidence
  apply_guardrails-IsGuarded floor model version raw =
      ground (arith, clean_from-IsCitation 6 raw.evidence, length-clean_from 6 raw.evidence)
