-- ===== src/Detect/Window/Divergence.antt =====
-- `diverged_across_attempts` of detect/history.py and the executions of a window.
use netflix_flaky_test_triag.Base.{
  ℕ, ◌≡◌, ◌≢◌, Bool, true, ◌&&◌, not, List, [], ◌∷◌, Elem, any-Elem, Bool-cases, inl, inr, arith,
  ==_refl, Elem-any, refl, sym, ◌∙◌, ◌⊎◌, ◌==◌, is_empty,
}
use netflix_flaky_test_triag.Models.Enums.{Outcome, is_pass, is_failure, counts_as_observation}
use netflix_flaky_test_triag.Store.Execution.{ExecutionRecord}
use netflix_flaky_test_triag.Detect.Window.{
  ShaWindow, diverged_across_attempts, attempts_with, has, has_beyond,
}

-- A record of an attempt with an observed outcome of a kind.
abbrev pub Shows : (Outcome → Bool) → ℕ → List ExecutionRecord → Type 0
Shows kind a rs = (r : ExecutionRecord) × Elem r rs × (r.attempt ≡ a) × (kind r.outcome ≡ true)

attempts_with-Shows :
    (kind : Outcome → Bool) (a : ℕ) (rs : List ExecutionRecord)
    → Elem a (attempts_with kind rs)
    → Shows kind a rs
unfolding attempts_with
attempts_with-Shows kind a [] m = elim m [ ]
attempts_with-Shows kind a (r ∷ rs) m =
    elim (Bool-cases (counts_as_observation r.outcome && kind r.outcome)) [
      | inl e ↦ found (attempts_with-Shows kind a rs) e (rw e at m)
      | inr e ↦ later (attempts_with-Shows kind a rs (rw e at m))
    ]
  where
    later : Shows kind a rs → Shows kind a (r ∷ rs)
    later (x, n, q, k) = (x, inr n, q, k)

    found :
        (Elem a (attempts_with kind rs) → Shows kind a rs)
        → (counts_as_observation r.outcome && kind r.outcome) ≡ true
        → Elem a (r.attempt ∷ attempts_with kind rs)
        → Shows kind a (r ∷ rs)
    found ih e (inl q) = (r, inl refl, sym q, ground arith)
    found ih e (inr n) = later (ih n)

-- An element of a list that is not empty.
some-Elem : (xs : List ℕ) → not (is_empty xs) ≡ true → (x : ℕ) × Elem x xs
some-Elem [] h = cc
some-Elem (x ∷ xs) h = (x, inl refl)

-- A number that `has` misses differs from every element.
ne_of_not-has : (a b : ℕ) (bs : List ℕ) → not (has a bs) ≡ true → Elem b bs → a ≢ b
ne_of_not-has a b bs h m e =
    let seen : has a bs ≡ true = Elem-any (λ k. k == a) b bs m (rw e (==_refl b)) in ground arith

-- Two records of different attempts, a pass and a failure.
abbrev pub AcrossAttempts : List ExecutionRecord → Type 0
AcrossAttempts rs =
    (r : ExecutionRecord) × (s : ExecutionRecord) × Elem r rs
    × Elem s rs
    × (r.attempt ≢ s.attempt)
    × (is_pass r.outcome ≡ true)
    × (is_failure s.outcome ≡ true)

across_of_elems :
    (a b : ℕ) (rs : List ExecutionRecord)
    → Elem a (attempts_with is_pass rs)
    → Elem b (attempts_with is_failure rs)
    → a ≢ b
    → AcrossAttempts rs
across_of_elems a b rs ma mb ne =
    let (r, er, qr, kr) = attempts_with-Shows is_pass a rs ma in
    let (s, es, qs, ks) = attempts_with-Shows is_failure b rs mb in
    (r, s, er, es, (λ e. ne (sym qr ∙ e ∙ qs)), kr, ks)

across_of_beyond :
    (rs : List ExecutionRecord)
    → not (is_empty (attempts_with is_pass rs)) ≡ true
    → not (is_empty (attempts_with is_failure rs)) ≡ true
    → (has_beyond (attempts_with is_pass rs) (attempts_with is_failure rs) ≡ true)
      ⊎ (has_beyond (attempts_with is_failure rs) (attempts_with is_pass rs) ≡ true)
    → AcrossAttempts rs
across_of_beyond rs hp hf (inl h) =
    let (a, ma, fresh) = any-Elem _ (attempts_with is_pass rs) h in
    let (b, mb) = some-Elem (attempts_with is_failure rs) hf in
    across_of_elems a b rs ma mb (ne_of_not-has a b (attempts_with is_failure rs) fresh mb)
across_of_beyond rs hp hf (inr h) =
    let (b, mb, fresh) = any-Elem _ (attempts_with is_failure rs) h in
    let (a, ma) = some-Elem (attempts_with is_pass rs) hp in
    across_of_elems a b rs ma mb
      (λ e. ne_of_not-has b a (attempts_with is_pass rs) fresh ma (sym e))

-- A window that diverged across attempts holds a passing and a failing execution whose attempts
-- differ, so the same commit gave both outcomes on separate tries.
diverged_across_attempts-AcrossAttempts :
    (w : ShaWindow) → diverged_across_attempts w ≡ true → AcrossAttempts w.records
unfolding diverged_across_attempts
diverged_across_attempts-AcrossAttempts w h =
    let passing = attempts_with is_pass w.records in
    let failing = attempts_with is_failure w.records in
    across_of_beyond w.records (ground arith) (ground arith) (ground arith)
