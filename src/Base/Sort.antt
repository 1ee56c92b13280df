-- ===== src/Base/Sort.antt =====
-- `list.sort(key=...)`: a stable sort by a Boolean order, and what it keeps.
use netflix_flaky_test_triag.Base.Names.{
  ℕ, ◌+◌, ◌≤◌, ◌≡◌, refl, inl, inr, Bool, true, false, ◌||◌, List, [], ◌∷◌, arith,
}
use netflix_flaky_test_triag.Base.Tests.{if◌then◌else◌, Bool-cases}
use netflix_flaky_test_triag.Base.Lists.{any, sum_of, All}

module _ {A : Type 0} (le : A → A → Bool) where
  -- Before the first element that is not smaller, so equal elements keep their order.
  unfoldable pub insert_by : A → List A → List A
  insert_by x [] = x ∷ []
  insert_by x (y ∷ ys) = let rest = y ∷ insert_by x ys in if le x y then x ∷ y ∷ ys else rest

  unfoldable pub sort_by : List A → List A
  unfolding insert_by
  sort_by [] = []
  sort_by (x ∷ xs) = insert_by x (sort_by xs)

  sum-insert_by : (f : A → ℕ) (x : A) (xs : List A) → sum_of f (insert_by x xs) ≡ f x + sum_of f xs
  unfolding insert_by
  sum-insert_by f x [] = refl
  sum-insert_by f x (y ∷ ys) = ground (arith, sum-insert_by f x ys)

  pub sum-sort_by : (f : A → ℕ) (xs : List A) → sum_of f (sort_by xs) ≡ sum_of f xs
  unfolding sort_by
  sum-sort_by f [] = refl
  sum-sort_by f (x ∷ xs) = omega (arith, sum-insert_by f x (sort_by xs), sum-sort_by f xs)

  any-insert_by : (p : A → Bool) (x : A) (xs : List A) → any p (insert_by x xs) ≡ (p x || any p xs)
  unfolding insert_by
  any-insert_by p x [] = refl
  any-insert_by p x (y ∷ ys) = ground (arith, any-insert_by p x ys)

  pub any-sort_by : (p : A → Bool) (xs : List A) → any p (sort_by xs) ≡ any p xs
  unfolding sort_by
  any-sort_by p [] = refl
  any-sort_by p (x ∷ xs) = ground (arith, any-insert_by p x (sort_by xs), any-sort_by p xs)

  All-insert_by : (P : A → Type 0) (x : A) (xs : List A) → P x → All P xs → All P (insert_by x xs)
  unfolding insert_by
  All-insert_by P x [] h hs = (h, tt)
  All-insert_by P x (y ∷ ys) h (hy, hs) = elim (Bool-cases (le x y)) [
    | inl e ↦ rw e (h, (hy, hs))
    | inr e ↦ rw e (hy, All-insert_by P x ys h hs)
  ]

  pub All-sort_by : (P : A → Type 0) (xs : List A) → All P xs → All P (sort_by xs)
  unfolding sort_by
  All-sort_by P [] h = tt
  All-sort_by P (x ∷ xs) (h, hs) = All-insert_by P x (sort_by xs) h (All-sort_by P xs hs)

-- The keys do not descend, from a bound on.
abbrev pub Ascends : {A : Type 0} → (A → ℕ) → ℕ → List A → Type 0
Ascends key b [] = Unit
Ascends key b (x ∷ xs) = (b ≤ key x) × Ascends key (key x) xs

pub Ascends-weaken :
    {A : Type 0} (key : A → ℕ) (b c : ℕ) (xs : List A) → c ≤ b → Ascends key b xs → Ascends key c xs
Ascends-weaken key b c [] h k = tt
Ascends-weaken key b c (x ∷ xs) h (k, ks) = (omega arith, ks)

-- An order that respects a key sorts by it.
module _ {A : Type 0} (le : A → A → Bool) (key : A → ℕ)
    (below : (x y : A) → le x y ≡ true → key x ≤ key y)
    (above : (x y : A) → le x y ≡ false → key y ≤ key x) where
  Ascends-insert_by :
      (b : ℕ) (x : A) (xs : List A)
      → b ≤ key x
      → Ascends key b xs
      → Ascends key b (insert_by le x xs)
  unfolding insert_by
  Ascends-insert_by b x [] h hs = (h, tt)
  Ascends-insert_by b x (y ∷ ys) h (hy, hs) = elim (Bool-cases (le x y)) [
    | inl e ↦ rw e (h, (below x y e, hs))
    | inr e ↦ rw e (hy, Ascends-insert_by (key y) x ys (above x y e) hs)
  ]

  pub Ascends-sort_by : (xs : List A) → Ascends key 0 (sort_by le xs)
  unfolding sort_by
  Ascends-sort_by [] = tt
  Ascends-sort_by (x ∷ xs) =
      Ascends-insert_by 0 x (sort_by le xs) (omega arith) (Ascends-sort_by xs)
