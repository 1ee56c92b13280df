-- ===== src/Identity/Similarity/Reference.antt =====
-- Edit scripts, and the recursion that gives the least cost of one.
use netflix_flaky_test_triag.Base.{
  ℕ, zero, suc, ◌+◌, ◌≤◌, ◌≡◌, refl, sym, ◌∙◌, min, [], ◌∷◌, Text, length, ◌==◌, ==→eq, arith,
  Bool-cases, inl, inr, ◌⊎◌, ◌++◌, append-nil,
}
use mathlib.Core.Path.{subst}
use netflix_flaky_test_triag.Identity.Similarity.{mismatch}

-- `Edits s t n`: `n` single-character edits turn `s` into `t`.
pub data Edits : Text → Text → ℕ → Type 0 where
  done : Edits [] [] zero
  same : {s t : Text} {n : ℕ} (c d : ℕ) → c ≡ d → Edits s t n → Edits (c ∷ s) (d ∷ t) n
  change : {s t : Text} {n : ℕ} (c d : ℕ) → Edits s t n → Edits (c ∷ s) (d ∷ t) (suc n)
  delete : {s t : Text} {n : ℕ} (c : ℕ) → Edits s t n → Edits (c ∷ s) t (suc n)
  insert : {s t : Text} {n : ℕ} (d : ℕ) → Edits s t n → Edits s (d ∷ t) (suc n)

-- The least cost, by recursion on both texts.
unfoldable pub least_cost : Text → Text → ℕ
least_cost [] t = length t
least_cost (c ∷ s) [] = suc (length s)
least_cost (c ∷ s) (d ∷ t) =
    min (min (least_cost s (d ∷ t) + 1) (least_cost (c ∷ s) t + 1)) (least_cost s t + mismatch c d)

least_cost-nil : (s : Text) → least_cost s [] ≡ length s
unfolding least_cost
least_cost-nil [] = refl
least_cost-nil (c ∷ s) = refl

least_cost-delete : (c : ℕ) (s t : Text) → least_cost (c ∷ s) t ≤ suc (least_cost s t)
unfolding least_cost
least_cost-delete c s [] = omega (arith, least_cost-nil s)
least_cost-delete c s (d ∷ t) = omega arith

least_cost-insert : (d : ℕ) (s t : Text) → least_cost s (d ∷ t) ≤ suc (least_cost s t)
unfolding least_cost
least_cost-insert d [] t = omega arith
least_cost-insert d (c ∷ s) t = omega arith

-- No script costs less.
pub least_cost-le : {s t : Text} {n : ℕ} → Edits s t n → least_cost s t ≤ n
unfolding least_cost
least_cost-le done = omega arith
least_cost-le (same c d e x) = ground (arith, least_cost-le x)
least_cost-le (change c d x) = ground (arith, least_cost-le x)
least_cost-le (delete {s = s} {t = t} c x) = omega (arith, least_cost-delete c s t, least_cost-le x)
least_cost-le (insert {s = s} {t = t} d x) = omega (arith, least_cost-insert d s t, least_cost-le x)

cast : {s t : Text} {n m : ℕ} → n ≡ m → Edits s t n → Edits s t m
cast {s} {t} e x = subst (λ k. Edits s t k) e x

pub inserts : (t : Text) → Edits [] t (length t)
inserts [] = done
inserts (d ∷ t) = insert d (inserts t)

pub deletes : (s : Text) → Edits s [] (length s)
deletes [] = done
deletes (c ∷ s) = delete c (deletes s)

-- The cheapest of three numbers.
min-cases : (a b c : ℕ) → (min (min a b) c ≡ a) ⊎ ((min (min a b) c ≡ b) ⊎ (min (min a b) c ≡ c))
min-cases a b c = grind arith

substitute : {s t : Text} {n : ℕ} (c d : ℕ) → Edits s t n → Edits (c ∷ s) (d ∷ t) (n + mismatch c d)
substitute {s} {t} {n} c d x = elim (Bool-cases (c == d)) [
  | inl e ↦ rw e (cast (omega arith) (same c d (==→eq c d e) x))
  | inr e ↦ rw e (cast (omega arith) (change c d x))
]

-- A script of the least cost.
pub least_cost-Edits : (s t : Text) → Edits s t (least_cost s t)
unfolding least_cost
least_cost-Edits [] t = inserts t
least_cost-Edits (c ∷ s) [] = deletes (c ∷ s)
least_cost-Edits (c ∷ s) (d ∷ t) =
    choose (least_cost-Edits s (d ∷ t)) (least_cost-Edits (c ∷ s) t) (least_cost-Edits s t)
  where
    choose :
        Edits s (d ∷ t) (least_cost s (d ∷ t))
        → Edits (c ∷ s) t (least_cost (c ∷ s) t)
        → Edits s t (least_cost s t)
        → Edits (c ∷ s) (d ∷ t) (least_cost (c ∷ s) (d ∷ t))
    choose x y z =
        elim (min-cases (least_cost s (d ∷ t) + 1) (least_cost (c ∷ s) t + 1)
          (least_cost s t + mismatch c d)) [
            | inl e ↦ cast (omega (arith, e)) (delete c x)
            | inr (inl e) ↦ cast (omega (arith, e)) (insert d y)
            | inr (inr e) ↦ cast (sym e) (substitute c d z)
          ]

-- A text read backwards onto another one.
unfoldable pub onto : Text → Text → Text
onto acc [] = acc
onto acc (c ∷ s) = onto (c ∷ acc) s

-- Reading back `onto acc s` gives `s` in front of what `acc` gives.
onto-onto : (acc s rest : Text) → onto rest (onto acc s) ≡ onto (s ++ rest) acc
unfolding onto
onto-onto acc [] rest = refl
onto-onto acc (c ∷ s) rest = onto-onto (c ∷ acc) s rest

pub onto_twice : (s : Text) → onto [] (onto [] s) ≡ s
unfolding onto
onto_twice s = onto-onto [] s [] ∙ append-nil s

-- A script for the texts read backwards, behind a script for what they are read onto.
pub onto-Edits :
    {a b s t : Text} {n m k : ℕ}
    → n + m ≡ k
    → Edits a b n
    → Edits s t m
    → Edits (onto a s) (onto b t) k
unfolding onto
onto-Edits e x done = cast (omega (arith, e)) x
onto-Edits e x (same c d q y) = onto-Edits e (same c d q x) y
onto-Edits e x (change c d y) = onto-Edits (omega (arith, e)) (change c d x) y
onto-Edits e x (delete c y) = onto-Edits (omega (arith, e)) (delete c x) y
onto-Edits e x (insert d y) = onto-Edits (omega (arith, e)) (insert d x) y

pub swap-Edits : {s t : Text} {n : ℕ} → Edits s t n → Edits t s n
swap-Edits done = done
swap-Edits (same c d e x) = same d c (sym e) (swap-Edits x)
swap-Edits (change c d x) = change d c (swap-Edits x)
swap-Edits (delete c x) = insert c (swap-Edits x)
swap-Edits (insert d x) = delete d (swap-Edits x)

pub same_all : (s : Text) → Edits s s 0
same_all [] = done
same_all (c ∷ s) = same c c refl (same_all s)
