-- ===== src/Store/Writes/Keys/Fresh.antt =====
-- store/schema.py: the ids that new rows get, and keys of rows that are only refreshed.
use netflix_flaky_test_triag.Base.{
  ℕ, ◌≤◌, ◌≡◌, refl, ap, ◌∙◌, Bool, false, ◌||◌, Option, List, [], ◌∷◌, Text, any, arith, ◌==◌,
  Bool-cases, inl, inr,
}
use netflix_flaky_test_triag.Store.Tables.{IdentityRow, next_id}
use netflix_flaky_test_triag.Store.Rows.{refresh}
use netflix_flaky_test_triag.Store.Writes.Keys.{Unique}

next_id-above :
    {R : Type 0} (id : R → ℕ) (k : ℕ) (rows : List R)
    → next_id id rows ≤ k
    → any (λ r. id r == k) rows ≡ false
next_id-above id k [] h = refl
next_id-above id k (r ∷ rows) h = ground (arith, next_id-above id k rows (omega arith))

-- A new id is not in the table.
pub next_id_fresh :
    {R : Type 0} (id : R → ℕ) (rows : List R) → any (λ r. id r == next_id id rows) rows ≡ false
next_id_fresh id rows = next_id-above id (next_id id rows) rows (omega arith)

-- A test that reads neither the path nor the time of a row.
pub any-refresh :
    (p : IdentityRow → Bool)
    → ((r : IdentityRow) (now : Text) (path : Option Text)
        → p (record r { last_seen = now; file_path = path }) ≡ p r)
    → (now : Text) (path : Option Text) (id : ℕ) (rows : List IdentityRow)
    → any p (refresh now path id rows) ≡ any p rows
unfolding refresh
any-refresh p h now path id [] = refl
any-refresh p h now path id (r ∷ rows) =
    let rest = any-refresh p h now path id rows in
    elim (Bool-cases (r.id == id)) [
      | inl e ↦ rw (e, rest) (ap (λ b. b || any p rows) (h r now _))
      | inr e ↦ rw (e, rest) refl
    ]

any_ext :
    {R : Type 0} (p q : R → Bool)
    → ((r : R) → p r ≡ q r)
    → (rows : List R) → any p rows ≡ any q rows
any_ext p q h [] = refl
any_ext p q h (r ∷ rows) = rw (h r, any_ext p q h rows) refl

-- Keys that read neither the path nor the time of a row stay unique.
pub Unique-refresh :
    (same : IdentityRow → IdentityRow → Bool)
    → ((a b : IdentityRow) (now : Text) (path : Option Text)
        → same (record a { last_seen = now; file_path = path }) b ≡ same a b)
    → ((a b : IdentityRow) (now : Text) (path : Option Text)
        → same a (record b { last_seen = now; file_path = path }) ≡ same a b)
    → (now : Text) (path : Option Text) (id : ℕ) (rows : List IdentityRow) → Unique same rows
    → Unique same (refresh now path id rows)
unfolding refresh
Unique-refresh same left right now path id [] u = tt
Unique-refresh same left right now path id (r ∷ rows) (u, us) =
    let rest = Unique-refresh same left right now path id rows us in
    let kept = any-refresh (same r) (right r) now path id rows in
    elim (Bool-cases (r.id == id)) [
      | inl e ↦ rw e (
        any_ext (same _) (same r) (λ b. left r b now _) (refresh now path id rows) ∙ kept ∙ u,
        rest,
      )
      | inr e ↦ rw e (kept ∙ u, rest)
    ]
