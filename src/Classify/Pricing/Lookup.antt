-- ===== src/Classify/Pricing/Lookup.antt =====
-- The prices of a `CostTable` of classify/pricing.py.
use netflix_flaky_test_triag.Base.{
  ◌≡◌, ◌∙◌, ap, refl, sym, false, Option, none, some, List, [], ◌∷◌, Text, if◌then◌else◌, text_eq,
  text_eq→eq, text_eq-false_sym, inl, inr, Bool-cases,
}
use netflix_flaky_test_triag.Runtime.{Runtime}
use netflix_flaky_test_triag.Classify.Pricing.{price_at, set_price, table_from, cost_table}

price_at-set_price :
    {F : Type 0} (key name : Text) (price : F × F) (table : List (Text × (F × F)))
    → price_at key (set_price name price table)
      ≡ (if text_eq name key then some price else price_at key table)
unfolding price_at set_price
price_at-set_price key name price [] = refl
price_at-set_price key name price ((n, v) ∷ table) = elim (Bool-cases (text_eq n name)) [
  | inl e ↦
      let same : n ≡ name = text_eq→eq n name e in
      rw (e, same) (elim (Bool-cases (text_eq name key)) [ inl k ↦ rw k refl | inr k ↦ rw k refl ])
  | inr e ↦ rw e (elim (Bool-cases (text_eq n key)) [
    | inl k ↦
        let same : n ≡ key = text_eq→eq n key k in
        let other : text_eq name key ≡ false = text_eq-false_sym key name (rw (sym same) e) in
        rw (k, other) refl
    | inr k ↦ rw k (price_at-set_price key name price table)
  ])
]

module _ {F : Type 0} (rt : Runtime F) where
  -- The price of the last entry whose name is the key in lower case, or the one given.
  abbrev pub last_named : Text → Option (F × F) → List (Text × (F × F)) → Option (F × F)
  last_named key found [] = found
  last_named key found ((name, value) ∷ rest) =
      last_named key (if text_eq (rt.lower name) key then some value else found) rest

  price_at-table_from :
      (key : Text) (prices done : List (Text × (F × F)))
      → price_at key (table_from rt done prices) ≡ last_named key (price_at key done) prices
  unfolding table_from
  price_at-table_from key [] done = refl
  price_at-table_from key ((name, value) ∷ rest) done =
      price_at-table_from key rest (set_price (rt.lower name) value done)
      ∙ ap (λ o. last_named key o rest) (price_at-set_price key (rt.lower name) value done)

  -- The table that `CostTable` makes of a list of prices gives a key the price of the last entry
  -- whose name is that key in lower case, and none where there is no such entry.
  cost_table-last :
      (key : Text) (prices : List (Text × (F × F)))
      → price_at key (cost_table rt prices) ≡ last_named key none prices
  unfolding cost_table price_at
  cost_table-last key prices = price_at-table_from key prices []
