-- ===== src/Classify/Pricing.antt =====
-- classify/pricing.py: what a call costs.
use netflix_flaky_test_triag.Base.{
  ℕ, ◌+◌, ◌≡◌, ◌⊎◌, refl, Bool, true, false, ◌||◌, Option, none, some, List, [], ◌∷◌, Text,
  if◌then◌else◌, text_eq, text_eq→eq, text_eq_refl, starts_with, map, Elem, inl, inr, arith,
  Bool-cases,
}
use netflix_flaky_test_triag.Runtime.{Runtime}
pub mod Lookup

-- `self._prices[key]`
unfoldable pub price_at : {F : Type 0} → Text → List (Text × (F × F)) → Option (F × F)
price_at key [] = none
price_at key ((name, value) ∷ rest) = if text_eq name key then some value else price_at key rest

-- The prefix match of `price_for`.
unfoldable pub price_near : {F : Type 0} → Text → List (Text × (F × F)) → Option (F × F)
price_near key [] = none
price_near key ((name, value) ∷ rest) =
    if starts_with key name || starts_with name key then some value else price_near key rest

-- `dict[name] = value`: the place of the name, if it has one.
unfoldable pub set_price :
    {F : Type 0} → Text → F × F → List (Text × (F × F)) → List (Text × (F × F))
set_price key price [] = (key, price) ∷ []
set_price key price ((name, value) ∷ rest) =
    if text_eq name key then (name, price) ∷ rest else (name, value) ∷ set_price key price rest

module _ {F : Type 0} (rt : Runtime F) where
  -- `CostTable.__init__`: the names in lower case, a later one replacing an earlier.
  unfoldable pub table_from : List (Text × (F × F)) → List (Text × (F × F)) → List (Text × (F × F))
  table_from done [] = done
  table_from done ((name, value) ∷ rest) = table_from (set_price (rt.lower name) value done) rest

  unfoldable pub cost_table : List (Text × (F × F)) → List (Text × (F × F))
  cost_table prices = table_from [] prices

  -- `cost_table_from_config`, up to its warning: pairs of any other length are left out.
  unfoldable pub parsed_prices : List (Text × List F) → List (Text × (F × F))
  parsed_prices [] = []
  parsed_prices ((model, a ∷ b ∷ []) ∷ rest) = (model, (a, b)) ∷ parsed_prices rest
  parsed_prices ((model, _) ∷ rest) = parsed_prices rest

  unfoldable pub cost_table_from_config : List (Text × List F) → List (Text × (F × F))
  cost_table_from_config prices = cost_table (parsed_prices prices)

  -- `CostTable.price_for`
  unfoldable pub price_for : List (Text × (F × F)) → Text → Option (F × F)
  price_for prices model =
      let key = rt.lower model in
      elim (price_at key prices) [ none ↦ price_near key prices | some value ↦ some value ]

  -- `CostTable.cost_usd`, less the warning for a model without a price.
  unfoldable pub cost_usd : List (Text × (F × F)) → Text → ℕ → ℕ → F
  cost_usd prices model input_tokens output_tokens = elim (price_for prices model) [
    | none ↦ rt.of_nat 0
    | some (input_price, output_price) ↦
        rt.div
          (rt.add (rt.mul (rt.of_nat input_tokens) input_price)
            (rt.mul (rt.of_nat output_tokens) output_price))
          (rt.of_nat 1000000)
  ]
