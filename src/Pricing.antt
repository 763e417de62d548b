-- ===== src/Pricing.antt =====
-- internal/pricing/calculator.go.
mod Tests
use resillm.Common.{
  ℕ, ◌*◌, String, Option, none, some, List, [], ◌∷◌, pos, FloatOps, Map, lookup, insert, keys,
}
use resillm.Api.{Usage}

-- Prices per million tokens.
pub record ModelPricing (F : FloatOps) : Type 0 where
  pub input_per_1m : F.Float
  pub output_per_1m : F.Float

pub record Calculator (F : FloatOps) : Type 0 where
  pub prices : Map (ModelPricing F)
  pub default_pricing : ModelPricing F

-- Prices given in cents.
abbrev pub cents : (F : FloatOps) → ℕ → ℕ → ModelPricing F
cents F input output = record {
  input_per_1m = F.decimal input 2;
  output_per_1m = F.decimal output 2;
}

unfoldable pub new_calculator : (F : FloatOps) → Calculator F
new_calculator F = record {
  prices =
      ("gpt-4o", cents F 250 1000)
      ∷ ("gpt-4o-mini", cents F 15 60)
      ∷ ("gpt-4-turbo", cents F 1000 3000)
      ∷ ("gpt-4", cents F 3000 6000)
      ∷ ("gpt-3.5-turbo", cents F 50 150)
      ∷ ("gpt-4o-2024-08-06", cents F 250 1000)
      ∷ ("claude-3-5-sonnet-20241022", cents F 300 1500)
      ∷ ("claude-sonnet-4-20250514", cents F 300 1500)
      ∷ ("claude-3-5-haiku-20241022", cents F 80 400)
      ∷ ("claude-3-opus-20240229", cents F 1500 7500)
      ∷ ("claude-3-sonnet-20240229", cents F 300 1500)
      ∷ ("claude-3-haiku-20240307", cents F 25 125)
      ∷ [];
  default_pricing = cents F 250 1000;
}

module _ {F : FloatOps} where
  unfoldable pub new_calculator_with_pricing : Map (ModelPricing F) → ModelPricing F → Calculator F
  new_calculator_with_pricing prices default_pricing = record {
    prices = prices;
    default_pricing = default_pricing;
  }

  unfoldable pub get_pricing : Calculator F → String → ModelPricing F
  get_pricing c model = elim (lookup model c.prices) [
    | some pricing ↦ pricing
    | none ↦ c.default_pricing
  ]

  -- The two costs of `Calculate` and their sum.
  abbrev pub cost_by : ModelPricing F → Usage → F.Float
  cost_by pricing usage =
      F.add
        (F.mul (F.div (F.of_int usage.prompt_tokens) (F.of_int (pos 1_000_000)))
          pricing.input_per_1m)
        (F.mul (F.div (F.of_int usage.completion_tokens) (F.of_int (pos 1_000_000)))
          pricing.output_per_1m)

  unfoldable pub calculate : Calculator F → String → Usage → F.Float
  calculate c model usage =
      let pricing : ModelPricing F = elim (lookup model c.prices) [
        | some p ↦ p
        | none ↦ c.default_pricing
      ] in
      cost_by pricing usage

  unfoldable pub set_pricing : String → ModelPricing F → Calculator F → Calculator F
  set_pricing model pricing c = record c { prices = insert model pricing c.prices }

  unfoldable pub list_models : Calculator F → List String
  list_models c = keys c.prices
