-- ===== src/Pricing/Tests.antt =====
-- internal/pricing/calculator.go: runs of the model on fixed-point numbers.
use resillm.Common.{◌≡◌, refl, pos, lookup, insert, length, fixed}
use resillm.Api.{Usage}
use resillm.Pricing.{cents, new_calculator, calculate, get_pricing, set_pricing, list_models}

abbrev million_each : Usage
million_each = record {
  prompt_tokens = pos 1_000_000;
  completion_tokens = pos 1_000_000;
  total_tokens = pos 2_000_000;
}

known_model : calculate (new_calculator fixed) "gpt-4o-mini" million_each ≡ pos 750_000
unfolding calculate new_calculator lookup
known_model = refl

default_model : calculate (new_calculator fixed) "llama3" million_each ≡ pos 12_500_000
unfolding calculate new_calculator lookup
default_model = refl

twelve_models : length (list_models (new_calculator fixed)) ≡ 12
unfolding list_models new_calculator
twelve_models = refl

set_price :
    get_pricing (set_pricing "llama3" (cents fixed 10 20) (new_calculator fixed)) "llama3"
    ≡ cents fixed 10 20
unfolding get_pricing set_pricing new_calculator lookup insert
set_price = refl
