-- ===== src/Llm/Pricing.antt =====
-- The price of a request (pkg/llm/pricing.go). A price is a number of billionths of a dollar for a
-- thousand tokens, a cost one of 10^-12 dollars: the code's float64, without its rounding.
use go_saas_api.Common.{ℕ, ◌+◌, ◌*◌, String, Option, none, some, List, [], ◌∷◌, string_eq}
use go_saas_api.Common.Assoc.{lookup}

pub record ModelPricing : Type 0 where
  pub input_price_per_1k : ℕ
  pub output_price_per_1k : ℕ

abbrev price : (input output : ℕ) → ModelPricing
price input output = record { input_price_per_1k = input; output_price_per_1k = output }

abbrev pub default_pricing : List (String × ModelPricing)
default_pricing =
    ("gpt-4o", price 2500000 10000000)
    ∷ ("gpt-4o-mini", price 150000 600000)
    ∷ ("gpt-4-turbo", price 10000000 30000000)
    ∷ ("claude-3-5-sonnet", price 3000000 15000000)
    ∷ ("claude-3-opus", price 15000000 75000000)
    ∷ ("kimi-for-coding", price 2000000 8000000)
    ∷ ("deepseek-chat", price 140000 280000)
    ∷ ("deepseek-reasoner", price 550000 2190000)
    ∷ ("gemini-1.5-pro", price 1250000 5000000)
    ∷ ("gemini-1.5-flash", price 75000 300000)
    ∷ ("qwen2.5-coder:3b", price 0 0)
    ∷ ("qwen2.5-coder:14b", price 0 0)
    ∷ ("llama3.1", price 0 0)
    ∷ ("llama3.2", price 0 0)
    ∷ ("mixtral", price 0 0)
    ∷ []

abbrev priced_or : Option ModelPricing → ModelPricing → ModelPricing
priced_or none other = other
priced_or (some p) other = p

-- `normalize` is strings.ToLower after strings.TrimSpace.
unfoldable pub resolve_pricing : (normalize : String → String) → (model : String) → ModelPricing
resolve_pricing normalize model =
    priced_or (lookup model default_pricing)
      (priced_or (lookup (normalize model) default_pricing) (price 2000000 8000000))

unfoldable pub calculate_cost : ModelPricing → (input output : ℕ) → ℕ
calculate_cost p input output = input * p.input_price_per_1k + output * p.output_price_per_1k
