-- ===== src/Evals/Cost.antt =====
-- evals/cost.py: costs as exact fractions, where the source divides decimals.
use evidence_flow.Prelude.{ℕ, ◌+◌, ◌*◌}

-- `numerator / denominator`, in units of a ten-thousandth of a dollar.
pub record Amount : Type 0 where
  pub numerator : ℕ
  pub denominator : ℕ

pub record CostModel : Type 0 where
  pub input_per_million : ℕ
  pub output_per_million : ℕ
  pub reviewer_rate_per_hour : ℕ
  pub review_minutes_per_document : ℕ

-- The defaults: 2.50, 10.00 and 35.00 dollars, and 4 minutes.
abbrev pub default_costs : CostModel
default_costs = record {
  input_per_million = 25000;
  output_per_million = 100000;
  reviewer_rate_per_hour = 350000;
  review_minutes_per_document = 4;
}

unfoldable pub model_cost : CostModel → ℕ → ℕ → Amount
model_cost costs input_tokens output_tokens = record {
  numerator = input_tokens * costs.input_per_million + output_tokens * costs.output_per_million;
  denominator = 1000000;
}

unfoldable pub reviewer_cost : CostModel → ℕ → Amount
reviewer_cost costs documents_reviewed = record {
  numerator = documents_reviewed * costs.review_minutes_per_document * costs.reviewer_rate_per_hour;
  denominator = 60;
}
