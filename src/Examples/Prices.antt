-- ===== src/Examples/Prices.antt =====
-- The theorems about src/app/domain/pricing.py and `plan_summary_parts` at concrete inputs.
use mathlib.Core.List.{flatten}
use ai_text.Prelude.{ℕ, ◌≤◌, ◌≡◌, refl, inl, inr, none, List, [], ◌∷◌, length}
use ai_text.Pricing.{
  Settings, Usage, Rounded, units, tokens, quote, charge, read_parts, plan_summary_parts,
}
use ai_text.Pricing.Quote.{price_ceiling, charge-quote}
use ai_text.Pricing.Parts.{flatten-plan_summary_parts}

abbrev settings : Settings
settings = record {
  pricing_max_credits_per_generation = 50;
  pricing_flat_credits = 1;
  answer_credits = 1;
  summary_credits = 3;
  summary_credits_per_extra_part = 2;
  summary_single_pass_chars = 100;
  summary_batch_chars = 60;
  summary_max_batches = 8;
}

abbrev chunks : List ℕ
chunks = 50 ∷ 40 ∷ 20 ∷ 90 ∷ []

-- One credit for a unit, a million for the tokens of a run.
abbrev rounded : Rounded
rounded = record { units_price = λ n kind model. n; tokens_price = λ model usage. 1000000 }

abbrev usage_of : ℕ → Usage
usage_of n = record {
  model = "model";
  units = n;
  input_tokens = 1000;
  output_tokens = 500;
  cache_read_tokens = 0;
  cache_write_tokens = 0;
}

charge-quote_example :
    charge settings rounded units "summary" none (usage_of (length (read_parts chunks settings)))
    ≡ quote settings rounded units "summary" none chunks
charge-quote_example =
    charge-quote settings rounded units "summary" none chunks
      (usage_of (length (read_parts chunks settings))) (inr (inl refl)) refl

price_ceiling_example :
    (quote settings rounded tokens "outline" none chunks ≤ 50)
    × (charge settings rounded tokens "outline" none (usage_of 900) ≤ 50)
price_ceiling_example = price_ceiling settings rounded tokens "outline" none chunks (usage_of 900)

flatten-plan_summary_parts_example : flatten (plan_summary_parts chunks 100 60) ≡ 0 ∷ 1 ∷ 2 ∷ 3 ∷ []
flatten-plan_summary_parts_example = flatten-plan_summary_parts chunks 100 60
