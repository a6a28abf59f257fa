-- ===== src/Pricing/Quote.antt =====
-- The price before the run and the price after it (src/app/domain/pricing.py).
use ai_text.Prelude.{
  ap, ◌∙◌, ◌⊎◌, inl, inr, Option, true, str_eq, ℕ, ◌≤◌, ◌≡◌, max, String, List, arith, length,
  length-take,
}
use ai_text.Pricing.{
  Settings, flat_price, summary_plan, summary_parts, read_parts, summary_price, quote, charge,
  PricingMode, flat, units, tokens, Usage, Rounded, core_quote, core_charge,
}

-- Under every mode of the built-in pricing, whatever its rounded products are, and for every kind and
-- usage, no quote and no charge exceeds the ceiling of a generation.
pub price_ceiling :
    (s : Settings) (rounded : Rounded) (mode : PricingMode) (kind : String) (model : Option String)
    (ns : List ℕ) (usage : Usage)
    → (quote s rounded mode kind model ns ≤ s.pricing_max_credits_per_generation)
      × (charge s rounded mode kind model usage ≤ s.pricing_max_credits_per_generation)
unfolding quote charge core_quote core_charge flat_price
price_ceiling s rounded flat kind model ns usage = (ground arith, ground arith)
price_ceiling s rounded units kind model ns usage = (ground arith, ground arith)
price_ceiling s rounded tokens kind model ns usage = (ground arith, ground arith)

-- A summary is quoted between one part and the largest number of parts that is read.
pub summary_parts_bounds :
    (s : Settings) (ns : List ℕ)
    → (1 ≤ summary_parts ns s) × (summary_parts ns s ≤ max 1 s.summary_max_batches)
unfolding summary_parts
summary_parts_bounds s ns = (omega arith, omega arith)

read_parts_lem :
    (s : Settings) (ns : List ℕ) → max (length (read_parts ns s)) 1 ≡ summary_parts ns s
unfolding read_parts summary_parts
read_parts_lem s ns = omega (arith, length-take s.summary_max_batches (summary_plan ns s))

-- Answers and summaries in every mode, and all kinds in the flat mode.
abbrev pub IsFixed : PricingMode → String → Type 0
IsFixed mode kind = (str_eq kind "answer" ≡ true) ⊎ ((str_eq kind "summary" ≡ true) ⊎ (mode ≡ flat))

-- An answer or a summary in every mode, and a generation of any kind in the flat mode, costs after the
-- run what was quoted before it, if the usage reports as units the parts that the provider has read.
pub charge-quote :
    (s : Settings) (rounded : Rounded) (mode : PricingMode) (kind : String) (model : Option String)
    (ns : List ℕ) (usage : Usage)
    → IsFixed mode kind
    → usage.units ≡ length (read_parts ns s)
    → charge s rounded mode kind model usage ≡ quote s rounded mode kind model ns
unfolding quote charge core_quote core_charge
charge-quote s rounded mode kind model ns usage (inl answer) e = simp answer
charge-quote s rounded mode kind model ns usage (inr (inl summary)) e =
    let parts : max usage.units 1 ≡ summary_parts ns s =
      ap (λ n. max n 1) e ∙ read_parts_lem s ns in
    simp (summary, parts)
charge-quote s rounded mode kind model ns usage (inr (inr in_flat)) e =
    let parts : max usage.units 1 ≡ summary_parts ns s =
      ap (λ n. max n 1) e ∙ read_parts_lem s ns in
    simp (in_flat, parts)

-- A summary of more parts never costs less.
pub summary_price_mono : (s : Settings) (a b : ℕ) → a ≤ b → summary_price a s ≤ summary_price b s
unfolding summary_price
summary_price_mono s a b h = grind arith
