-- ===== src/Pricing.antt =====
-- Prices in credits: src/app/generation/pricing.py (the ceiling, the three modes),
-- src/app/domain/pricing.py, and `plan_summary_parts` of src/app/domain/provider.py. The `units` and
-- `tokens` modes multiply by floats and round up: the rounded products are arguments.
pub mod Parts
pub mod Quote
use ai_text.Prelude.{
  Option, none, some, ℕ, zero, suc, ◌+◌, ◌-◌, ◌*◌, min, max, Bool, true, false, ◌&&◌, String, List,
  [], ◌∷◌, ◌++◌, ltb, leb, str_eq, if◌then◌else◌, length, take,
}

-- The settings that the prices read.
pub record Settings : Type 0 where
  pub pricing_max_credits_per_generation : ℕ
  pub pricing_flat_credits : ℕ
  pub answer_credits : ℕ
  pub summary_credits : ℕ
  pub summary_credits_per_extra_part : ℕ
  pub summary_single_pass_chars : ℕ
  pub summary_batch_chars : ℕ
  pub summary_max_batches : ℕ

unfoldable pub cap : ℕ → Settings → ℕ
cap credits s = max 0 (min credits s.pricing_max_credits_per_generation)

-- `FlatPricing.quote` and `FlatPricing.charge`
unfoldable pub flat_price : Settings → ℕ
unfolding cap
flat_price s = cap s.pricing_flat_credits s

abbrev pub sum : List ℕ → ℕ
sum [] = 0
sum (n ∷ ns) = n + sum ns

-- `list(range(a, a + n))`
abbrev pub range_from : ℕ → ℕ → List ℕ
range_from a zero = []
range_from a (suc n) = a ∷ range_from (a + 1) n

abbrev pub is_nil {ℓ} : {A : Type ℓ} → List A → Bool
is_nil [] = true
is_nil (_ ∷ _) = false

abbrev not_nil : List ℕ → Bool
not_nil [] = false
not_nil (_ ∷ _) = true

-- The loop over the chunks: `current` is `parts[-1]`, `size` its characters, `i` the next index.
-- The result is the parts from `current` on.
unfoldable pub parts_from : ℕ → ℕ → List ℕ → List ℕ → ℕ → List (List ℕ)
parts_from part_chars i [] current size = current ∷ []
parts_from part_chars i (n ∷ ns) current size =
    let cut = current ∷ parts_from part_chars (i + 1) ns (i ∷ []) n in
    let same = parts_from part_chars (i + 1) ns (current ++ i ∷ []) (size + n) in
    if not_nil current && ltb part_chars (size + n) then cut else same

-- `[p for p in parts if p]`
unfoldable pub drop_empty : List (List ℕ) → List (List ℕ)
drop_empty [] = []
drop_empty (p ∷ ps) = if not_nil p then p ∷ drop_empty ps else drop_empty ps

unfoldable pub plan_summary_parts : List ℕ → ℕ → ℕ → List (List ℕ)
unfolding parts_from drop_empty
plan_summary_parts lengths single_pass part_chars =
    if leb (sum lengths) single_pass
    then if is_nil lengths then [] else range_from 0 (length lengths) ∷ []
    else drop_empty (parts_from part_chars 0 lengths [] 0)

unfoldable pub summary_plan : List ℕ → Settings → List (List ℕ)
summary_plan lengths s =
    plan_summary_parts lengths s.summary_single_pass_chars s.summary_batch_chars

unfoldable pub summary_parts : List ℕ → Settings → ℕ
summary_parts lengths s = max 1 (min (length (summary_plan lengths s)) s.summary_max_batches)

-- `plan[: self._max_batches]`, the parts that the provider reads; their number is `usage.units`.
unfoldable pub read_parts : List ℕ → Settings → List (List ℕ)
read_parts lengths s = take s.summary_max_batches (summary_plan lengths s)

unfoldable pub summary_price : ℕ → Settings → ℕ
unfolding cap
summary_price parts s =
    cap (s.summary_credits + max (parts - 1) 0 * s.summary_credits_per_extra_part) s

unfoldable pub answer_price : Settings → ℕ
unfolding cap
answer_price s = cap s.answer_credits s

-- `build_pricing`
pub data PricingMode : Type 0 where
  flat units tokens : PricingMode

-- `GenerationUsage`, the fields that a price reads.
pub record Usage : Type 0 where
  pub model : String
  pub units : ℕ
  pub input_tokens : ℕ
  pub output_tokens : ℕ
  pub cache_read_tokens : ℕ
  pub cache_write_tokens : ℕ

-- `math.ceil(n * self._rate(kind, model))`, and `math.ceil(weighted / divisor)` at the weights of
-- `model or usage.model`.
pub record Rounded : Type 0 where
  pub units_price : ℕ → String → Option String → ℕ
  pub tokens_price : String → Usage → ℕ

-- `model or usage.model`
abbrev pub model_or : Option String → String → String
model_or none other = other
model_or (some m) other = if str_eq m "" then other else m

module _ (s : Settings) (rounded : Rounded) where
  -- `quote` and `charge` of the built-in policies.
  unfoldable pub core_quote : PricingMode → String → Option String → ℕ
  unfolding flat_price cap
  core_quote flat kind model = flat_price s
  core_quote units kind model = cap (rounded.units_price 1 kind model) s
  core_quote tokens kind model = cap s.pricing_flat_credits s

  unfoldable pub core_charge : PricingMode → String → Option String → Usage → ℕ
  unfolding flat_price cap
  core_charge flat kind model usage = flat_price s
  core_charge units kind model usage = cap (rounded.units_price (max usage.units 0) kind model) s
  core_charge tokens kind model usage =
      cap (rounded.tokens_price (model_or model usage.model) usage) s

  -- `DomainPricing`, with the lengths of the chunks of `params`.
  unfoldable pub quote : PricingMode → String → Option String → List ℕ → ℕ
  unfolding answer_price summary_price core_quote
  quote mode kind model lengths =
      if str_eq kind "answer"
      then answer_price s
      else if str_eq kind "summary"
      then summary_price (summary_parts lengths s) s
      else core_quote mode kind model

  unfoldable pub charge : PricingMode → String → Option String → Usage → ℕ
  unfolding answer_price summary_price core_charge
  charge mode kind model usage =
      if str_eq kind "answer"
      then answer_price s
      else if str_eq kind "summary"
      then summary_price (max usage.units 1) s
      else core_charge mode kind model usage
