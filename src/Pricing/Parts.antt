-- ===== src/Pricing/Parts.antt =====
-- `plan_summary_parts` of src/app/domain/provider.py: what the parts of a summary hold.
use ai_text.Prelude.{
  ℕ, ◌+◌, ◌≡◌, ◌≢◌, inl, inr, refl, List, [], ◌∷◌, ◌++◌, arith, length, All, ap, ◌∙◌, leb,
  Bool-cases,
}
use mathlib.Core.List.{flatten, append_assoc, append-nil}
use ai_text.Pricing.{sum, range_from, parts_from, drop_empty, plan_summary_parts}

flatten-drop_empty : (ps : List (List ℕ)) → flatten (drop_empty ps) ≡ flatten ps
unfolding drop_empty flatten
flatten-drop_empty [] = refl
flatten-drop_empty ([] ∷ ps) = flatten-drop_empty ps
flatten-drop_empty ((x ∷ p) ∷ ps) = ap (λ (l : List ℕ). x ∷ (p ++ l)) (flatten-drop_empty ps)

flatten-parts_from :
    (m i : ℕ) (ns current : List ℕ) (size : ℕ)
    → flatten (parts_from m i ns current size) ≡ current ++ range_from i (length ns)
unfolding parts_from flatten
flatten-parts_from m i [] current size = refl
flatten-parts_from m i (n ∷ ns) current size = grind (
  arith,
  flatten-parts_from m (i + 1) ns (i ∷ []) n,
  flatten-parts_from m (i + 1) ns (current ++ i ∷ []) (size + n),
  append_assoc,
)

flatten-whole : (ns : List ℕ) → flatten (range_from 0 (length ns) ∷ []) ≡ range_from 0 (length ns)
unfolding flatten
flatten-whole ns = append-nil (range_from 0 (length ns))

-- Whatever the limits are, the parts hold the chunks 0, 1, 2, … each once and in order.
pub flatten-plan_summary_parts :
    (ns : List ℕ) (single_pass part_chars : ℕ)
    → flatten (plan_summary_parts ns single_pass part_chars) ≡ range_from 0 (length ns)
unfolding plan_summary_parts flatten
flatten-plan_summary_parts [] single_pass part_chars = ground arith
flatten-plan_summary_parts (n ∷ ns) single_pass part_chars =
    elim (Bool-cases (leb (sum (n ∷ ns)) single_pass)) [
      | inl small ↦ rw small (flatten-whole (n ∷ ns))
      | inr large ↦ rw large (
          flatten-drop_empty (parts_from part_chars 0 (n ∷ ns) [] 0)
          ∙ flatten-parts_from part_chars 0 (n ∷ ns) [] 0)
    ]

drop_empty-nonempty : (ps : List (List ℕ)) → All (λ p. p ≢ []) (drop_empty ps)
unfolding drop_empty
drop_empty-nonempty [] = tt
drop_empty-nonempty ([] ∷ ps) = drop_empty-nonempty ps
drop_empty-nonempty ((x ∷ p) ∷ ps) = (λ e. cc, drop_empty-nonempty ps)

-- No model call is made for an empty part.
pub plan_summary_parts-nonempty :
    (ns : List ℕ) (single_pass part_chars : ℕ)
    → All (λ p. p ≢ []) (plan_summary_parts ns single_pass part_chars)
unfolding plan_summary_parts
plan_summary_parts-nonempty [] single_pass part_chars = ground arith
plan_summary_parts-nonempty (n ∷ ns) single_pass part_chars =
    elim (Bool-cases (leb (sum (n ∷ ns)) single_pass)) [
      | inl small ↦ rw small (λ e. cc, tt)
      | inr large ↦ rw large (drop_empty-nonempty (parts_from part_chars 0 (n ∷ ns) [] 0))
    ]
