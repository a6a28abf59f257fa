-- ===== src/Text/Chunk/Cut.antt =====
-- Where `chunk_text` of src/app/domain/text.py cuts: behind the start, and no later than the target.
use ai_text.Prelude.{
  ℕ, zero, suc, ◌+◌, ◌-◌, ◌/◌, ◌≤◌, ◌<◌, ◌≡◌, min, max, some, List, [], ◌∷◌, arith, drop, length,
  slice, length-take,
}
use ai_text.Text.Unicode.{Unicode, Text}
use ai_text.Text.Chunk.{rfind_break, rfind_space, closing, last_sentence, cut_in, end_of}

pub length-drop {ℓ} : {A : Type ℓ} (n : ℕ) (t : List A) → length (drop n t) ≡ length t - n
length-drop zero t = omega arith
length-drop (suc n) [] = omega arith
length-drop (suc n) (c ∷ t) = omega (arith, length-drop n t)

pub length-slice :
    (start end : ℕ) (t : Text) → end ≤ length t → length (slice start end t) ≡ end - start
length-slice start end t h =
    omega (arith, length-take {0} (end - start) (drop start t), length-drop start t)

rfind_break_bounds :
    (i : ℕ) (w : Text) (k : ℕ) → rfind_break i w ≡ some k → (i ≤ k) × (k + 2 ≤ i + length w)
unfolding rfind_break
rfind_break_bounds i [] k h = absurd (cc)
rfind_break_bounds i (c ∷ []) k h = absurd (cc)
rfind_break_bounds i (c ∷ d ∷ t) k h = grind (arith, rfind_break_bounds (i + 1) (d ∷ t) k)

rfind_space_bounds :
    (i : ℕ) (w : Text) (k : ℕ) → rfind_space i w ≡ some k → (i ≤ k) × (k < i + length w)
unfolding rfind_space
rfind_space_bounds i [] k h = absurd (cc)
rfind_space_bounds i (c ∷ t) k h = grind (arith, rfind_space_bounds (i + 1) t k)

module _ (u : Unicode) where
  closing_bounds : (t : Text) (n : ℕ) → closing u t ≡ some n → n ≤ length t
  unfolding closing
  closing_bounds [] n h = absurd (cc)
  closing_bounds (c ∷ t) n h = grind (arith, closing_bounds t)

  last_sentence_bounds :
      (i : ℕ) (w : Text) (k : ℕ) → last_sentence u i w ≡ some k → (i < k) × (k ≤ i + length w)
  unfolding last_sentence
  last_sentence_bounds i [] k h = absurd (cc)
  last_sentence_bounds i (c ∷ t) k h =
      grind (arith, last_sentence_bounds (i + 1) t k, closing_bounds t)

  cut_in_bounds :
      (w : Text) (base hard_end : ℕ)
      → length w ≤ hard_end - base
      → 0 < hard_end
      → (min base (hard_end - 1) < cut_in u w base hard_end) × (cut_in u w base hard_end ≤ hard_end)
  unfolding cut_in
  cut_in_bounds w base hard_end size pos =
      grind (arith, rfind_break_bounds 0 w, last_sentence_bounds 0 w, rfind_space_bounds 0 w)

  -- A chunk that starts inside the text ends behind its start, in the text, and at most `target`
  -- characters on.
  pub end_of_bounds :
      (text : Text) (target pos : ℕ)
      → 0 < target
      → pos < length text
      → (pos < end_of u text target pos)
        × (end_of u text target pos ≤ pos + target)
        × (end_of u text target pos ≤ length text)
  unfolding end_of
  end_of_bounds text target pos positive inside =
      let hard_end : ℕ = min (pos + target) (length text) in
      let base : ℕ = pos + max (target / 2) 1 in
      let size = length-slice base hard_end text (omega arith) in
      let cut =
        cut_in_bounds (slice base hard_end text) base hard_end (omega (arith, size))
          (omega (arith, positive, inside)) in
      ground (arith, cut)
