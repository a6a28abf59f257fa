-- ===== src/Text/Quote/Find.antt =====
-- `str.find` as src/app/domain/text.py uses it: the leftmost occurrence from an offset on.
use ai_text.Prelude.{
  ℕ, zero, suc, ◌+◌, ◌-◌, ◌≤◌, ◌<◌, ◌≡◌, refl, ap, sym, subst, ◌∙◌, true, false, none, some, [],
  ◌∷◌, arith, length, drop, Bool-cases, inl, inr,
}
use ai_text.Text.Unicode.{Text}
use ai_text.Text.Quote.{starts_with, find_from, find}

-- The part stands at this offset, and its end is in the text.
pub record Occurs (t part : Text) (at : ℕ) : Type 0 where
  pub here : starts_with part (drop at t) ≡ true
  pub inside : at + length part ≤ length t

starts_with-length : (p t : Text) → starts_with p t ≡ true → length p ≤ length t
unfolding starts_with
starts_with-length [] t h = omega arith
starts_with-length (c ∷ p) [] h = absurd (cc)
starts_with-length (c ∷ p) (d ∷ t) h = ground (arith, starts_with-length p t)

-- What a search from `i` in the rest of a text finds: the occurrence at `k`, and none before it.
record IsFirst (p t : Text) (k : ℕ) : Type 0 where
  pub here : starts_with p (drop k t) ≡ true
  pub inside : k + length p ≤ length t
  pub before : (j : ℕ) → j < k → starts_with p (drop j t) ≡ false

missed_before :
    (p t : Text) (c k : ℕ)
    → starts_with p (c ∷ t) ≡ false
    → ((j : ℕ) → j < k → starts_with p (drop j t) ≡ false)
    → (j : ℕ) → j < suc k
    → starts_with p (drop j (c ∷ t)) ≡ false
missed_before p t c k miss before zero h = miss
missed_before p t c k miss before (suc j) h = before j (omega (arith, h))

IsFirst-here : (p t : Text) → starts_with p t ≡ true → IsFirst p t 0
IsFirst-here p t hit = record {
  here = hit;
  inside = omega (arith, starts_with-length p t hit);
  before = λ j h. absurd (omega (arith, h));
}

find_from-IsFirst :
    (p : Text) (i : ℕ) (t : Text) (at : ℕ)
    → find_from p i t ≡ some at
    → (k : ℕ) × (at ≡ i + k) × IsFirst p t k
unfolding find_from
find_from-IsFirst p i [] at h = elim (Bool-cases (starts_with p [])) [
  | inl hit ↦ (0, ground arith, IsFirst-here p [] hit)
  | inr miss ↦ absurd (ground arith)
]
find_from-IsFirst p i (c ∷ t) at h = elim (Bool-cases (starts_with p (c ∷ t))) [
  | inl hit ↦ (0, ground arith, IsFirst-here p (c ∷ t) hit)
  | inr miss ↦
      let (k, at_k, later) = find_from-IsFirst p (i + 1) t at (ground arith) in
      (
        suc k,
        omega (arith, at_k),
        record {
          here = later.here;
          inside = omega (arith, later.inside);
          before = missed_before p t c k miss later.before;
        },
      )
]

find_from-none :
    (p : Text) (i : ℕ) (t : Text)
    → find_from p i t ≡ none
    → (j : ℕ) → starts_with p (drop j t) ≡ false
unfolding find_from
find_from-none p i [] h zero = ground arith
find_from-none p i [] h (suc j) = ground arith
find_from-none p i (c ∷ t) h zero = ground arith
find_from-none p i (c ∷ t) h (suc j) = find_from-none p (i + 1) t (ground arith) j

drop-nil : (n : ℕ) → drop {A = ℕ} n [] ≡ []
drop-nil zero = refl
drop-nil (suc n) = refl

drop-drop : (m n : ℕ) (t : Text) → drop n (drop m t) ≡ drop (m + n) t
drop-drop zero n t = ap (λ k. drop k t) (omega arith)
drop-drop (suc m) n [] = drop-nil n ∙ sym (drop-nil (suc m + n))
drop-drop (suc m) n (c ∷ t) =
    drop-drop m n t ∙ ap (λ k. drop k (c ∷ t)) (let e : suc (m + n) ≡ suc m + n = omega arith in e)

length-drop : (n : ℕ) (t : Text) → length (drop n t) ≡ length t - n
length-drop zero t = omega arith
length-drop (suc n) [] = omega arith
length-drop (suc n) (c ∷ t) = omega (arith, length-drop n t)

-- The occurrence is the leftmost from this offset on.
abbrev pub IsLeftmost : Text → Text → ℕ → ℕ → Type 0
IsLeftmost t part start at = (j : ℕ) → start ≤ j → j < at → starts_with part (drop j t) ≡ false

pub find-Occurs :
    (t part : Text) (start at : ℕ)
    → start ≤ length t
    → find t part start ≡ some at
    → (start ≤ at) × Occurs t part at × IsLeftmost t part start at
unfolding find
find-Occurs t part start at le h =
    let (k, at_k, first) = find_from-IsFirst part start (drop start t) at h in
    (
      omega (arith, at_k),
      record {
        here =
            subst (λ s. starts_with part s ≡ true)
              (drop-drop start k t ∙ ap (λ n. drop n t) (sym at_k)) first.here;
        inside = omega (arith, first.inside, length-drop start t, at_k);
      },
      λ j low high.
          subst (λ s. starts_with part s ≡ false)
            (drop-drop start (j - start) t ∙ ap (λ n. drop n t) (omega (arith, low)))
            (first.before (j - start) (omega (arith, low, high, at_k))),
    )

-- A search that finds nothing: the part stands nowhere from its start on.
pub find-none :
    (t part : Text) (start : ℕ)
    → find t part start ≡ none
    → (j : ℕ) → start ≤ j
    → starts_with part (drop j t) ≡ false
unfolding find
find-none t part start h j low =
    subst (λ s. starts_with part s ≡ false)
      (drop-drop start (j - start) t ∙ ap (λ n. drop n t) (omega (arith, low)))
      (find_from-none part start (drop start t) h (j - start))
