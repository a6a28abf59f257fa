-- ===== src/Prelude/Lists.antt =====
-- Lists measured by native numbers, tables as association lists, and predicates on all members.
use Prim.Native.Nat.{ℕ, zero, suc, ◌+◌, ◌-◌, min}
use mathlib.Core.Path.{◌≡◌, refl}
use mathlib.Core.Logic.{◌⊎◌}
use mathlib.Core.Option.{Option, none, some}
use mathlib.Core.List.{List, [], ◌∷◌, ◌++◌}
use native.Mathlib.Omega.{arith}
use ai_text.Prelude.Tests.{◌==◌, if◌then◌else◌}

module _ {ℓ} {A : Type ℓ} where
  abbrev pub length : List A → ℕ
  length [] = 0
  length (x ∷ xs) = suc (length xs)

  pub length-append : (xs ys : List A) → length (xs ++ ys) ≡ length xs + length ys
  length-append [] ys = omega arith
  length-append (x ∷ xs) ys = omega (arith, length-append xs ys)

module _ {ℓ} {A : Type ℓ} where
  abbrev pub take : ℕ → List A → List A
  take zero xs = []
  take (suc n) [] = []
  take (suc n) (x ∷ xs) = x ∷ take n xs

  pub length-take : (n : ℕ) (xs : List A) → length (take n xs) ≡ min n (length xs)
  length-take zero xs = omega arith
  length-take (suc n) [] = omega arith
  length-take (suc n) (x ∷ xs) = omega (arith, length-take n xs)

-- What is left from a position on, and the character at one.
module _ {ℓ} {A : Type ℓ} where
  abbrev pub drop : ℕ → List A → List A
  drop zero text = text
  drop (suc n) [] = []
  drop (suc n) (_ ∷ text) = drop n text

  abbrev pub get_elem? : List A → ℕ → Option A
  get_elem? [] at = none
  get_elem? (first ∷ text) zero = some first
  get_elem? (first ∷ text) (suc at) = get_elem? text at

  -- `text[start:end]`
  abbrev pub slice : ℕ → ℕ → List A → List A
  slice start end text = take (end - start) (drop start text)

-- A table with a numeric primary key.
module _ {ℓ} {Row : Type ℓ} where
  abbrev pub lookup : ℕ → List (ℕ × Row) → Option Row
  lookup id [] = none
  lookup id (entry ∷ table) = if entry.0 == id then some entry.1 else lookup id table

  abbrev pub insert : ℕ → Row → List (ℕ × Row) → List (ℕ × Row)
  insert id row [] = (id, row) ∷ []
  insert id row (entry ∷ table) =
      if entry.0 == id then (id, row) ∷ table else entry ∷ insert id row table

  pub lookup-insert :
      (id other : ℕ) (row : Row) (table : List (ℕ × Row))
      → lookup other (insert id row table) ≡ (if id == other then some row else lookup other table)
  lookup-insert id other row [] = refl
  lookup-insert id other row (entry ∷ table) = ground (arith, lookup-insert id other row table)

-- A predicate on every member, by recursion, so that it computes to a tuple.
abbrev pub All {ℓ κ} : {A : Type ℓ} → (A → Type κ) → List A → Type κ
All P [] = Unit
All P (x ∷ xs) = P x × All P xs

module _ {ℓ κ} {A : Type ℓ} (P : A → Type κ) where
  pub All-append : (xs ys : List A) → All P xs → All P ys → All P (xs ++ ys)
  All-append [] ys h k = k
  All-append (x ∷ xs) ys h k = (h.0, All-append xs ys h.1 k)

-- Membership, by recursion.
abbrev pub Among : {A : Type 0} → A → List A → Type 0
Among x [] = ⊥
Among x (y ∷ l) = (x ≡ y) ⊎ Among x l
