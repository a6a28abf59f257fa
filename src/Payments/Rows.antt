-- ===== src/Payments/Rows.antt =====
-- The `payments` table under an insert and an update by id.
use ai_text.Prelude.{
  ℕ, ◌⊎◌, inl, inr, String, ◌≡◌, ◌≢◌, refl, true, ◌&&◌, none, some, Option, List, [], ◌∷◌, ◌++◌,
  arith, str_eq, if◌then◌else◌, All,
}
use ai_text.Database.{Payment, PaymentChannel, received}
use ai_text.Products.{same_channel}
use ai_text.Payments.{find_payment, update_payment}

pub same_channel_refl : (c : PaymentChannel) → same_channel c c ≡ true
same_channel_refl PaymentChannel.apple_storekit = refl
same_channel_refl _ = refl

pub find_payment-append :
    (c : PaymentChannel) (x : String) (l : List Payment) (p : Payment)
    → find_payment c x (l ++ p ∷ []) ≡ elim (find_payment c x l) [
      | some q ↦ some q
      | none ↦ if same_channel p.channel c && str_eq p.external_id x then some p else none
    ]
unfolding find_payment
find_payment-append c x [] p = refl
find_payment-append c x (q ∷ l) p = ground (arith, find_payment-append c x l p)

-- The table has a row under this delivery key.
abbrev pub IsSome {ℓ} : {A : Type ℓ} → Option A → Type 0
IsSome none = ⊥
IsSome (some a) = Unit

abbrev pub KeepsKey : (Payment → Payment) → Type 0
KeepsKey f = (p : Payment) → ((f p).channel ≡ p.channel) × ((f p).external_id ≡ p.external_id)

pub find_payment-update_payment :
    (c : PaymentChannel) (x : String) (pid : ℕ) (f : Payment → Payment) (l : List Payment)
    → KeepsKey f
    → IsSome (find_payment c x l)
    → IsSome (find_payment c x (update_payment pid f l))
unfolding find_payment update_payment
find_payment-update_payment c x pid f [] k h = h
find_payment-update_payment c x pid f (p ∷ l) k h =
    ground (arith, k p, find_payment-update_payment c x pid f l k)

-- A row that is not left at the status `received`.
abbrev pub IsProcessed : Payment → Type 0
IsProcessed p = p.status ≢ received

-- The row with this id may still be at `received`.
abbrev pub IsProcessedBut : ℕ → Payment → Type 0
IsProcessedBut pid p = (p.id ≡ pid) ⊎ IsProcessed p

pub IsProcessedBut-append :
    (l : List Payment) (p : Payment) → All IsProcessed l → All (IsProcessedBut p.id) (l ++ p ∷ [])
IsProcessedBut-append [] p h = (inl refl, tt)
IsProcessedBut-append (q ∷ l) p h = (inr h.0, IsProcessedBut-append l p h.1)

pub update_payment-IsProcessed :
    (pid : ℕ) (f : Payment → Payment) (l : List Payment)
    → ((p : Payment) → IsProcessed (f p))
    → All (IsProcessedBut pid) l
    → All IsProcessed (update_payment pid f l)
unfolding update_payment
update_payment-IsProcessed pid f [] k h = tt
update_payment-IsProcessed pid f (p ∷ l) k h =
    ground (arith, k p, update_payment-IsProcessed pid f l k h.1)
