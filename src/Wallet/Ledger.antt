-- ===== src/Wallet/Ledger.antt =====
-- Sums over the ledger and what a new row does to them and to the search by key.
use ai_text.Prelude.{
  ℕ, ◌+◌, String, ◌≡◌, refl, ◌&&◌, none, some, List, [], ◌∷◌, ◌++◌, arith, eq_iff, ◌==◌, str_eq,
  if◌then◌else◌, All, All-append,
}
use ai_text.Database.{TxType, LedgerTransaction}
use ai_text.Wallet.{find_tx, same_type}

-- The sum of one user's debits, or of his credits.
unfoldable pub total : TxType → ℕ → List LedgerTransaction → ℕ
total type user_id [] = 0
total type user_id (t ∷ l) =
    (if t.user_id == user_id && same_type t.type type then t.amount else 0) + total type user_id l

pub total-append :
    (type : TxType) (u : ℕ) (l : List LedgerTransaction) (t : LedgerTransaction)
    → total type u (l ++ t ∷ [])
      ≡ total type u l + (if t.user_id == u && same_type t.type type then t.amount else 0)
unfolding total
total-append type u [] t = omega arith
total-append type u (x ∷ l) t = omega (arith, total-append type u l t)

pub find_tx-append :
    (u : ℕ) (k : String) (l : List LedgerTransaction) (t : LedgerTransaction)
    → find_tx u k (l ++ t ∷ []) ≡ elim (find_tx u k l) [
      | some r ↦ some r
      | none ↦ if t.user_id == u && str_eq t.idempotency_key k then some t else none
    ]
unfolding find_tx
find_tx-append u k [] t = refl
find_tx-append u k (x ∷ l) t = ground (arith, find_tx-append u k l t)

pub All-append_one :
    (P : LedgerTransaction → Type 0) (l : List LedgerTransaction) (t : LedgerTransaction)
    → All P l
    → P t
    → All P (l ++ t ∷ [])
All-append_one P l t h p = All-append P l (t ∷ []) h (p, tt)

-- `ux_ledger_idempotency`: no row's key is that of a later row of the same user.
abbrev pub HasUniqueKeys : List LedgerTransaction → Type 0
HasUniqueKeys [] = Unit
HasUniqueKeys (t ∷ l) = (find_tx t.user_id t.idempotency_key l ≡ none) × HasUniqueKeys l

pub HasUniqueKeys-append :
    (l : List LedgerTransaction) (t : LedgerTransaction)
    → HasUniqueKeys l
    → find_tx t.user_id t.idempotency_key l ≡ none
    → HasUniqueKeys (l ++ t ∷ [])
unfolding find_tx
HasUniqueKeys-append [] t h e = (refl, tt)
HasUniqueKeys-append (x ∷ l) t h e = ground (
  arith,
  HasUniqueKeys-append l t h.1,
  find_tx-append x.user_id x.idempotency_key l t,
  eq_iff x.idempotency_key t.idempotency_key,
  eq_iff t.idempotency_key x.idempotency_key,
)
