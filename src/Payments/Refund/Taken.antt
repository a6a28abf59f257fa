-- ===== src/Payments/Refund/Taken.antt =====
-- What `record_refund` (src/app/billing/payments.py) takes back.
use ai_text.Prelude.{
  ℕ, ◌+◌, ◌≤◌, min, ◌≡◌, refl, Bool, true, false, Option, none, some, List, [], ◌∷◌, arith, ltb,
  ◌==◌, if◌then◌else◌,
}
use ai_text.Database.{Uuids, LedgerTransaction, Db}
use ai_text.Action.Ensures.{Returns, Returns-seq, Returns-mono}
use ai_text.Wallet.{balance, find_tx}
use ai_text.Wallet.Contract.{Consumed, consume-Returns}
use ai_text.Payments.{Event}
use ai_text.Payments.Refund.{
  Tally, counted, reversal_key, take_back, call_consume, reverse_new, reverse, reverse_all,
}

-- What one step or the whole loop has done: the balance has paid for what the tally gained, and
-- the tally gained at most the amounts of the grants.
pub record Paid (u limit : ℕ) (t t' : Tally) (db db' : Db) : Type 0 where
  pub balances :
      (v : ℕ)
      → balance v db' + (if v == u then t'.revoked else 0)
        ≡ balance v db + (if v == u then t.revoked else 0)
  pub grows : t.revoked ≤ t'.revoked
  pub within : t'.revoked + t'.not_recovered ≤ t.revoked + t.not_recovered + limit

Paid-trans :
    (u l k : ℕ) (t t' t'' : Tally) (db db' db'' : Db)
    → Paid u l t t' db db'
    → Paid u k t' t'' db' db''
    → Paid u (l + k) t t'' db db''
Paid-trans u l k t t' t'' db db' db'' h h' = record {
  balances = λ v. omega (arith, h.balances v, h'.balances v);
  grows = omega arith;
  within = omega arith;
}

unfoldable pub amounts : List LedgerTransaction → ℕ
amounts [] = 0
amounts (g ∷ gs) = g.amount + amounts gs

module _ (ids : Uuids) where
  take_back-Paid :
      (b : Bool) (e : Event) (pid : ℕ) (g : LedgerTransaction) (take : ℕ) (t : Tally) (db : Db)
      → ltb 0 take ≡ b
      → take ≤ g.amount
      → take ≤ balance e.user_id db
      → find_tx e.user_id (reversal_key g.idempotency_key) db.ledger ≡ none
      → Returns
          (take_back ids b e pid g.idempotency_key g.amount take t db)
          (λ t' db'. Paid e.user_id g.amount t t' db db')
  unfolding take_back call_consume
  take_back-Paid false e pid g take t db test small covered new = record {
    balances = λ v. refl;
    grows = omega arith;
    within = omega arith;
  }
  take_back-Paid true e pid g take t db test small covered new =
      Returns-seq (call_consume ids e pid g.idempotency_key take) (counted g.amount take t)
        (λ c db'.
          Consumed e.user_id take (reversal_key g.idempotency_key) db c db' × (c.replay ≡ false))
        (λ t' db'. Paid e.user_id g.amount t t' db db') db
        (consume-Returns ids e.user_id take (reversal_key g.idempotency_key) _ _ _ db (ground arith)
          new covered)
        (λ c db' (h, fresh). record {
          balances = λ v. ground (arith, h.balances v, fresh);
          grows = omega arith;
          within = omega arith;
        })

  reverse-Paid :
      (e : Event) (pid : ℕ) (g : LedgerTransaction) (t : Tally) (db : Db)
      → Returns (reverse ids e pid g t db) (λ t' db'. Paid e.user_id g.amount t t' db db')
  unfolding reverse
  reverse-Paid e pid g t db =
      by_key (find_tx e.user_id (reversal_key g.idempotency_key) db.ledger) refl
    where
      by_key :
          (already : Option LedgerTransaction)
          → find_tx e.user_id (reversal_key g.idempotency_key) db.ledger ≡ already
          → Returns
              (reverse_new ids e pid g t already db)
              (λ t' db'. Paid e.user_id g.amount t t' db db')
      by_key (some already) h =
          unfold reverse_new in
          record { balances = λ v. refl; grows = omega arith; within = omega arith }
      by_key none h =
          unfold reverse_new in
          take_back-Paid _ e pid g (min g.amount (balance e.user_id db)) t db refl (omega arith)
            (omega arith) h

  pub reverse_all-Paid :
      (e : Event) (pid : ℕ) (gs : List LedgerTransaction) (t : Tally) (db : Db)
      → Returns (reverse_all ids e pid gs t db) (λ t' db'. Paid e.user_id (amounts gs) t t' db db')
  unfolding reverse_all amounts
  reverse_all-Paid e pid [] t db = record {
    balances = λ v. refl;
    grows = omega arith;
    within = omega arith;
  }
  reverse_all-Paid e pid (g ∷ gs) t db =
      Returns-seq (reverse ids e pid g t) (reverse_all ids e pid gs)
        (λ t' db'. Paid e.user_id g.amount t t' db db')
        (λ t' db'. Paid e.user_id (amounts (g ∷ gs)) t t' db db') db (reverse-Paid e pid g t db)
        (λ t' db' h.
          Returns-mono (reverse_all ids e pid gs t' db')
            (λ t'' db''. Paid e.user_id (amounts gs) t' t'' db' db'')
            (λ t'' db''. Paid e.user_id (amounts (g ∷ gs)) t t'' db db'')
            (λ t'' db'' k. Paid-trans e.user_id g.amount (amounts gs) t t' t'' db db' db'' h k)
            (reverse_all-Paid e pid gs t' db'))
