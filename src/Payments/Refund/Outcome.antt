-- ===== src/Payments/Refund/Outcome.antt =====
-- The whole of `record_refund` (src/app/billing/payments.py): it returns, and its report accounts for
-- the balance.
use ai_text.Prelude.{
  ℕ, ◌+◌, ◌≤◌, ◌≡◌, Bool, true, false, Option, none, some, String, List, arith, ◌==◌, if◌then◌else◌,
}
use ai_text.Database.{Uuids, LedgerTransaction, Db, PaymentKind}
use ai_text.Action.Ensures.{Returns, Returns-seq, Returns-mono}
use ai_text.Wallet.{balance}
use ai_text.Payments.{Event, RefundOutcome, has_product, insert_payment}
use ai_text.Payments.Refund.{
  Tally, no_tally, reverse_all, close_refund, refund_inserted, record_refund, grants_under,
}
use ai_text.Payments.Refund.Taken.{Paid, amounts, reverse_all-Paid}

pub record RefundEffect (u limit : ℕ) (db : Db) (o : RefundOutcome) (db' : Db) : Type 0 where
  pub balances : (v : ℕ) → balance v db' + (if v == u then o.credits_revoked else 0) ≡ balance v db
  pub within : o.credits_revoked + o.credits_not_recovered ≤ limit

module _ (ids : Uuids) where
  close_refund-RefundEffect :
      (e : Event) (rs : Bool) (pid : ℕ) (gs : List LedgerTransaction) (t : Tally) (db db' : Db)
      → Paid e.user_id (amounts gs) no_tally t db db'
      → Returns (close_refund ids e rs pid gs t db') (RefundEffect e.user_id (amounts gs) db)
  unfolding close_refund balance
  close_refund-RefundEffect e true pid gs t db db' h = record {
    balances = λ v. ground (arith, h.balances v);
    within = omega (arith, h.within);
  }
  close_refund-RefundEffect e false pid gs t db db' h = record {
    balances = λ v. ground (arith, h.balances v);
    within = omega (arith, h.within);
  }

  refund_inserted-RefundEffect :
      (e : Event) (keys : List String) (rs : Bool) (pid : Option ℕ) (db : Db)
      → Returns
          (refund_inserted ids e keys rs pid db)
          (RefundEffect e.user_id (amounts (grants_under e.user_id keys db.ledger)) db)
  unfolding refund_inserted
  refund_inserted-RefundEffect e keys rs none db = record {
    balances = λ v. ground arith;
    within = omega arith;
  }
  refund_inserted-RefundEffect e keys rs (some pid) db =
      let gs = grants_under e.user_id keys db.ledger in
      Returns-seq (reverse_all ids e pid gs no_tally) (close_refund ids e rs pid gs)
        (λ t db'. Paid e.user_id (amounts gs) no_tally t db db')
        (RefundEffect e.user_id (amounts gs) db) db (reverse_all-Paid ids e pid gs no_tally db)
        (λ t db' h. close_refund-RefundEffect e rs pid gs t db db' h)

  -- The rows of a refund do not count before its own insert.
  SameMoney : Db → Db → Type 0
  SameMoney db db' = ((v : ℕ) → balance v db' ≡ balance v db) × (db'.ledger ≡ db.ledger)

  insert_payment-SameMoney :
      (e : Event) (kind : PaymentKind) (key : Option String) (db : Db)
      → has_product kind e.product_id ≡ true
      → Returns (insert_payment ids e kind key db) (λ _ db'. SameMoney db db')
  unfolding insert_payment balance SameMoney
  insert_payment-SameMoney e kind key db h = rw h (grind arith)

  -- A refund with a product id never raises. It takes from its user's balance exactly the credits
  -- that it reports as revoked, and nothing from any other balance; with those that it reports as
  -- not recovered they are at most what the refunded keys had granted.
  pub record_refund-RefundEffect :
      (e : Event) (keys : List String) (rs : Bool) (db : Db)
      → has_product PaymentKind.refund e.product_id ≡ true
      → Returns
          (record_refund ids e keys rs db)
          (RefundEffect e.user_id (amounts (grants_under e.user_id keys db.ledger)) db)
  unfolding record_refund SameMoney
  record_refund-RefundEffect e keys rs db h =
      let limit = amounts (grants_under e.user_id keys db.ledger) in
      Returns-seq (insert_payment ids e PaymentKind.refund none) (refund_inserted ids e keys rs)
        (λ _ db'. SameMoney db db') (RefundEffect e.user_id limit db) db
        (insert_payment-SameMoney e PaymentKind.refund none db h)
        (λ pid db' (same, ledger).
          Returns-mono (refund_inserted ids e keys rs pid db')
            (RefundEffect e.user_id (amounts (grants_under e.user_id keys db'.ledger)) db')
            (RefundEffect e.user_id limit db)
            (λ o db'' k. record {
              balances = λ v. omega (arith, k.balances v, same v);
              within = rw ledger at k.within;
            })
            (refund_inserted-RefundEffect e keys rs pid db'))
