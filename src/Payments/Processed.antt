-- ===== src/Payments/Processed.antt =====
-- `record_and_grant` (src/app/billing/payments.py) leaves no row at `received`, and keeps the balances
-- at the sums of the ledger.
use ai_text.Prelude.{ℕ, String, Option, none, some, arith, All}
use ai_text.Database.{Uuids, Db, PaymentKind}
use ai_text.Action.{transaction}
use ai_text.Action.Ensures.{Ensures, Ensures-seq, transaction-Ensures}
use ai_text.Products.{Catalogue, Product, product_of}
use ai_text.Wallet.Contract.{Granted, grant-Granted}
use ai_text.Payments.{
  Event, Reason, rejection, record_and_grant, record_inserted, insert_payment, check_product,
  grant_credits, call_grant, record_grant,
}
use ai_text.Payments.Rows.{
  IsProcessed, IsProcessedBut, IsProcessedBut-append, update_payment-IsProcessed,
}

-- What holds between the insert and the update: all rows but the new one are processed.
abbrev IsOpen : Option ℕ → Db → Type 0
IsOpen none db = All IsProcessed db.payments
IsOpen (some pid) db = All (IsProcessedBut pid) db.payments

module _ (ids : Uuids) where
  grant_credits-IsProcessed :
      (e : Event) (kind : PaymentKind) (pid : ℕ) (key : Option String) (product : Option Product)
      (db : Db)
      → IsOpen (some pid) db
      → Ensures
          (grant_credits ids e kind pid key product db)
          (λ _ db'. All IsProcessed db'.payments)
  unfolding grant_credits record_grant call_grant
  grant_credits-IsProcessed e kind pid none none db h =
      update_payment-IsProcessed pid _ db.payments (λ p. cc) h
  grant_credits-IsProcessed e kind pid none (some p) db h =
      update_payment-IsProcessed pid _ db.payments (λ p. cc) h
  grant_credits-IsProcessed e kind pid (some key) none db h =
      update_payment-IsProcessed pid _ db.payments (λ p. cc) h
  grant_credits-IsProcessed e kind pid (some key) (some p) db h =
      Ensures-seq (call_grant ids e kind pid key p) (record_grant ids e kind pid p.credits)
        (Granted e.user_id p.credits key db) (λ _ db'. All IsProcessed db'.payments) db
        (grant-Granted ids e.user_id p.credits key _ _ db)
        (λ g db' granted.
          update_payment-IsProcessed pid _ db'.payments (λ p. ground arith)
            (rw granted.frame.payments h))

  record_inserted-IsProcessed :
      (catalogue : Catalogue) (e : Event) (kind : PaymentKind) (key : Option String)
      (pid : Option ℕ) (db : Db)
      → IsOpen pid db
      → Ensures
          (record_inserted ids catalogue e kind key pid db)
          (λ _ db'. All IsProcessed db'.payments)
  unfolding record_inserted check_product
  record_inserted-IsProcessed catalogue e kind key none db h = h
  record_inserted-IsProcessed catalogue e kind key (some pid) db h =
      let product = product_of catalogue e.product_id in check product (rejection e kind product)
    where
      check :
          (product : Option Product) (reason : Option Reason)
          → Ensures
              (check_product ids e kind pid key product reason db)
              (λ _ db'. All IsProcessed db'.payments)
      check product none = grant_credits-IsProcessed e kind pid key product db h
      check product (some r) = update_payment-IsProcessed pid _ db.payments (λ p. cc) h

  insert_payment-IsOpen :
      (e : Event) (kind : PaymentKind) (key : Option String) (db : Db)
      → All IsProcessed db.payments
      → Ensures (insert_payment ids e kind key db) IsOpen
  unfolding insert_payment
  insert_payment-IsOpen e kind key db h = grind (arith, IsProcessedBut-append)

  -- Whether the call returns or raises and is rolled back, no row of the journal is left at the
  -- status `received` if none was before.
  pub record_and_grant-IsProcessed :
      (catalogue : Catalogue) (e : Event) (kind : PaymentKind) (key : Option String) (db : Db)
      → All IsProcessed db.payments
      → All IsProcessed (transaction (record_and_grant ids catalogue e kind key) db).1.payments
  unfolding record_and_grant
  record_and_grant-IsProcessed catalogue e kind key db h =
      transaction-Ensures (λ db'. All IsProcessed db'.payments)
        (record_and_grant ids catalogue e kind key) db h
        (Ensures-seq (insert_payment ids e kind key) (record_inserted ids catalogue e kind key)
          IsOpen (λ _ db'. All IsProcessed db'.payments) db (insert_payment-IsOpen e kind key db h)
          (λ pid db'. record_inserted-IsProcessed catalogue e kind key pid db'))
