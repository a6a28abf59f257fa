-- ===== src/Payments.antt =====
-- src/app/billing/payments.py, the journal of all payment channels. Every method runs in its
-- caller's transaction. The informational `amount` and `currency` columns, the time of processing
-- and the metrics are not modelled.
mod Projection
pub mod Rows
pub mod Grant
pub mod Delivery
pub mod Processed
pub mod Purchase
pub mod Refund
use ai_text.Prelude.{
  ℕ, suc, ◌+◌, ◌-◌, min, String, Bool, true, false, not, ◌&&◌, ◌||◌, Option, none, some, List, [],
  ◌∷◌, ◌++◌, map, leb, ◌==◌, str_eq, str_append, if◌then◌else◌, lookup, insert, length,
}
use ai_text.Database.{
  Uuids, Json, Payload, credit, debit, LedgerTransaction, Db, Payment, PaymentChannel,
  apple_storekit, adapty, cloudpayments, PaymentKind, subscription, tokens, subscription_event,
  refund, PaymentStatus, received, granted, replayed, no_grant, rejected, refunded, Subscription,
}
use ai_text.Database.SubscriptionStatus.{expired}
use ai_text.Action.{integrity_error, ok, err, Action, pure, raise, gets, ◌>>=◌, ◌>>◌, modify}
use ai_text.Products.{Product, Catalogue, product_of, same_channel, sells_in}
use ai_text.Wallet
unfoldable pub use Projection.{
  payload_allowlist, refund_payload_keys, contains, is_null, keep_allowed, sanitize_payload,
  channel_text, kind_text, status_text, text_or_null,
}
use ai_text.Wallet.{balance, same_type, find_tx, audit_log, GrantResult}

pub data Layer : Type 0 where
  delivery grant : Layer

pub data Reason : Type 0 where
  duplicate_delivery unknown_product product_not_in_channel : Reason

pub record PaymentOutcome : Type 0 where
  pub status : PaymentStatus
  pub credits : ℕ
  pub layer : Option Layer
  pub ledger_tx_id : Option ℕ
  pub payment_id : Option ℕ
  pub reason : Option Reason

pub record RefundOutcome : Type 0 where
  pub status : PaymentStatus
  pub credits_revoked : ℕ
  pub credits_not_recovered : ℕ
  pub grants_found : ℕ
  pub subscription_revoked : Bool
  pub payment_id : Option ℕ

-- The row that `UNIQUE (channel, external_id)` points at.
unfoldable pub find_payment : PaymentChannel → String → List Payment → Option Payment
find_payment channel external_id [] = none
find_payment channel external_id (p ∷ l) =
    if same_channel p.channel channel && str_eq p.external_id external_id
    then some p
    else find_payment channel external_id l

abbrev pub same_kind : PaymentKind → PaymentKind → Bool
same_kind subscription subscription = true
same_kind tokens tokens = true
same_kind subscription_event subscription_event = true
same_kind refund refund = true
same_kind _ _ = false

-- `ck_payments_product`, which PostgreSQL tests before it looks for a conflict.
unfoldable pub has_product : PaymentKind → Option String → Bool
has_product kind none = same_kind kind subscription_event
has_product kind (some _) = true

-- `UPDATE payments SET … WHERE id = :pid`
unfoldable pub update_payment : ℕ → (Payment → Payment) → List Payment → List Payment
update_payment pid f [] = []
update_payment pid f (p ∷ l) = (if p.id == pid then f p else p) ∷ update_payment pid f l

unfoldable pub mark : ℕ → PaymentStatus → Action (Unit {0})
unfolding update_payment
mark payment_id status = modify λ db. record db {
  payments = update_payment payment_id (λ p. record p { status = status }) db.payments;
}

unfoldable pub finalize : ℕ → PaymentStatus → ℕ → ℕ → Action (Unit {0})
unfolding update_payment
finalize payment_id status credits_granted ledger_tx_id = modify λ db. record db {
  payments =
      update_payment payment_id
        (λ p. record p {
          status = status;
          credits_granted = credits_granted;
          ledger_tx_id = some ledger_tx_id;
        })
        db.payments;
}

-- What both methods are given of an event.
pub record Event : Type 0 where
  pub channel : PaymentChannel
  pub external_id : String
  pub user_id : ℕ
  pub product_id : Option String
  pub event_type : Option String
  pub payload : Payload
  pub resolved_via : Option String

abbrev pub outcome_of : PaymentStatus → Option ℕ → Option Reason → PaymentOutcome
outcome_of status payment_id reason = record {
  status = status;
  credits = 0;
  layer = none;
  ledger_tx_id = none;
  payment_id = payment_id;
  reason = reason;
}

abbrev pub duplicate : PaymentOutcome
duplicate = record {
  status = replayed;
  credits = 0;
  layer = some delivery;
  ledger_tx_id = none;
  payment_id = none;
  reason = some duplicate_delivery;
}

-- The anti-tamper tests, which a `subscription_event` does not take.
unfoldable pub rejection : Event → PaymentKind → Option Product → Option Reason
rejection e subscription_event product = none
rejection e kind none = some unknown_product
rejection e kind (some product) =
    if sells_in e.channel product.channels then none else some product_not_in_channel

module _ (ids : Uuids) where
  -- `INSERT INTO payments … ON CONFLICT (channel, external_id) DO NOTHING RETURNING id`
  unfoldable pub insert_payment : Event → PaymentKind → Option String → Action (Option ℕ)
  insert_payment e kind grant_key db =
      if has_product kind e.product_id
      then elim (find_payment e.channel e.external_id db.payments) [
        | some _ ↦ (ok none, db)
        | none ↦ (
          ok (some (ids.gen db.drawn)),
          record db {
            payments =
                db.payments
                ++ record {
                  id = ids.gen db.drawn;
                  user_id = e.user_id;
                  channel = e.channel;
                  external_id = e.external_id;
                  event_type = e.event_type;
                  product_id = e.product_id;
                  kind = kind;
                  status = received;
                  credits_granted = 0;
                  grant_idempotency_key = grant_key;
                  ledger_tx_id = none;
                  payload = sanitize_payload e.channel e.payload;
                }
                  ∷ [];
            drawn = suc db.drawn;
          },
        )
      ]
      else (err integrity_error, db)

  abbrev grant_status : Bool → PaymentStatus
  grant_status true = replayed
  grant_status false = granted

  -- After `wallet.grant` has returned.
  unfoldable pub record_grant : Event → PaymentKind → ℕ → ℕ → GrantResult → Action PaymentOutcome
  unfolding finalize audit_log
  record_grant e kind payment_id credits g = do
    let status = grant_status g.replay
    let credits_granted = if g.replay then 0 else credits
    finalize payment_id status credits_granted g.tx_id
    audit_log "payment_event" e.user_id none (
        ("channel", Json.text (channel_text e.channel))
        ∷ ("kind", Json.text (kind_text kind))
        ∷ ("status", Json.text (status_text status))
        ∷ ("productId", text_or_null e.product_id)
        ∷ ("creditsGranted", Json.int credits_granted)
        ∷ ("resolvedVia", text_or_null e.resolved_via)
        ∷ ("ledgerTxId", Json.text (ids.text g.tx_id))
        ∷ [])
    pure (record {
      status = status;
      credits = credits_granted;
      layer = if g.replay then some Layer.grant else none;
      ledger_tx_id = some g.tx_id;
      payment_id = some payment_id;
      reason = none;
    })

  -- The call of `wallet.grant`: the amount is that of the product, never that of the event.
  unfoldable pub call_grant : Event → PaymentKind → ℕ → String → Product → Action GrantResult
  call_grant e kind payment_id key product =
      Wallet.grant ids e.user_id product.credits key
        (str_append (channel_text e.channel) (str_append "_" (kind_text kind)))
        (("channel", Json.text (channel_text e.channel))
          ∷ ("productId", text_or_null e.product_id)
          ∷ ("paymentId", Json.text (ids.text payment_id))
          ∷ [])

  -- Layer 2.
  unfoldable pub grant_credits :
      Event → PaymentKind → ℕ → Option String → Option Product → Action PaymentOutcome
  unfolding mark
  grant_credits e kind payment_id (some key) (some product) = do
    g ← call_grant e kind payment_id key product
    record_grant e kind payment_id product.credits g
  grant_credits e kind payment_id _ _ = do
    mark payment_id no_grant
    pure (outcome_of no_grant (some payment_id) none)

  unfoldable pub check_product :
      Event
      → PaymentKind
      → ℕ
      → Option String
      → Option Product
      → Option Reason
      → Action PaymentOutcome
  unfolding mark
  check_product e kind payment_id grant_key product (some reason) = do
    mark payment_id rejected
    pure (outcome_of rejected (some payment_id) (some reason))
  check_product e kind payment_id grant_key product none =
      grant_credits e kind payment_id grant_key product

  unfoldable pub record_inserted :
      Catalogue → Event → PaymentKind → Option String → Option ℕ → Action PaymentOutcome
  record_inserted catalogue e kind grant_key none = pure duplicate
  record_inserted catalogue e kind grant_key (some payment_id) =
      let product = product_of catalogue e.product_id in
      check_product e kind payment_id grant_key product (rejection e kind product)

  unfoldable pub record_and_grant :
      Catalogue → Event → PaymentKind → Option String → Action PaymentOutcome
  record_and_grant catalogue e kind grant_key = do
    payment_id ← insert_payment e kind grant_key
    record_inserted catalogue e kind grant_key payment_id

-- `apple_grant_keys`
unfoldable pub apple_grant_keys : String → List String
apple_grant_keys transaction_id =
    str_append "sub-grant:" transaction_id
    ∷ str_append "token-purchase:" transaction_id
    ∷ str_append "adapty-txn:" transaction_id
    ∷ []
