-- ===== src/Payments/Refund.antt =====
-- `PaymentsJournal.record_refund` of src/app/billing/payments.py.
pub mod Taken
pub mod Outcome
pub mod Covered
pub mod Repeat
pub mod Late
use ai_text.Prelude.{
  ℕ, ◌+◌, ◌-◌, min, String, Bool, true, false, not, ◌&&◌, Option, none, some, List, [], ◌∷◌, ◌++◌,
  ltb, ◌==◌, str_eq, str_append, if◌then◌else◌, lookup, insert, length,
}
use ai_text.Database.{
  Uuids, Json, Payload, debit, credit, LedgerTransaction, Db, Payment, PaymentKind, PaymentStatus,
  SubscriptionStatus,
}
use ai_text.Action.{ok, Action, pure, gets, ◌>>=◌, ◌>>◌, modify}
use ai_text.Wallet.{ConsumeResult, balance, same_type, find_tx, consume, audit_log}
use ai_text.Payments.{
  Event, RefundOutcome, contains, update_payment, insert_payment, channel_text, text_or_null,
}

-- `WHERE user_id = :uid AND type = 'credit' AND idempotency_key = ANY(:keys) ORDER BY created_at`;
-- the rows stand in the order of insertion.
unfoldable pub grants_under : ℕ → List String → List LedgerTransaction → List LedgerTransaction
unfolding contains
grants_under user_id keys [] = []
grants_under user_id keys (t ∷ l) =
    let rest = grants_under user_id keys l in
    if t.user_id == user_id && same_type t.type credit && contains t.idempotency_key keys
    then t ∷ rest
    else rest

unfoldable pub reversal_key : String → String
reversal_key grant_key = str_append "refund:" grant_key

-- The local variables of the loop.
pub record Tally : Type 0 where
  pub revoked : ℕ
  pub not_recovered : ℕ
  pub last_tx : Option ℕ

abbrev pub no_tally : Tally
no_tally = record { revoked = 0; not_recovered = 0; last_tx = none }

-- `",".join(str(c[0]) for c in credits) or None`
unfoldable pub joined_keys : List LedgerTransaction → String
joined_keys [] = ""
joined_keys (t ∷ []) = t.idempotency_key
joined_keys (t ∷ l) = str_append t.idempotency_key (str_append "," (joined_keys l))

abbrev or_null : String → Json
or_null s = if str_eq s "" then Json.null else Json.text s

unfoldable pub has_key : String → Payload → Bool
has_key k [] = false
has_key k ((j, v) ∷ p) = if str_eq j k then true else has_key k p

-- `payload || extra` on JSONB: a key of the right side replaces one of the left.
unfoldable pub merged : Payload → Payload → Payload
unfolding has_key
merged [] extra = extra
merged ((k, v) ∷ p) extra =
    let rest = merged p extra in if has_key k extra then rest else (k, v) ∷ rest

abbrev outcome : Tally → ℕ → Bool → ℕ → RefundOutcome
outcome t found revoke_subscription payment_id = record {
  status = PaymentStatus.refunded;
  credits_revoked = t.revoked;
  credits_not_recovered = t.not_recovered;
  grants_found = found;
  subscription_revoked = revoke_subscription;
  payment_id = some payment_id;
}

abbrev pub replayed_refund : RefundOutcome
replayed_refund = record {
  status = PaymentStatus.replayed;
  credits_revoked = 0;
  credits_not_recovered = 0;
  grants_found = 0;
  subscription_revoked = false;
  payment_id = none;
}

-- `UPDATE subscriptions SET status = 'expired' WHERE user_id = :uid`
unfoldable pub expire_subscription : ℕ → Action (Unit {0})
expire_subscription user_id = modify λ db. elim (lookup user_id db.subscriptions) [
  | none ↦ db
  | some s ↦ record db {
    subscriptions =
        insert user_id (record s { status = SubscriptionStatus.expired }) db.subscriptions;
  }
]

abbrev pub counted : ℕ → ℕ → Tally → ConsumeResult → Action Tally
counted amount take t c = pure (record {
  revoked = t.revoked + take;
  not_recovered = t.not_recovered + (amount - take);
  last_tx = some c.tx_id;
})

module _ (ids : Uuids) where
  -- The debit of what the balance can cover.
  unfoldable pub call_consume : Event → ℕ → String → ℕ → Action ConsumeResult
  call_consume e payment_id grant_key take =
      consume ids e.user_id take (reversal_key grant_key)
        (str_append (channel_text e.channel) "_refund")
        (("refundOf", Json.text grant_key) ∷ ("paymentId", Json.text (ids.text payment_id)) ∷ [])
        none

  -- `if take > 0`
  unfoldable pub take_back : Bool → Event → ℕ → String → ℕ → ℕ → Tally → Action Tally
  take_back false e payment_id grant_key amount take t =
      pure (record t { not_recovered = t.not_recovered + (amount - take) })
  take_back true e payment_id grant_key amount take t = do
    c ← call_consume e payment_id grant_key take
    counted amount take t c

  unfoldable pub reverse_new :
      Event → ℕ → LedgerTransaction → Tally → Option LedgerTransaction → Action Tally
  reverse_new e payment_id g t (some already) = pure t
  reverse_new e payment_id g t none = do
    b ← gets (balance e.user_id)
    let take = min g.amount b
    take_back (ltb 0 take) e payment_id g.idempotency_key g.amount take t

  -- The body of the loop.
  unfoldable pub reverse : Event → ℕ → LedgerTransaction → Tally → Action Tally
  reverse e payment_id g t = do
    already ← gets (λ db. find_tx e.user_id (reversal_key g.idempotency_key) db.ledger)
    reverse_new e payment_id g t already

  unfoldable pub reverse_all : Event → ℕ → List LedgerTransaction → Tally → Action Tally
  reverse_all e payment_id [] t = pure t
  reverse_all e payment_id (g ∷ gs) t = reverse e payment_id g t >>= reverse_all e payment_id gs

  unfoldable pub close_refund :
      Event → Bool → ℕ → List LedgerTransaction → Tally → Action RefundOutcome
  unfolding expire_subscription audit_log
  close_refund e revoke_subscription payment_id credits t = do
    if revoke_subscription then expire_subscription e.user_id else pure tt
    modify λ db. record db {
      payments =
          update_payment payment_id
            (λ p. record p {
              status = PaymentStatus.refunded;
              ledger_tx_id = t.last_tx;
              payload = merged p.payload (
                  ("refundOf", or_null (joined_keys credits))
                  ∷ ("creditsRevoked", Json.int t.revoked)
                  ∷ ("creditsNotRecovered", Json.int t.not_recovered)
                  ∷ ("subscriptionRevoked", Json.flag revoke_subscription)
                  ∷ []);
            })
            db.payments;
    }
    audit_log "payment_refund" e.user_id none (
        ("channel", Json.text (channel_text e.channel))
        ∷ ("productId", text_or_null e.product_id)
        ∷ ("grantsFound", Json.int (length credits))
        ∷ ("creditsRevoked", Json.int t.revoked)
        ∷ ("creditsNotRecovered", Json.int t.not_recovered)
        ∷ ("subscriptionRevoked", Json.flag revoke_subscription)
        ∷ ("resolvedVia", text_or_null e.resolved_via)
        ∷ [])
    pure (outcome t (length credits) revoke_subscription payment_id)

  unfoldable pub refund_inserted : Event → List String → Bool → Option ℕ → Action RefundOutcome
  refund_inserted e keys revoke_subscription none = pure replayed_refund
  refund_inserted e keys revoke_subscription (some payment_id) = do
    credits ← gets (λ db. grants_under e.user_id keys db.ledger)
    t ← reverse_all e payment_id credits no_tally
    close_refund e revoke_subscription payment_id credits t

  unfoldable pub record_refund : Event → List String → Bool → Action RefundOutcome
  record_refund e keys revoke_subscription = do
    payment_id ← insert_payment ids e PaymentKind.refund none
    refund_inserted e keys revoke_subscription payment_id
