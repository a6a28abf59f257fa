-- ===== src/StoreKit.antt =====
-- The two clients of the payments journal that the app calls after a purchase in the App Store:
-- src/app/subscription/service.py and src/app/token_purchase/service.py. What the verifier of the
-- signed transaction returns or raises is an argument, and so is `isoformat`. The logs of outcomes
-- are not modelled.
pub mod Paid
use ai_text.Prelude.{
  ℕ, String, Bool, true, false, not, Option, none, some, List, [], ◌∷◌, ltb, str_append, lookup,
  insert, if◌then◌else◌,
}
use ai_text.Database.{
  Uuids, Db, Json, Payload, PaymentChannel, apple_storekit, PaymentKind, PaymentStatus,
  Subscription, SubscriptionStatus,
}
use ai_text.Action.{
  Action, Result, ok, err, AppError, unknown_product, product_not_in_channel, subscription_required,
  raise, gets, modify, pure, ◌>>=◌, ◌>>◌,
}
use ai_text.Products.{Catalogue, Product, ProductKind, find_product, sells_in}
use ai_text.Wallet.{balance}
use ai_text.Policy.{effective_subscription_status, load_policy_state}
use ai_text.Payments.{Event, PaymentOutcome, RefundOutcome, record_and_grant, apple_grant_keys}
use ai_text.Payments.Refund.{record_refund}

pub record VerifiedTransaction : Type 0 where
  pub transaction_id : String
  pub original_transaction_id : String
  pub product_id : String
  pub expires_at : Option ℕ
  pub revoked : Bool
  pub environment : String

pub record SyncResult : Type 0 where
  pub status : SubscriptionStatus
  pub plan : String
  pub expires_at : Option ℕ
  pub credits_granted : ℕ
  pub new_balance : ℕ
  pub idempotent_replay : Bool

pub record PurchaseResult : Type 0 where
  pub credits_added : ℕ
  pub new_balance : ℕ
  pub product_id : String
  pub transaction_id : String
  pub idempotent_replay : Bool

pub record SubscriptionView : Type 0 where
  pub status : SubscriptionStatus
  pub plan : Option String
  pub expires_at : Option ℕ

abbrev pub same_kind : ProductKind → ProductKind → Bool
same_kind ProductKind.subscription ProductKind.subscription = true
same_kind ProductKind.tokens ProductKind.tokens = true
same_kind _ _ = false

abbrev pub is_active : SubscriptionStatus → Bool
is_active SubscriptionStatus.active = true
is_active _ = false

abbrev pub is_replayed : PaymentStatus → Bool
is_replayed PaymentStatus.replayed = true
is_replayed _ = false

-- The checks of the product that both services make first.
unfoldable pub checked : {A : Type 0} → ProductKind → Option Product → Action A → Action A
unfolding sells_in
checked kind none m db = (err unknown_product, db)
checked kind (some p) m db =
    if same_kind p.kind kind
    then (if sells_in apple_storekit p.channels then m db else (err product_not_in_channel, db))
    else (err unknown_product, db)

-- `"active" if tx.expires_at is not None and tx.expires_at > _now() else "expired"`
abbrev pub status_at : Option ℕ → ℕ → SubscriptionStatus
status_at none now = SubscriptionStatus.expired
status_at (some t) now = if ltb now t then SubscriptionStatus.active else SubscriptionStatus.expired

-- `_upsert_subscription`
unfoldable pub upsert_subscription : ℕ → SubscriptionStatus → String → Option ℕ → Db → Db
upsert_subscription u status plan expires_at db = record db {
  subscriptions =
      insert u (record { status = status; plan = some plan; expires_at = expires_at })
        db.subscriptions;
}

abbrev view_of : ℕ → Option Subscription → SubscriptionView
view_of now none = record { status = SubscriptionStatus.none; plan = none; expires_at = none }
view_of now (some s) = record {
  status = effective_subscription_status (some s.status) s.expires_at now;
  plan = s.plan;
  expires_at = s.expires_at;
}

unfoldable pub get_subscription : ℕ → Db → SubscriptionView
unfolding effective_subscription_status
get_subscription u db = view_of db.now (lookup u db.subscriptions)

abbrev event : ℕ → VerifiedTransaction → String → String → Payload → Event
event u tx external_id event_type payload = record {
  channel = apple_storekit;
  external_id = external_id;
  user_id = u;
  product_id = some tx.product_id;
  event_type = some event_type;
  payload = payload;
  resolved_via = none;
}

abbrev pub revocation : ℕ → VerifiedTransaction → Event
revocation u tx =
    event u tx (str_append "revocation:" tx.transaction_id) "storekit_revocation"
      (("transactionId", Json.text tx.transaction_id) ∷ ("productId", Json.text tx.product_id) ∷ [])

abbrev iso_or_null : (ℕ → String) → Option ℕ → Json
iso_or_null iso none = Json.null
iso_or_null iso (some t) = Json.text (iso t)

abbrev pub subscribed : (ℕ → String) → ℕ → VerifiedTransaction → Event
subscribed iso u tx = event u tx tx.transaction_id "storekit_subscription" (
    ("transactionId", Json.text tx.transaction_id)
    ∷ ("productId", Json.text tx.product_id)
    ∷ ("originalTransactionId", Json.text tx.original_transaction_id)
    ∷ ("environment", Json.text tx.environment)
    ∷ ("expiresDate", iso_or_null iso tx.expires_at)
    ∷ [])

abbrev pub bought : ℕ → VerifiedTransaction → Event
bought u tx = event u tx tx.transaction_id "storekit_consumable" (
    ("transactionId", Json.text tx.transaction_id)
    ∷ ("productId", Json.text tx.product_id)
    ∷ ("originalTransactionId", Json.text tx.original_transaction_id)
    ∷ ("environment", Json.text tx.environment)
    ∷ [])

-- The results, with the balance as it is then.
abbrev pub sync_result :
    ℕ → VerifiedTransaction → SubscriptionStatus → ℕ → PaymentStatus → Action SyncResult
sync_result u tx status credits outcome = do
  b ← gets (balance u)
  pure (record {
    status = status;
    plan = tx.product_id;
    expires_at = tx.expires_at;
    credits_granted = credits;
    new_balance = b;
    idempotent_replay = is_replayed outcome;
  })

abbrev pub purchase_result : ℕ → VerifiedTransaction → ℕ → PaymentStatus → Action PurchaseResult
purchase_result u tx credits outcome = do
  b ← gets (balance u)
  pure (record {
    credits_added = credits;
    new_balance = b;
    product_id = tx.product_id;
    transaction_id = tx.transaction_id;
    idempotent_replay = is_replayed outcome;
  })

module _ (ids : Uuids) (iso : ℕ → String) (catalogue : Catalogue) where
  -- `_revoked`
  unfoldable pub revoked : ℕ → VerifiedTransaction → Action SyncResult
  unfolding apple_grant_keys balance
  revoked u tx = do
    outcome ← record_refund ids (revocation u tx) (apple_grant_keys tx.transaction_id) true
    sync_result u tx SubscriptionStatus.expired 0 outcome.status

  unfoldable pub activate : ℕ → VerifiedTransaction → SubscriptionStatus → Action SyncResult
  unfolding upsert_subscription record_and_grant balance
  activate u tx status = do
    modify (upsert_subscription u status tx.product_id tx.expires_at)
    outcome ←
        record_and_grant ids catalogue (subscribed iso u tx) PaymentKind.subscription
          (some (str_append "sub-grant:" tx.transaction_id))
    sync_result u tx status outcome.credits outcome.status

  unfoldable pub sync : ℕ → Result VerifiedTransaction → Action SyncResult
  unfolding checked revoked activate
  sync u (err e) db = (err e, db)
  sync u (ok tx) db =
      checked ProductKind.subscription (find_product catalogue tx.product_id)
        (if tx.revoked then revoked u tx else activate u tx (status_at tx.expires_at db.now)) db

  unfoldable pub refund_pack : ℕ → VerifiedTransaction → Action PurchaseResult
  unfolding apple_grant_keys balance
  refund_pack u tx = do
    refund ← record_refund ids (revocation u tx) (apple_grant_keys tx.transaction_id) false
    purchase_result u tx 0 refund.status

  unfoldable pub grant_pack : ℕ → VerifiedTransaction → Action PurchaseResult
  unfolding record_and_grant balance
  grant_pack u tx = do
    outcome ←
        record_and_grant ids catalogue (bought u tx) PaymentKind.tokens
          (some (str_append "token-purchase:" tx.transaction_id))
    purchase_result u tx outcome.credits outcome.status

  -- The guard of a purchase of tokens.
  unfoldable pub guarded : ℕ → VerifiedTransaction → Action PurchaseResult
  unfolding grant_pack load_policy_state
  guarded u tx db =
      if is_active (load_policy_state u db).subscription_status
      then grant_pack u tx db
      else (err subscription_required, db)

  unfoldable pub purchase : ℕ → Result VerifiedTransaction → Action PurchaseResult
  unfolding checked refund_pack guarded
  purchase u (err e) db = (err e, db)
  purchase u (ok tx) db =
      checked ProductKind.tokens (find_product catalogue tx.product_id)
        (if tx.revoked then refund_pack u tx else guarded u tx) db
