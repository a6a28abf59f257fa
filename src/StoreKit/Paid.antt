-- ===== src/StoreKit/Paid.antt =====
-- What `sync` (src/app/subscription/service.py) and `purchase` (src/app/token_purchase/service.py) do
-- to the balances and report of them.
use ai_text.Prelude.{
  ℕ, ◌+◌, ◌≡◌, refl, ◌⊎◌, inl, String, Bool, true, false, Option, none, some, arith, ◌==◌,
  if◌then◌else◌, str_append,
}
use ai_text.Database.{Uuids, Db, PaymentKind, SubscriptionStatus, apple_storekit}
use ai_text.Action.{Action, Result, ok, err, AppError}
use ai_text.Action.Ensures.{Ensures, Ensures-seq, Ensures-mono, Returns}
use ai_text.Products.{Catalogue, Product, ProductKind, product_of, find_product}
use ai_text.Wallet.{balance}
use ai_text.Policy.{load_policy_state}
use ai_text.Payments.{has_product, record_and_grant, apple_grant_keys}
use ai_text.Payments.Grant.{Effect, price_of, record_and_grant-Effect}
use ai_text.Payments.Refund.{record_refund, grants_under}
use ai_text.Payments.Refund.Taken.{amounts}
use ai_text.Payments.Refund.Outcome.{RefundEffect, record_refund-RefundEffect}
use ai_text.StoreKit.{
  VerifiedTransaction, SyncResult, PurchaseResult, checked, is_active, status_at,
  upsert_subscription, subscribed, bought, revocation, sync_result, purchase_result, revoked,
  activate, sync, refund_pack, grant_pack, guarded, purchase,
}

-- A purchase adds the credits to its user's balance alone, and a revocation only takes from it.
abbrev pub Moves : Bool → ℕ → ℕ → Db → Db → Type 0
Moves false u credits db db' =
    (v : ℕ) → balance v db' ≡ balance v db + (if v == u then credits else 0)
Moves true u credits db db' =
    (taken : ℕ) × (credits ≡ 0)
    × ((v : ℕ) → balance v db' + (if v == u then taken else 0) ≡ balance v db)

pub record IsPaid (is_revoked : Bool) (u : ℕ) (price : Option ℕ) (db : Db) (credits new_balance : ℕ)
    (db' : Db) : Type 0 where
  pub moves : Moves is_revoked u credits db db'
  pub priced : (credits ≡ 0) ⊎ (price ≡ some credits)
  pub told : new_balance ≡ balance u db'

Returns-Ensures : {A : Type 0} (r : Result A × Db) (Q : A → Db → Type 0) → Returns r Q → Ensures r Q
Returns-Ensures (ok a, db) Q h = h
Returns-Ensures (err e, db) Q h = tt

checked-Ensures :
    {A : Type 0} (kind : ProductKind) (o : Option Product) (m : Action A) (db : Db)
    (Q : A → Db → Type 0)
    → Ensures (m db) Q
    → Ensures (checked kind o m db) Q
unfolding checked
checked-Ensures kind none m db Q h = tt
checked-Ensures kind (some p) m db Q h = ground arith

if-Ensures :
    {A : Type 0} (b : Bool) (m n : Action A) (db : Db) (Q : Bool → A → Db → Type 0)
    → Ensures (m db) (Q true)
    → Ensures (n db) (Q false)
    → Ensures ((if b then m else n) db) (Q b)
if-Ensures true m n db Q h k = h
if-Ensures false m n db Q h k = k

module _ (ids : Uuids) (iso : ℕ → String) (catalogue : Catalogue) where
  abbrev pub SyncPaid : ℕ → VerifiedTransaction → Db → Bool → SyncResult → Db → Type 0
  SyncPaid u tx db r o db' =
      IsPaid r u
        (price_of PaymentKind.subscription apple_storekit
          (product_of catalogue (some tx.product_id)))
        db o.credits_granted o.new_balance db'

  activate-SyncPaid :
      (u : ℕ) (tx : VerifiedTransaction) (db : Db)
      → Ensures
          (activate ids iso catalogue u tx (status_at tx.expires_at db.now) db)
          (SyncPaid u tx db false)
  unfolding activate upsert_subscription balance
  activate-SyncPaid u tx db =
      let after =
        upsert_subscription u (status_at tx.expires_at db.now) tx.product_id tx.expires_at db in
      let price =
        price_of PaymentKind.subscription apple_storekit
          (product_of catalogue (some tx.product_id)) in
      Ensures-seq
        (record_and_grant ids catalogue (subscribed iso u tx) PaymentKind.subscription
          (some (str_append "sub-grant:" tx.transaction_id)))
        (λ o. sync_result u tx (status_at tx.expires_at db.now) o.credits o.status)
        (Effect u price after) (SyncPaid u tx db false) after
        (record_and_grant-Effect ids catalogue (subscribed iso u tx) PaymentKind.subscription
          (some (str_append "sub-grant:" tx.transaction_id)) after)
        (λ o db' h. record { moves = h.balances; priced = h.priced; told = refl })

  revoked-SyncPaid :
      (u : ℕ) (tx : VerifiedTransaction) (db : Db)
      → Ensures (revoked ids iso catalogue u tx db) (SyncPaid u tx db true)
  unfolding revoked has_product
  revoked-SyncPaid u tx db =
      let keys = apple_grant_keys tx.transaction_id in
      Ensures-seq (record_refund ids (revocation u tx) keys true)
        (λ o. sync_result u tx SubscriptionStatus.expired 0 o.status)
        (RefundEffect u (amounts (grants_under u keys db.ledger)) db) (SyncPaid u tx db true) db
        (Returns-Ensures (record_refund ids (revocation u tx) keys true db) _
          (record_refund-RefundEffect ids (revocation u tx) keys true db refl))
        (λ o db' h. record {
          moves = (o.credits_revoked, refl, h.balances);
          priced = inl refl;
          told = refl;
        })

  -- When `sync` returns, nobody's balance has changed but the user's; a transaction that is not revoked
  -- adds exactly the reported credits, which are none or the price of its product in the catalogue
  -- for the App Store, a revoked one adds and reports none; and the reported balance is the one that
  -- is stored.
  pub sync-IsPaid :
      (u : ℕ) (tx : VerifiedTransaction) (db : Db)
      → Ensures (sync ids iso catalogue u (ok tx) db) (SyncPaid u tx db tx.revoked)
  unfolding sync
  sync-IsPaid u tx db =
      checked-Ensures ProductKind.subscription (find_product catalogue tx.product_id) _ db
        (SyncPaid u tx db tx.revoked)
        (if-Ensures tx.revoked _ _ db (SyncPaid u tx db) (revoked-SyncPaid u tx db)
          (activate-SyncPaid u tx db))

  abbrev pub PurchasePaid : ℕ → VerifiedTransaction → Db → Bool → PurchaseResult → Db → Type 0
  PurchasePaid u tx db r o db' =
      IsPaid r u
        (price_of PaymentKind.tokens apple_storekit (product_of catalogue (some tx.product_id))) db
        o.credits_added o.new_balance db'

  refund_pack-PurchasePaid :
      (u : ℕ) (tx : VerifiedTransaction) (db : Db)
      → Ensures (refund_pack ids iso catalogue u tx db) (PurchasePaid u tx db true)
  unfolding refund_pack has_product
  refund_pack-PurchasePaid u tx db =
      let keys = apple_grant_keys tx.transaction_id in
      Ensures-seq (record_refund ids (revocation u tx) keys false)
        (λ o. purchase_result u tx 0 o.status)
        (RefundEffect u (amounts (grants_under u keys db.ledger)) db) (PurchasePaid u tx db true) db
        (Returns-Ensures (record_refund ids (revocation u tx) keys false db) _
          (record_refund-RefundEffect ids (revocation u tx) keys false db refl))
        (λ o db' h. record {
          moves = (o.credits_revoked, refl, h.balances);
          priced = inl refl;
          told = refl;
        })

  grant_pack-PurchasePaid :
      (u : ℕ) (tx : VerifiedTransaction) (db : Db)
      → Ensures (grant_pack ids iso catalogue u tx db) (PurchasePaid u tx db false)
  unfolding grant_pack
  grant_pack-PurchasePaid u tx db =
      let key = some (str_append "token-purchase:" tx.transaction_id) in
      let price =
        price_of PaymentKind.tokens apple_storekit (product_of catalogue (some tx.product_id)) in
      Ensures-seq (record_and_grant ids catalogue (bought u tx) PaymentKind.tokens key)
        (λ o. purchase_result u tx o.credits o.status) (Effect u price db)
        (PurchasePaid u tx db false) db
        (record_and_grant-Effect ids catalogue (bought u tx) PaymentKind.tokens key db)
        (λ o db' h. record { moves = h.balances; priced = h.priced; told = refl })

  -- What a purchase of tokens needs: a subscription that the policy counts as active.
  abbrev pub Guards : ℕ → VerifiedTransaction → Db → Bool → PurchaseResult → Db → Type 0
  Guards u tx db true o db' = PurchasePaid u tx db true o db'
  Guards u tx db false o db' =
      PurchasePaid u tx db false o db'
      × (is_active (load_policy_state u db).subscription_status ≡ true)

  guarded-Guards :
      (u : ℕ) (tx : VerifiedTransaction) (db : Db)
      → Ensures (guarded ids iso catalogue u tx db) (Guards u tx db false)
  unfolding guarded
  guarded-Guards u tx db = by_status (is_active (load_policy_state u db).subscription_status) refl
    where
      by_status :
          (b : Bool)
          → is_active (load_policy_state u db).subscription_status ≡ b
          → Ensures
              (if b
                then grant_pack ids iso catalogue u tx db
                else (err AppError.subscription_required, db))
              (λ o db'.
                PurchasePaid u tx db false o db'
                × (is_active (load_policy_state u db).subscription_status ≡ true))
      by_status true e =
          Ensures-mono (grant_pack ids iso catalogue u tx db) (PurchasePaid u tx db false)
            (λ o db'.
              PurchasePaid u tx db false o db'
              × (is_active (load_policy_state u db).subscription_status ≡ true))
            (λ o db' h. (h, e)) (grant_pack-PurchasePaid u tx db)
      by_status false e = tt

  -- When `purchase` returns, nobody's balance has changed but the user's; for a transaction that is not
  -- revoked the user's subscription was active as the policy reads it, and the balance gains exactly
  -- the reported credits, which are none or the price of the product; a revoked one adds and reports
  -- none; and the reported balance is the one that is stored.
  pub purchase-Guards :
      (u : ℕ) (tx : VerifiedTransaction) (db : Db)
      → Ensures (purchase ids iso catalogue u (ok tx) db) (Guards u tx db tx.revoked)
  unfolding purchase
  purchase-Guards u tx db =
      checked-Ensures ProductKind.tokens (find_product catalogue tx.product_id) _ db
        (Guards u tx db tx.revoked)
        (if-Ensures tx.revoked _ _ db (Guards u tx db) (refund_pack-PurchasePaid u tx db)
          (guarded-Guards u tx db))
