-- ===== src/Examples/Store.antt =====
-- The theorems about src/app/subscription/service.py and src/app/token_purchase/service.py at concrete
-- inputs.
use ai_text.Prelude.{ℕ, ◌≡◌, refl, String, false, some, [], ◌∷◌}
use ai_text.Database.{Db, SubscriptionStatus, apple_storekit}
use ai_text.Action.{ok, err, subscription_required}
use ai_text.Action.Ensures.{Ensures}
use ai_text.Products.{Catalogue, ProductKind, find_product, product_of}
use ai_text.Wallet.{balance, grant}
use ai_text.Payments.{
  insert_payment, has_product, find_payment, record_inserted, check_product, rejection,
  grant_credits, call_grant, record_grant,
}
use ai_text.StoreKit.{VerifiedTransaction, sync, purchase, get_subscription}
use ai_text.StoreKit.Paid.{SyncPaid, sync-IsPaid, Guards, purchase-Guards}
use ai_text.Examples.Data.{ids, empty, shop}

abbrev iso : ℕ → String
iso t = "2026-01-01T00:00:00+00:00"

abbrev offers : Catalogue
offers =
    (
      "month",
      record {
        product_id = "month";
        kind = ProductKind.subscription;
        credits = 30;
        channels = apple_storekit ∷ [];
        title = "Month";
        period = some "P1M";
      },
    )
    ∷ shop

abbrev bought_until : String → String → ℕ → VerifiedTransaction
bought_until product_id transaction_id expires_at = record {
  transaction_id = transaction_id;
  original_transaction_id = "1";
  product_id = product_id;
  expires_at = some expires_at;
  revoked = false;
  environment = "Production";
}

sync-IsPaid_example :
    Ensures
      (sync ids iso offers 7 (ok (bought_until "month" "2" 500)) empty)
      (SyncPaid ids iso offers 7 (bought_until "month" "2" 500) empty false)
sync-IsPaid_example = sync-IsPaid ids iso offers 7 (bought_until "month" "2" 500) empty

abbrev subscribed : Db
subscribed = (sync ids iso offers 7 (ok (bought_until "month" "2" 500)) empty).1

synced : balance 7 subscribed ≡ 30
unfolding sync balance find_product insert_payment has_product find_payment record_inserted
    check_product rejection product_of grant_credits call_grant grant record_grant
synced = refl

purchase-Guards_example :
    Ensures
      (purchase ids iso offers 7 (ok (bought_until "pack" "3" 0)) subscribed)
      (Guards ids iso offers 7 (bought_until "pack" "3" 0) subscribed false)
purchase-Guards_example = purchase-Guards ids iso offers 7 (bought_until "pack" "3" 0) subscribed

no_subscription :
    (purchase ids iso offers 7 (ok (bought_until "pack" "3" 0)) empty).0 ≡ err subscription_required
unfolding purchase find_product
no_subscription = refl

-- A transaction of an earlier period, sent again after the renewal, ends the subscription.
earlier_period :
    ((get_subscription 7 subscribed).status ≡ SubscriptionStatus.active)
    × ((get_subscription 7
          (sync ids iso offers 7 (ok (bought_until "month" "1" 50)) subscribed).1).status
        ≡ SubscriptionStatus.expired)
unfolding sync get_subscription find_product insert_payment has_product find_payment record_inserted
    check_product rejection product_of grant_credits call_grant grant record_grant
earlier_period = (refl, refl)
