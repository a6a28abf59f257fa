-- ===== src/Examples/Purchases.antt =====
-- The theorems about src/app/billing/payments.py at concrete inputs.
use ai_text.Prelude.{min, List, arith, ◌≡◌, refl, false, none, some, [], ◌∷◌, All}
use ai_text.Database.{Db, PaymentKind, adapty, apple_storekit, PaymentStatus}
use ai_text.Action.{ok, transaction}
use ai_text.Action.Ensures.{Returns}
use ai_text.Products.{product_of, find_product, sells_in}
use ai_text.Wallet.{balance, find_tx, grant, consume}
use ai_text.Wallet.Calls.{run_calls, run_call}
use ai_text.Payments.{
  PaymentOutcome, RefundOutcome, record_and_grant, record_inserted, insert_payment, has_product,
  find_payment, rejection, check_product, grant_credits, call_grant, record_grant, finalize,
  update_payment, sanitize_payload, duplicate,
}
use ai_text.Payments.Grant.{price_of, Change, record_and_grant-Change}
use ai_text.Payments.Delivery.{Report, report_all, second_delivery}
use ai_text.Payments.Processed.{record_and_grant-IsProcessed}
use ai_text.Payments.Purchase.{second_event}
use ai_text.Payments.Rows.{IsProcessed}
use ai_text.Payments.Refund.{
  record_refund, grants_under, reversal_key, refund_inserted, reverse_all, reverse, reverse_new,
  take_back, call_consume, close_refund, merged, joined_keys, has_key, expire_subscription,
}
use ai_text.Payments.Refund.Taken.{amounts}
use ai_text.Payments.Refund.Outcome.{RefundEffect, record_refund-RefundEffect}
use ai_text.Payments.Refund.Repeat.{reversed_once}
use ai_text.Payments.Refund.Late.{refund_at_zero_leaves_no_reversal}
use ai_text.Examples.Data.{bought, grant_row, ids, empty, shop, event, calls, spent}

abbrev first_outcome : PaymentOutcome
first_outcome = record {
  status = PaymentStatus.granted;
  credits = 10;
  layer = none;
  ledger_tx_id = some 1;
  payment_id = some 0;
  reason = none;
}

after_first : Db
after_first =
    (record_and_grant ids shop (event adapty "E1") PaymentKind.tokens (some "token-purchase:T1")
      empty).1

first_event :
    record_and_grant ids shop
      (event adapty "E1")
      PaymentKind.tokens
      (some "token-purchase:T1")
      empty
    ≡ (ok first_outcome, after_first)
unfolding after_first record_and_grant record_inserted insert_payment has_product find_payment
    product_of find_product rejection sells_in check_product grant_credits call_grant record_grant
    finalize update_payment sanitize_payload grant
first_event = refl

record_and_grant-Change_example :
    Change 7 (price_of PaymentKind.tokens adapty (product_of shop (some "pack"))) empty (
      transaction
        (record_and_grant ids shop
          (event adapty "E1")
          PaymentKind.tokens
          (some "token-purchase:T1"))
        empty)
record_and_grant-Change_example =
    record_and_grant-Change ids shop (event adapty "E1") PaymentKind.tokens
      (some "token-purchase:T1") empty

record_and_grant-IsProcessed_example :
    All IsProcessed
      (transaction
        (record_and_grant ids shop
          (event adapty "E1")
          PaymentKind.tokens
          (some "token-purchase:T1"))
        empty).1.payments
record_and_grant-IsProcessed_example =
    record_and_grant-IsProcessed ids shop (event adapty "E1") PaymentKind.tokens
      (some "token-purchase:T1") empty tt

-- Another channel's report of the purchase, and one of another purchase.
abbrev reports : List Report
reports =
    record {
      catalogue = shop;
      event = event apple_storekit "T1";
      kind = PaymentKind.tokens;
      key = some "token-purchase:T1";
    }
    ∷ record {
      catalogue = shop;
      event = event adapty "E2";
      kind = PaymentKind.tokens;
      key = some "token-purchase:T2";
    }
    ∷ []

second_delivery_example :
    record_and_grant ids shop
      (event adapty "E1")
      PaymentKind.tokens
      none
      (report_all ids reports after_first)
    ≡ (ok duplicate, report_all ids reports after_first)
unfolding has_product
second_delivery_example =
    second_delivery ids shop (event adapty "E1") (event adapty "E1") PaymentKind.tokens
      PaymentKind.tokens (some "token-purchase:T1") none reports empty after_first first_outcome
      first_event refl refl refl

second_event_example :
    balance 7
      (transaction
        (record_and_grant ids shop
          (event apple_storekit "T1")
          PaymentKind.tokens
          (some "token-purchase:T1"))
        (run_calls ids calls after_first)).1
    ≡ balance 7 (run_calls ids calls after_first)
second_event_example =
    second_event ids shop (event adapty "E1") (event apple_storekit "T1") PaymentKind.tokens
      PaymentKind.tokens "token-purchase:T1" calls empty after_first first_outcome 7 first_event
      refl refl

record_refund-RefundEffect_example :
    Returns
      (record_refund ids (event adapty "R1") ("token-purchase:T1" ∷ []) false spent)
      (RefundEffect 7 (amounts (grants_under 7 ("token-purchase:T1" ∷ []) spent.ledger)) spent)
unfolding has_product
record_refund-RefundEffect_example =
    record_refund-RefundEffect ids (event adapty "R1") ("token-purchase:T1" ∷ []) false spent refl

abbrev first_refund_outcome : RefundOutcome
first_refund_outcome = record {
  status = PaymentStatus.refunded;
  credits_revoked = 10;
  credits_not_recovered = 0;
  grants_found = 1;
  subscription_revoked = false;
  payment_id = some 1;
}

after_refund : Db
after_refund = (record_refund ids (event adapty "R1") ("token-purchase:T1" ∷ []) false bought).1

first_refund :
    record_refund ids (event adapty "R1") ("token-purchase:T1" ∷ []) false bought
    ≡ (ok first_refund_outcome, after_refund)
unfolding record_refund insert_payment has_product find_payment sanitize_payload refund_inserted
    grants_under reverse_all reverse reverse_new take_back call_consume reversal_key close_refund
    update_payment consume balance merged joined_keys has_key expire_subscription after_refund
first_refund = refl

bought_grants : grants_under 7 ("token-purchase:T1" ∷ []) bought.ledger ≡ grant_row ∷ []
unfolding grants_under
bought_grants = refl

reversed_once_example :
    Returns
      (record_refund ids
        (event apple_storekit "R2")
        ("token-purchase:T1" ∷ [])
        false
        (run_calls ids calls after_refund))
      (λ o db'.
        (o.credits_revoked ≡ 0)
        × (db'.ledger ≡ (run_calls ids calls after_refund).ledger)
        × (db'.wallets ≡ (run_calls ids calls after_refund).wallets))
unfolding record_refund insert_payment has_product find_payment sanitize_payload refund_inserted
    grants_under reverse_all reverse reverse_new take_back call_consume reversal_key close_refund
    update_payment consume grant balance merged joined_keys has_key expire_subscription after_refund
    run_calls run_call amounts
reversed_once_example =
    reversed_once ids (event adapty "R1") (event apple_storekit "R2") ("token-purchase:T1" ∷ [])
      false false calls bought after_refund first_refund_outcome (omega arith, tt) (omega arith)
      first_refund refl refl refl refl

-- The credits of the pack are spent when the first channel reports the refund; the second channel
-- reports it after two credits have been added.
abbrev at_zero_outcome : RefundOutcome
at_zero_outcome = record {
  status = PaymentStatus.refunded;
  credits_revoked = 0;
  credits_not_recovered = 10;
  grants_found = 1;
  subscription_revoked = false;
  payment_id = some 1;
}

late_first : Db
late_first = (record_refund ids (event adapty "R1") ("token-purchase:T1" ∷ []) false spent).1

late_again : RefundOutcome × Db
late_again = (
  record {
    status = PaymentStatus.refunded;
    credits_revoked = 2;
    credits_not_recovered = 8;
    grants_found = 1;
    subscription_revoked = false;
    payment_id = some 5;
  },
  (record_refund ids (event apple_storekit "R2") ("token-purchase:T1" ∷ []) false
      (run_calls ids calls late_first)).1,
)

refund_at_zero_leaves_no_reversal_example :
    (at_zero_outcome.credits_revoked ≡ 0)
    × (late_first.ledger ≡ spent.ledger)
    × (late_first.wallets ≡ spent.wallets)
    × (late_again.0.credits_revoked ≡ min 10 (balance 7 (run_calls ids calls late_first)))
unfolding record_refund insert_payment has_product find_payment sanitize_payload refund_inserted
    grants_under reverse_all reverse reverse_new take_back call_consume reversal_key close_refund
    update_payment consume grant balance merged joined_keys has_key expire_subscription late_first
    late_again run_calls run_call find_tx
refund_at_zero_leaves_no_reversal_example =
    refund_at_zero_leaves_no_reversal ids (event adapty "R1") (event apple_storekit "R2")
      ("token-purchase:T1" ∷ []) false false calls grant_row spent late_first late_again.1
      at_zero_outcome late_again.0 refl refl refl refl refl refl refl refl
