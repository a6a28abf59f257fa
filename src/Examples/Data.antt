-- ===== src/Examples/Data.antt =====
-- A small catalogue, events and databases for the examples.
use ai_text.Prelude.{String, false, none, some, List, [], ◌∷◌}
use ai_text.Database.{
  Uuids, Db, LedgerTransaction, credit, debit, PaymentChannel, adapty, apple_storekit, Generation,
  GenerationStatus, BillingKind, SubscriptionStatus,
}
use ai_text.Products.{Catalogue, ProductKind}
use ai_text.Payments.{Event}
use ai_text.Wallet.Calls.{Call}

abbrev pub ids : Uuids
ids = record { gen = λ n. n; text = λ n. "id" }

abbrev pub empty : Db
empty = record {
  users = (7, false) ∷ [];
  wallets = [];
  subscriptions = [];
  ledger = [];
  payments = [];
  generations = [];
  audit = [];
  drawn = 0;
  now = 100;
}

abbrev pub shop : Catalogue
shop =
    (
      "pack",
      record {
        product_id = "pack";
        kind = ProductKind.tokens;
        credits = 10;
        channels = adapty ∷ apple_storekit ∷ [];
        title = "Pack";
        period = none;
      },
    )
    ∷ []

abbrev pub event : PaymentChannel → String → Event
event channel external_id = record {
  channel = channel;
  external_id = external_id;
  user_id = 7;
  product_id = some "pack";
  event_type = none;
  payload = [];
  resolved_via = none;
}

-- A debit that is covered, one that is not, and a credit between two users.
abbrev pub calls : List Call
calls =
    Call.grant 7 5 "admin-grant:1" "admin_grant" []
    ∷ Call.consume 7 3 "generation:a" "generation" [] none
    ∷ Call.consume 7 9 "generation:b" "generation" [] none
    ∷ Call.grant 8 2 "admin-grant:1" "admin_grant" []
    ∷ []

abbrev pub grant_row : LedgerTransaction
grant_row = record {
  id = 0;
  user_id = 7;
  type = credit;
  amount = 10;
  reason = "adapty_tokens";
  meta = [];
  idempotency_key = "token-purchase:T1";
}

abbrev pub reversal_row : LedgerTransaction
reversal_row = record {
  id = 1;
  user_id = 7;
  type = debit;
  amount = 10;
  reason = "adapty_refund";
  meta = [];
  idempotency_key = "refund:token-purchase:T1";
}

-- The pack was bought.
abbrev pub bought : Db
bought = record empty { wallets = (7, 10) ∷ []; ledger = grant_row ∷ []; drawn = 1 }

-- The pack was bought and has been spent.
abbrev pub spent : Db
spent = record empty { wallets = (7, 0) ∷ []; ledger = grant_row ∷ []; drawn = 1 }

-- The pack was bought and refunded, and five credits have been added since.
abbrev pub refunded : Db
refunded = record empty { wallets = (7, 5) ∷ []; ledger = grant_row ∷ reversal_row ∷ []; drawn = 2 }

abbrev pub generation : GenerationStatus → Generation
generation status = record {
  id = 3;
  user_id = 7;
  kind = "answer";
  provider = "sources";
  model = none;
  status = status;
  input_tokens = 0;
  output_tokens = 0;
  units = 1;
  unit_kind = "call";
  credits_charged = 0;
  billing_kind = BillingKind.none;
  ledger_tx_id = none;
  attempt = 1;
  idempotency_key = "answer:1:1";
  provider_ref = none;
  error_code = none;
  meta = [];
  completed_at = none;
}

-- A subscriber with five credits and one generation.
abbrev pub subscriber : GenerationStatus → Db
subscriber status = record empty {
  wallets = (7, 5) ∷ [];
  subscriptions =
      (7, record { status = SubscriptionStatus.active; plan = none; expires_at = some 200 }) ∷ [];
  generations = generation status ∷ [];
  drawn = 4;
}
