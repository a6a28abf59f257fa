-- ===== src/Database.antt =====
-- The tables of src/app/models/tables.py that the money path writes, as lists of rows in the order
-- of insertion, and the values that PostgreSQL supplies: identifiers and the clock.
use ai_text.Prelude.{ℕ, String, Bool, Option, List}

-- `gen_random_uuid()` as a sequence of identifiers, and `str(uuid)`. A UUID is a 128-bit number.
pub record Uuids : Type 0 where
  pub gen : ℕ → ℕ
  pub text : ℕ → String

-- The values that the code puts into a JSON object; an object inside it stands by its encoding.
pub data Json : Type 0 where
  null : Json
  flag : Bool → Json
  int : ℕ → Json
  text object : String → Json

abbrev pub Payload : Type 0
Payload = List (String × Json)

pub data TxType : Type 0 where
  debit credit : TxType

pub record LedgerTransaction : Type 0 where
  pub id : ℕ
  pub user_id : ℕ
  pub type : TxType
  pub amount : ℕ
  pub reason : String
  pub meta : Payload
  pub idempotency_key : String

pub data PaymentChannel : Type 0 where
  apple_storekit adapty cloudpayments : PaymentChannel

pub data PaymentKind : Type 0 where
  subscription tokens subscription_event refund : PaymentKind

pub data PaymentStatus : Type 0 where
  received granted replayed no_grant rejected refunded : PaymentStatus

pub record Payment : Type 0 where
  pub id : ℕ
  pub user_id : ℕ
  pub channel : PaymentChannel
  pub external_id : String
  pub event_type : Option String
  pub product_id : Option String
  pub kind : PaymentKind
  pub status : PaymentStatus
  pub credits_granted : ℕ
  pub grant_idempotency_key : Option String
  pub ledger_tx_id : Option ℕ
  pub payload : Payload

pub data SubscriptionStatus : Type 0 where
  active expired none : SubscriptionStatus

pub record Subscription : Type 0 where
  pub status : SubscriptionStatus
  pub plan : Option String
  pub expires_at : Option ℕ

pub data GenerationStatus : Type 0 where
  pending running succeeded failed canceled : GenerationStatus

pub data BillingKind : Type 0 where
  none credits trial unbilled : BillingKind

pub record Generation : Type 0 where
  pub id : ℕ
  pub user_id : ℕ
  pub kind : String
  pub provider : String
  pub model : Option String
  pub status : GenerationStatus
  pub input_tokens : ℕ
  pub output_tokens : ℕ
  pub units : ℕ
  pub unit_kind : String
  pub credits_charged : ℕ
  pub billing_kind : BillingKind
  pub ledger_tx_id : Option ℕ
  pub attempt : ℕ
  pub idempotency_key : String
  pub provider_ref : Option String
  pub error_code : Option String
  pub meta : Payload
  pub completed_at : Option ℕ

pub record AuditLog : Type 0 where
  pub user_id : ℕ
  pub generation_id : Option ℕ
  pub event_type : String
  pub payload : Payload

-- `users` holds `trial_used`, `wallets` the balance, each under the user's id. `drawn` counts the
-- identifiers drawn so far, and `now` is the clock in seconds.
pub record Db : Type 0 where
  pub users : List (ℕ × Bool)
  pub wallets : List (ℕ × ℕ)
  pub subscriptions : List (ℕ × Subscription)
  pub ledger : List LedgerTransaction
  pub payments : List Payment
  pub generations : List Generation
  pub audit : List AuditLog
  pub drawn : ℕ
  pub now : ℕ
