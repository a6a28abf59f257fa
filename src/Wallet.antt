-- ===== src/Wallet.antt =====
-- src/app/wallet/service.py, the only writer of `wallets` and `ledger_transactions`, and the audit
-- journal that it writes to (src/app/audit/service.py). Amounts are numbers from 0: a negative
-- amount of the source takes the branch of 0.
pub mod Calls
pub mod Ledger
pub mod Outcome
pub mod Reconcile
pub mod Replay
pub mod Journal
pub mod Contract
use ai_text.Prelude.{
  ℕ, suc, ◌+◌, ◌-◌, String, Bool, true, false, ◌&&◌, Option, none, some, List, [], ◌∷◌, ◌++◌, leb,
  ◌==◌, str_eq, if◌then◌else◌, lookup, insert,
}
use ai_text.Database.{Uuids, Json, Payload, TxType, debit, credit, LedgerTransaction, Db}
use ai_text.Action.{
  validation_failed, insufficient_credits, conflict, ok, Action, pure, raise, gets, ◌>>=◌, ◌>>◌,
  raise_if, modify,
}

pub record ConsumeResult : Type 0 where
  pub replay : Bool
  pub tx_id : ℕ
  pub balance : ℕ

pub record GrantResult : Type 0 where
  pub replay : Bool
  pub tx_id : ℕ
  pub balance : ℕ

-- `AuditService.log`; the request id and the redaction pass are not modelled.
unfoldable pub audit_log : String → ℕ → Option ℕ → Payload → Action (Unit {0})
audit_log event_type user_id generation_id payload = modify λ db. record db {
  audit =
      db.audit
      ++ record {
        user_id = user_id;
        generation_id = generation_id;
        event_type = event_type;
        payload = payload;
      }
        ∷ [];
}

-- `INSERT INTO wallets … ON CONFLICT (user_id) DO NOTHING`
unfoldable pub ensure_wallet : ℕ → Action (Unit {0})
ensure_wallet user_id = modify λ db. elim (lookup user_id db.wallets) [
  | none ↦ record db { wallets = insert user_id 0 db.wallets }
  | some _ ↦ db
]

-- The row that `UNIQUE (user_id, idempotency_key)` points at.
unfoldable pub find_tx : ℕ → String → List LedgerTransaction → Option LedgerTransaction
find_tx user_id key [] = none
find_tx user_id key (t ∷ l) =
    if t.user_id == user_id && str_eq t.idempotency_key key then some t else find_tx user_id key l

unfoldable pub existing_tx : ℕ → String → Action (Option LedgerTransaction)
existing_tx user_id key = gets λ db. find_tx user_id key db.ledger

abbrev pub or_zero : Option ℕ → ℕ
or_zero none = 0
or_zero (some n) = n

unfoldable pub balance : ℕ → Db → ℕ
balance user_id db = or_zero (lookup user_id db.wallets)

abbrev pub same_type : TxType → TxType → Bool
same_type debit debit = true
same_type credit credit = true
same_type _ _ = false

unfoldable pub replay_or_conflict_row : TxType → ℕ → ℕ → Option LedgerTransaction → Action (ℕ × ℕ)
unfolding balance
replay_or_conflict_row expected_type amount user_id none = raise conflict
replay_or_conflict_row expected_type amount user_id (some t) =
    if same_type t.type expected_type && t.amount == amount
    then gets (λ db. (t.id, balance user_id db))
    else raise conflict

unfoldable pub replay_or_conflict : ℕ → String → TxType → ℕ → Action (ℕ × ℕ)
unfolding existing_tx replay_or_conflict_row
replay_or_conflict user_id key expected_type amount = do
  existing ← existing_tx user_id key
  replay_or_conflict_row expected_type amount user_id existing

-- `UPDATE wallets SET balance = balance - :amount WHERE … AND balance >= :amount RETURNING balance`
unfoldable pub debit_wallet : ℕ → ℕ → Action (Option ℕ)
debit_wallet user_id amount db = elim (lookup user_id db.wallets) [
  | none ↦ (ok none, db)
  | some b ↦
      if leb amount b
      then (ok (some (b - amount)), record db { wallets = insert user_id (b - amount) db.wallets })
      else (ok none, db)
]

-- `UPDATE wallets SET balance = balance + :amount WHERE user_id = :uid RETURNING balance`
unfoldable pub credit_wallet : ℕ → ℕ → Action (Option ℕ)
credit_wallet user_id amount db = elim (lookup user_id db.wallets) [
  | none ↦ (ok none, db)
  | some b ↦
      (ok (some (b + amount)), record db { wallets = insert user_id (b + amount) db.wallets })
]

module _ (ids : Uuids) where
  -- The `INSERT … ON CONFLICT (user_id, idempotency_key) DO NOTHING RETURNING id` of both methods.
  unfoldable pub insert_tx : ℕ → TxType → ℕ → String → Payload → String → Action (Option ℕ)
  insert_tx user_id type amount reason meta key db = elim (find_tx user_id key db.ledger) [
    | some _ ↦ (ok none, db)
    | none ↦ (
      ok (some (ids.gen db.drawn)),
      record db {
        ledger =
            db.ledger
            ++ record {
              id = ids.gen db.drawn;
              user_id = user_id;
              type = type;
              amount = amount;
              reason = reason;
              meta = meta;
              idempotency_key = key;
            }
              ∷ [];
        drawn = suc db.drawn;
      },
    )
  ]

  abbrev pub movement_payload : ℕ → String → ℕ → ℕ → Payload
  movement_payload amount reason tx_id new_balance =
      ("amount", Json.int amount)
      ∷ ("reason", Json.text reason)
      ∷ ("ledgerTxId", Json.text (ids.text tx_id))
      ∷ ("newBalance", Json.int new_balance)
      ∷ []

  unfoldable pub consume_updated : ℕ → ℕ → String → Option ℕ → ℕ → Option ℕ → Action ConsumeResult
  unfolding audit_log
  consume_updated user_id amount reason generation_id tx_id none = raise insufficient_credits
  consume_updated user_id amount reason generation_id tx_id (some new_balance) = do
    audit_log "billing_debit" user_id generation_id
        (movement_payload amount reason tx_id new_balance)
    pure (record { replay = false; tx_id = tx_id; balance = new_balance })

  unfoldable pub consume_inserted :
      ℕ → ℕ → String → String → Option ℕ → Option ℕ → Action ConsumeResult
  unfolding replay_or_conflict debit_wallet consume_updated
  consume_inserted user_id amount key reason generation_id none = do
    (tx_id, b) ← replay_or_conflict user_id key debit amount
    pure (record { replay = true; tx_id = tx_id; balance = b })
  consume_inserted user_id amount key reason generation_id (some tx_id) = do
    updated ← debit_wallet user_id amount
    consume_updated user_id amount reason generation_id tx_id updated

  unfoldable pub consume : ℕ → ℕ → String → String → Payload → Option ℕ → Action ConsumeResult
  unfolding ensure_wallet insert_tx find_tx consume_inserted
  consume user_id amount key reason meta generation_id = do
    raise_if (leb amount 0) validation_failed
    ensure_wallet user_id
    inserted_id ← insert_tx user_id debit amount reason meta key
    consume_inserted user_id amount key reason generation_id inserted_id

  unfoldable pub grant_updated : ℕ → ℕ → String → ℕ → Option ℕ → Action GrantResult
  unfolding audit_log
  grant_updated user_id amount reason tx_id none = raise conflict
  grant_updated user_id amount reason tx_id (some new_balance) = do
    audit_log "billing_credit" user_id none (movement_payload amount reason tx_id new_balance)
    pure (record { replay = false; tx_id = tx_id; balance = new_balance })

  unfoldable pub grant_inserted : ℕ → ℕ → String → String → Option ℕ → Action GrantResult
  unfolding replay_or_conflict credit_wallet grant_updated
  grant_inserted user_id amount key reason none = do
    (tx_id, b) ← replay_or_conflict user_id key credit amount
    pure (record { replay = true; tx_id = tx_id; balance = b })
  grant_inserted user_id amount key reason (some tx_id) = do
    updated ← credit_wallet user_id amount
    grant_updated user_id amount reason tx_id updated

  unfoldable pub grant : ℕ → ℕ → String → String → Payload → Action GrantResult
  unfolding ensure_wallet insert_tx find_tx grant_inserted
  grant user_id amount key reason meta = do
    raise_if (leb amount 0) validation_failed
    ensure_wallet user_id
    inserted_id ← insert_tx user_id credit amount reason meta key
    grant_inserted user_id amount key reason inserted_id
