-- ===== src/Wallet/Journal.antt =====
-- The constraints of `ledger_transactions` (src/app/models/tables.py) under every sequence of calls
-- of src/app/wallet/service.py.
use ai_text.Prelude.{ℕ, ◌<◌, String, Option, List, [], ◌∷◌, arith, All}
use ai_text.Database.{Uuids, Payload, LedgerTransaction, Db}
use ai_text.Action.{transaction}
use ai_text.Wallet.{consume, grant}
use ai_text.Wallet.Calls.{Call, run_call, run_calls}
use ai_text.Wallet.Ledger.{All-append_one, HasUniqueKeys, HasUniqueKeys-append}

-- `ck_ledger_amount_positive`
abbrev pub IsPositive : LedgerTransaction → Type 0
IsPositive t = 0 < t.amount

-- `ux_ledger_idempotency` and `ck_ledger_amount_positive`
pub record IsJournal (l : List LedgerTransaction) : Type 0 where
  pub unique : HasUniqueKeys l
  pub positive : All IsPositive l

module _ (ids : Uuids) where
  pub consume-IsJournal :
      (u amount : ℕ) (key reason : String) (meta : Payload) (gid : Option ℕ) (db : Db)
      → IsJournal db.ledger
      → IsJournal (transaction (consume ids u amount key reason meta gid) db).1.ledger
  unfolding consume
  consume-IsJournal u amount key reason meta gid db h = record {
    unique = grind (arith, HasUniqueKeys-append, h.unique);
    positive = grind (arith, All-append_one IsPositive, h.positive);
  }

  pub grant-IsJournal :
      (u amount : ℕ) (key reason : String) (meta : Payload) (db : Db)
      → IsJournal db.ledger
      → IsJournal (transaction (grant ids u amount key reason meta) db).1.ledger
  unfolding grant
  grant-IsJournal u amount key reason meta db h = record {
    unique = grind (arith, HasUniqueKeys-append, h.unique);
    positive = grind (arith, All-append_one IsPositive, h.positive);
  }

  call-IsJournal : (c : Call) (db : Db) → IsJournal db.ledger → IsJournal (run_call ids c db).ledger
  unfolding run_call
  call-IsJournal (Call.consume u amount key reason meta gid) db h =
      consume-IsJournal u amount key reason meta gid db h
  call-IsJournal (Call.grant u amount key reason meta) db h =
      grant-IsJournal u amount key reason meta db h

  -- From a ledger with one row for each key of a user and with positive amounts, every sequence of
  -- debits and credits leads to such a ledger.
  pub run_calls-IsJournal :
      (cs : List Call) (db : Db) → IsJournal db.ledger → IsJournal (run_calls ids cs db).ledger
  unfolding run_calls
  run_calls-IsJournal [] db h = h
  run_calls-IsJournal (c ∷ cs) db h =
      run_calls-IsJournal cs (run_call ids c db) (call-IsJournal c db h)
