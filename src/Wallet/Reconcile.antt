-- ===== src/Wallet/Reconcile.antt =====
-- Balance and ledger of src/app/wallet/service.py agree, whatever sequence of calls is made.
use ai_text.Prelude.{ℕ, ◌+◌, String, ◌≡◌, Option, List, [], ◌∷◌, arith, lookup-insert}
use ai_text.Database.{Uuids, Payload, debit, credit, Db}
use ai_text.Action.{transaction}
use ai_text.Wallet.{balance, consume, grant}
use ai_text.Wallet.Calls.{Call, run_call, run_calls}
use ai_text.Wallet.Ledger.{total, total-append}

-- For every user the balance and the debits add up to the credits.
pub record Reconciles (db : Db) : Type 0 where
  pub at : (u : ℕ) → balance u db + total debit u db.ledger ≡ total credit u db.ledger

module _ (ids : Uuids) where
  pub consume-Reconciles :
      (u amount : ℕ) (key reason : String) (meta : Payload) (gid : Option ℕ) (db : Db)
      → Reconciles db
      → Reconciles (transaction (consume ids u amount key reason meta gid) db).1
  unfolding consume balance
  consume-Reconciles u amount key reason meta gid db h = record {
    at = λ v. grind (arith, h.at v, lookup-insert, total-append);
  }

  pub grant-Reconciles :
      (u amount : ℕ) (key reason : String) (meta : Payload) (db : Db)
      → Reconciles db
      → Reconciles (transaction (grant ids u amount key reason meta) db).1
  unfolding grant balance
  grant-Reconciles u amount key reason meta db h = record {
    at = λ v. grind (arith, h.at v, lookup-insert, total-append);
  }

  call-Reconciles : (c : Call) (db : Db) → Reconciles db → Reconciles (run_call ids c db)
  unfolding run_call
  call-Reconciles (Call.consume u amount key reason meta gid) db h =
      consume-Reconciles u amount key reason meta gid db h
  call-Reconciles (Call.grant u amount key reason meta) db h =
      grant-Reconciles u amount key reason meta db h

  -- From a state that reconciles, after any sequence of debits and credits, those that raise and
  -- are rolled back included, every user's balance and debits add up to his credits.
  pub run_calls-Reconciles :
      (cs : List Call) (db : Db) → Reconciles db → Reconciles (run_calls ids cs db)
  unfolding run_calls
  run_calls-Reconciles [] db h = h
  run_calls-Reconciles (c ∷ cs) db h =
      run_calls-Reconciles cs (run_call ids c db) (call-Reconciles c db h)
