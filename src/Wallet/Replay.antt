-- ===== src/Wallet/Replay.antt =====
-- Idempotency of src/app/wallet/service.py: a key that has moved money moves no more.
use ai_text.Prelude.{
  ℕ, ◌<◌, String, ◌≡◌, true, Option, none, some, List, [], ◌∷◌, arith, eq_refl, lookup,
  lookup-insert,
}
use ai_text.Database.{Uuids, Payload, TxType, debit, credit, LedgerTransaction, Db}
use ai_text.Action.{ok, transaction}
use ai_text.Wallet.{ConsumeResult, GrantResult, balance, find_tx, consume, grant}
use ai_text.Wallet.Calls.{Call, run_call, run_calls}
use ai_text.Wallet.Ledger.{find_tx-append}

-- The ledger holds a row of this kind under the key that was looked up.
abbrev pub IsRecorded : TxType → ℕ → ℕ → Option LedgerTransaction → Type 0
IsRecorded type amount id none = ⊥
IsRecorded type amount id (some t) = (t.type ≡ type) × (t.amount ≡ amount) × (t.id ≡ id)

-- The ledger has a row under the key that was looked up.
abbrev pub HasTx : Option LedgerTransaction → Type 0
HasTx none = ⊥
HasTx (some t) = Unit

abbrev HasRow : Option ℕ → Type 0
HasRow none = ⊥
HasRow (some n) = Unit

abbrev HasWallet : ℕ → Db → Type 0
HasWallet u db = HasRow (lookup u db.wallets)

module _ (ids : Uuids) where
  consume-IsRecorded :
      (u amount : ℕ) (key reason : String) (meta : Payload) (gid : Option ℕ) (db : Db)
      (r : ConsumeResult)
      → (consume ids u amount key reason meta gid db).0 ≡ ok r
      → IsRecorded debit amount r.tx_id
          (find_tx u key (transaction (consume ids u amount key reason meta gid) db).1.ledger)
  unfolding consume balance
  consume-IsRecorded u amount key reason meta gid db r h =
      grind (arith, find_tx-append, eq_refl, lookup-insert)

  grant-IsRecorded :
      (u amount : ℕ) (key reason : String) (meta : Payload) (db : Db) (r : GrantResult)
      → (grant ids u amount key reason meta db).0 ≡ ok r
      → IsRecorded credit amount r.tx_id
          (find_tx u key (transaction (grant ids u amount key reason meta) db).1.ledger)
  unfolding grant balance
  grant-IsRecorded u amount key reason meta db r h =
      grind (arith, find_tx-append, eq_refl, lookup-insert)

  call-IsRecorded :
      (c : Call) (u : ℕ) (key : String) (type : TxType) (amount id : ℕ) (db : Db)
      → IsRecorded type amount id (find_tx u key db.ledger)
      → IsRecorded type amount id (find_tx u key (run_call ids c db).ledger)
  unfolding run_call consume grant
  call-IsRecorded (Call.consume v a k reason meta gid) u key type amount id db h =
      grind (arith, find_tx-append)
  call-IsRecorded (Call.grant v a k reason meta) u key type amount id db h =
      grind (arith, find_tx-append)

  -- A row is never changed or removed.
  pub calls-IsRecorded :
      (cs : List Call) (u : ℕ) (key : String) (type : TxType) (amount id : ℕ) (db : Db)
      → IsRecorded type amount id (find_tx u key db.ledger)
      → IsRecorded type amount id (find_tx u key (run_calls ids cs db).ledger)
  unfolding run_calls
  calls-IsRecorded [] u key type amount id db h = h
  calls-IsRecorded (c ∷ cs) u key type amount id db h =
      calls-IsRecorded cs u key type amount id (run_call ids c db)
        (call-IsRecorded c u key type amount id db h)

  call-keeps_tx :
      (c : Call) (u : ℕ) (key : String) (db : Db)
      → HasTx (find_tx u key db.ledger)
      → HasTx (find_tx u key (run_call ids c db).ledger)
  unfolding run_call consume grant
  call-keeps_tx (Call.consume v a k reason meta gid) u key db h = grind (arith, find_tx-append)
  call-keeps_tx (Call.grant v a k reason meta) u key db h = grind (arith, find_tx-append)

  pub calls-keep_tx :
      (cs : List Call) (u : ℕ) (key : String) (db : Db)
      → HasTx (find_tx u key db.ledger)
      → HasTx (find_tx u key (run_calls ids cs db).ledger)
  unfolding run_calls
  calls-keep_tx [] u key db h = h
  calls-keep_tx (c ∷ cs) u key db h =
      calls-keep_tx cs u key (run_call ids c db) (call-keeps_tx c u key db h)

  consume-HasWallet :
      (u amount : ℕ) (key reason : String) (meta : Payload) (gid : Option ℕ) (db : Db)
      (r : ConsumeResult)
      → (consume ids u amount key reason meta gid db).0 ≡ ok r
      → HasWallet u (transaction (consume ids u amount key reason meta gid) db).1
  unfolding consume
  consume-HasWallet u amount key reason meta gid db r h = grind (arith, lookup-insert)

  grant-HasWallet :
      (u amount : ℕ) (key reason : String) (meta : Payload) (db : Db) (r : GrantResult)
      → (grant ids u amount key reason meta db).0 ≡ ok r
      → HasWallet u (transaction (grant ids u amount key reason meta) db).1
  unfolding grant
  grant-HasWallet u amount key reason meta db r h = grind (arith, lookup-insert)

  call-HasWallet : (c : Call) (u : ℕ) (db : Db) → HasWallet u db → HasWallet u (run_call ids c db)
  unfolding run_call consume grant
  call-HasWallet (Call.consume v a k reason meta gid) u db h = grind (arith, lookup-insert)
  call-HasWallet (Call.grant v a k reason meta) u db h = grind (arith, lookup-insert)

  -- A wallet is never removed.
  calls-HasWallet :
      (cs : List Call) (u : ℕ) (db : Db) → HasWallet u db → HasWallet u (run_calls ids cs db)
  unfolding run_calls
  calls-HasWallet [] u db h = h
  calls-HasWallet (c ∷ cs) u db h =
      calls-HasWallet cs u (run_call ids c db) (call-HasWallet c u db h)

  consume_replay :
      (u amount : ℕ) (key reason : String) (meta : Payload) (gid : Option ℕ) (id : ℕ) (db : Db)
      → 0 < amount
      → HasWallet u db
      → IsRecorded debit amount id (find_tx u key db.ledger)
      → consume ids u amount key reason meta gid db
        ≡ (ok (record { replay = true; tx_id = id; balance = balance u db }), db)
  unfolding consume balance
  consume_replay u amount key reason meta gid id db pos wallet h = grind (arith, wallet)

  grant_replay :
      (u amount : ℕ) (key reason : String) (meta : Payload) (id : ℕ) (db : Db)
      → 0 < amount
      → HasWallet u db
      → IsRecorded credit amount id (find_tx u key db.ledger)
      → grant ids u amount key reason meta db
        ≡ (ok (record { replay = true; tx_id = id; balance = balance u db }), db)
  unfolding grant balance
  grant_replay u amount key reason meta id db pos wallet h = grind (arith, wallet)

  -- A debit that has been made, asked for again under its key after any other calls, returns the
  -- first transaction as a replay, and changes nothing at all, in no table.
  pub consume_again :
      (u amount : ℕ) (key reason reason' : String) (meta meta' : Payload) (gid gid' : Option ℕ)
      (cs : List Call) (db : Db) (r : ConsumeResult)
      → 0 < amount
      → (consume ids u amount key reason meta gid db).0 ≡ ok r
      → let later =
          run_calls ids cs (transaction (consume ids u amount key reason meta gid) db).1 in
        consume ids u amount key reason' meta' gid' later
        ≡ (ok (record { replay = true; tx_id = r.tx_id; balance = balance u later }), later)
  consume_again u amount key reason reason' meta meta' gid gid' cs db r pos h =
      let first : Db = (transaction (consume ids u amount key reason meta gid) db).1 in
      consume_replay u amount key reason' meta' gid' r.tx_id (run_calls ids cs first) pos
        (calls-HasWallet cs u first (consume-HasWallet u amount key reason meta gid db r h))
        (calls-IsRecorded cs u key debit amount r.tx_id first
          (consume-IsRecorded u amount key reason meta gid db r h))

  -- A credit that has been made, asked for again under its key after any other calls, returns the
  -- first transaction as a replay, and changes nothing at all, in no table.
  pub grant_again :
      (u amount : ℕ) (key reason reason' : String) (meta meta' : Payload) (cs : List Call) (db : Db)
      (r : GrantResult)
      → 0 < amount
      → (grant ids u amount key reason meta db).0 ≡ ok r
      → let later = run_calls ids cs (transaction (grant ids u amount key reason meta) db).1 in
        grant ids u amount key reason' meta' later
        ≡ (ok (record { replay = true; tx_id = r.tx_id; balance = balance u later }), later)
  grant_again u amount key reason reason' meta meta' cs db r pos h =
      let first : Db = (transaction (grant ids u amount key reason meta) db).1 in
      grant_replay u amount key reason' meta' r.tx_id (run_calls ids cs first) pos
        (calls-HasWallet cs u first (grant-HasWallet u amount key reason meta db r h))
        (calls-IsRecorded cs u key credit amount r.tx_id first
          (grant-IsRecorded u amount key reason meta db r h))
