-- ===== src/Wallet/Contract.antt =====
-- What a client of src/app/wallet/service.py relies on after a call that returns.
use ai_text.Prelude.{
  ℕ, ◌+◌, ◌≤◌, ◌<◌, String, ◌≡◌, false, Option, none, arith, lookup-insert, eq_refl, ◌==◌,
  if◌then◌else◌,
}
use ai_text.Action.{Result, ok, err, insufficient_credits}
use ai_text.Database.{Uuids, Payload, debit, credit, Db}
use ai_text.Action.Ensures.{Ensures, Returns}
use ai_text.Wallet.{ConsumeResult, GrantResult, balance, find_tx, consume, grant}
use ai_text.Wallet.Ledger.{find_tx-append}
use ai_text.Wallet.Replay.{IsRecorded}

-- The tables of other components.
pub record IsFrame (a b : Db) : Type 0 where
  pub users : b.users ≡ a.users
  pub subscriptions : b.subscriptions ≡ a.subscriptions
  pub payments : b.payments ≡ a.payments
  pub generations : b.generations ≡ a.generations
  pub now : b.now ≡ a.now

pub record Granted (u amount : ℕ) (key : String) (db : Db) (g : GrantResult) (db' : Db)
    : Type 0 where
  pub frame : IsFrame db db'
  pub balances :
      (v : ℕ)
      → balance v db' ≡ balance v db + (if v == u then (if g.replay then 0 else amount) else 0)
  pub recorded : IsRecorded credit amount g.tx_id (find_tx u key db'.ledger)
  pub positive : 0 < amount

pub record Consumed (u amount : ℕ) (key : String) (db : Db) (c : ConsumeResult) (db' : Db)
    : Type 0 where
  pub frame : IsFrame db db'
  pub balances :
      (v : ℕ)
      → balance v db' + (if v == u then (if c.replay then 0 else amount) else 0) ≡ balance v db
  pub recorded : IsRecorded debit amount c.tx_id (find_tx u key db'.ledger)
  pub positive : 0 < amount

-- A debit under a new key is made, or refused for want of credits, and nothing else.
abbrev pub IsNewDebit : ℕ → ℕ → String → Db → Result ConsumeResult × Db → Type 0
IsNewDebit u amount key db (ok c, db') = Consumed u amount key db c db' × (c.replay ≡ false)
IsNewDebit u amount key db (err insufficient_credits, db') = Unit
IsNewDebit u amount key db (err _, db') = ⊥

module _ (ids : Uuids) where
  pub grant-Granted :
      (u amount : ℕ) (key reason : String) (meta : Payload) (db : Db)
      → Ensures (grant ids u amount key reason meta db) (Granted u amount key db)
  unfolding grant balance
  grant-Granted u amount key reason meta db = grind (arith, find_tx-append, eq_refl, lookup-insert)

  pub consume-Consumed :
      (u amount : ℕ) (key reason : String) (meta : Payload) (gid : Option ℕ) (db : Db)
      → Ensures (consume ids u amount key reason meta gid db) (Consumed u amount key db)
  unfolding consume balance
  consume-Consumed u amount key reason meta gid db =
      grind (arith, find_tx-append, eq_refl, lookup-insert)

  -- A debit under a new key that the balance covers is made.
  pub consume-Returns :
      (u amount : ℕ) (key reason : String) (meta : Payload) (gid : Option ℕ) (db : Db)
      → 0 < amount
      → find_tx u key db.ledger ≡ none
      → amount ≤ balance u db
      → Returns
          (consume ids u amount key reason meta gid db)
          (λ c db'. Consumed u amount key db c db' × (c.replay ≡ false))
  unfolding consume balance
  consume-Returns u amount key reason meta gid db pos new covered =
      grind (arith, find_tx-append, eq_refl, lookup-insert)

  pub consume-IsNewDebit :
      (u amount : ℕ) (key reason : String) (meta : Payload) (gid : Option ℕ) (db : Db)
      → 0 < amount
      → find_tx u key db.ledger ≡ none
      → IsNewDebit u amount key db (consume ids u amount key reason meta gid db)
  unfolding consume balance
  consume-IsNewDebit u amount key reason meta gid db pos new =
      grind (arith, find_tx-append, eq_refl, lookup-insert)
