-- ===== src/Generation/Billing.antt =====
-- What a generation costs (src/app/generation/service.py): nothing unless it is delivered, and then
-- what is reported.
use ai_text.Prelude.{◌==◌, ℕ, ◌+◌, ◌≡◌, refl, ◌⊎◌, arith, if◌then◌else◌}
use ai_text.Database.{Db, BillingKind}
use ai_text.Action.Ensures.{Ensures}
use ai_text.Wallet.{balance}
use ai_text.Generation.{Outcome, Settlement, try_trial}
use ai_text.Generation.Repository.{flip_trial, finalize, Completion}

-- The tables that money is kept in.
abbrev pub SameMoney : Db → Db → Type 0
SameMoney db db' = (db'.wallets ≡ db.wallets) × (db'.ledger ≡ db.ledger)

pub try_trial-SameMoney :
    (u : ℕ) (kind : BillingKind) (db : Db)
    → Ensures (try_trial u kind db) (λ _ db'. SameMoney db db')
unfolding try_trial flip_trial
try_trial-SameMoney u BillingKind.trial db = ground arith
try_trial-SameMoney u _ db = (refl, refl)

pub finalize-SameMoney :
    (gid : ℕ) (c : Completion) (db : Db) → Ensures (finalize gid c db) (λ _ db'. SameMoney db db')
unfolding finalize
finalize-SameMoney gid c db = ground arith

-- What a settlement has done: the balance has paid what is charged, which is nothing or the price,
-- and a charge is a debit with a row of the ledger.
record Settles (u credits : ℕ) (db : Db) (s : Settlement) (db' : Db) : Type 0 where
  pub balances : (v : ℕ) → balance v db' + (if v == u then s.charged else 0) ≡ balance v db
  pub priced : (s.charged ≡ 0) ⊎ (s.charged ≡ credits)
  pub rows : db'.generations ≡ db.generations

-- What the client is told of a delivery.
pub record Bills (u credits : ℕ) (db : Db) (charged new_balance : ℕ) (db' : Db) : Type 0 where
  pub balances : (v : ℕ) → balance v db' + (if v == u then charged else 0) ≡ balance v db
  pub priced : (charged ≡ 0) ⊎ (charged ≡ credits)
  pub reported : new_balance ≡ balance u db'

abbrev pub IsBilled : ℕ → ℕ → Db → Outcome → Db → Type 0
IsBilled u credits db (Outcome.succeeded g output charged kind new_balance) db' =
    Bills u credits db charged new_balance db'
IsBilled u credits db _ db' = ⊥
