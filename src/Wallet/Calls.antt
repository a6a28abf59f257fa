-- ===== src/Wallet/Calls.antt =====
-- Sequences of calls of the wallet, each in a transaction of its own, over any users: the order in
-- which PostgreSQL serialises them.
use ai_text.Prelude.{ℕ, String, Option, List, [], ◌∷◌}
use ai_text.Database.{Uuids, Payload, Db}
use ai_text.Action.{transaction}
use ai_text.Wallet

pub data Call : Type 0 where
  consume : ℕ → ℕ → String → String → Payload → Option ℕ → Call
  grant : ℕ → ℕ → String → String → Payload → Call

module _ (ids : Uuids) where
  unfoldable pub run_call : Call → Db → Db
  unfolding Wallet.consume Wallet.grant
  run_call (Call.consume u amount key reason meta gid) db =
      (transaction (Wallet.consume ids u amount key reason meta gid) db).1
  run_call (Call.grant u amount key reason meta) db =
      (transaction (Wallet.grant ids u amount key reason meta) db).1

  unfoldable pub run_calls : List Call → Db → Db
  unfolding run_call
  run_calls [] db = db
  run_calls (c ∷ cs) db = run_calls cs (run_call c db)
