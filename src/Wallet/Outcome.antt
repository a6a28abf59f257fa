-- ===== src/Wallet/Outcome.antt =====
-- What `consume` and `grant` of src/app/wallet/service.py return and do to every balance.
use ai_text.Prelude.{
  ℕ, ◌+◌, ◌-◌, ◌<◌, String, ◌≡◌, true, false, ◌&&◌, Option, none, some, arith, lookup-insert, leb,
  ◌==◌, if◌then◌else◌,
}
use ai_text.Database.{Uuids, Payload, debit, credit, Db}
use ai_text.Action.{ok, err, conflict, insufficient_credits, transaction}
use ai_text.Wallet.{balance, same_type, find_tx, consume, grant}

module _ (ids : Uuids) where
  -- A positive debit replays under the key of an equal debit, conflicts under the key of anything
  -- else, and under a new key is made exactly if the balance covers it.
  pub consume_outcome :
      (u amount : ℕ) (key reason : String) (meta : Payload) (gid : Option ℕ) (db : Db)
      → 0 < amount
      → (consume ids u amount key reason meta gid db).0 ≡ elim (find_tx u key db.ledger) [
        | some t ↦
            if same_type t.type debit && t.amount == amount
            then ok (record { replay = true; tx_id = t.id; balance = balance u db })
            else err conflict
        | none ↦
            if leb amount (balance u db)
            then ok (record {
              replay = false;
              tx_id = ids.gen db.drawn;
              balance = balance u db - amount;
            })
            else err insufficient_credits
      ]
  unfolding consume balance
  consume_outcome u amount key reason meta gid db h = grind (arith, lookup-insert)

  -- A positive credit replays under the key of an equal credit, conflicts under the key of
  -- anything else, and under a new key is always made.
  pub grant_outcome :
      (u amount : ℕ) (key reason : String) (meta : Payload) (db : Db)
      → 0 < amount
      → (grant ids u amount key reason meta db).0 ≡ elim (find_tx u key db.ledger) [
        | some t ↦
            if same_type t.type credit && t.amount == amount
            then ok (record { replay = true; tx_id = t.id; balance = balance u db })
            else err conflict
        | none ↦
            ok
              (record { replay = false; tx_id = ids.gen db.drawn; balance = balance u db + amount })
      ]
  unfolding grant balance
  grant_outcome u amount key reason meta db h = grind (arith, lookup-insert)

  -- A debit changes no balance but its user's, and his only if it is made: under a new key, and
  -- covered.
  pub balance-consume :
      (u amount v : ℕ) (key reason : String) (meta : Payload) (gid : Option ℕ) (db : Db)
      → balance v (transaction (consume ids u amount key reason meta gid) db).1 ≡ (
          if u == v
          then elim (find_tx u key db.ledger) [
            | some t ↦ balance v db
            | none ↦ if leb amount (balance u db) then balance v db - amount else balance v db
          ]
          else balance v db)
  unfolding consume balance
  balance-consume u amount v key reason meta gid db = grind (arith, lookup-insert)

  -- A credit changes no balance but its user's, and his only under a new key, and then by its
  -- amount.
  pub balance-grant :
      (u amount v : ℕ) (key reason : String) (meta : Payload) (db : Db)
      → balance v (transaction (grant ids u amount key reason meta) db).1 ≡ (
          if u == v
          then elim (find_tx u key db.ledger) [
            | some t ↦ balance v db
            | none ↦ balance v db + amount
          ]
          else balance v db)
  unfolding grant balance
  balance-grant u amount v key reason meta db = grind (arith, lookup-insert)
