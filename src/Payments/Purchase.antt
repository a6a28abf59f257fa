-- ===== src/Payments/Purchase.antt =====
-- Layer 2 of `record_and_grant` (src/app/billing/payments.py): several events of one purchase are
-- granted once.
use ai_text.Prelude.{ℕ, String, ◌≡◌, refl, true, Option, none, some, List, arith, lookup-insert}
use ai_text.Database.{Uuids, Payload, TxType, credit, LedgerTransaction, Db, PaymentKind, granted}
use ai_text.Action.{Result, ok, err, transaction, settled}
use ai_text.Action.Ensures.{Ensures, Ensures-seq, Ensures-any}
use ai_text.Products.{Catalogue, Product, product_of}
use ai_text.Wallet
use ai_text.Wallet.{find_tx, balance}
use ai_text.Wallet.Calls.{Call, run_calls}
use ai_text.Wallet.Contract.{Granted, grant-Granted}
use ai_text.Wallet.Replay.{IsRecorded, calls-IsRecorded}
use ai_text.Payments.{
  Event, PaymentOutcome, Reason, rejection, record_and_grant, record_inserted, insert_payment,
  check_product, grant_credits, call_grant, record_grant,
}
use ai_text.Payments.Grant.{price_of, Change, record_and_grant-Change}
use ai_text.Payments.Rows.{IsSome}

-- The ledger has a row of this user under this key.
abbrev pub HasKey : ℕ → String → Db → Type 0
HasKey u key db = IsSome (find_tx u key db.ledger)

IsSome-cases {ℓ} : {A : Type ℓ} (o : Option A) → IsSome o → (a : A) × (o ≡ some a)
IsSome-cases none h = absurd h
IsSome-cases (some a) h = (a, refl)

IsRecorded-IsSome :
    (type : TxType) (amount id : ℕ) (o : Option LedgerTransaction)
    → IsRecorded type amount id o
    → IsSome o
IsRecorded-IsSome type amount id none h = h
IsRecorded-IsSome type amount id (some t) h = tt

IsRecorded-some :
    (o : Option LedgerTransaction) (t : LedgerTransaction)
    → o ≡ some t
    → IsRecorded t.type t.amount t.id o
IsRecorded-some none t e = cc
IsRecorded-some (some r) t e = ground arith

module _ (ids : Uuids) where
  calls-HasKey :
      (cs : List Call) (u : ℕ) (key : String) (db : Db)
      → HasKey u key db
      → HasKey u key (run_calls ids cs db)
  calls-HasKey cs u key db h =
      let (t, e) = IsSome-cases (find_tx u key db.ledger) h in
      IsRecorded-IsSome t.type t.amount t.id (find_tx u key (run_calls ids cs db).ledger) (
        calls-IsRecorded ids cs u key t.type t.amount t.id db
          (IsRecorded-some (find_tx u key db.ledger) t e))

  grant-HasKey :
      (u amount : ℕ) (key reason : String) (meta : Payload) (db : Db)
      → HasKey u key db
      → Ensures (Wallet.grant ids u amount key reason meta db) (λ g _. g.replay ≡ true)
  unfolding Wallet.grant
  grant-HasKey u amount key reason meta db h = grind (arith, lookup-insert)

  grant_credits-HasKey :
      (e : Event) (kind : PaymentKind) (pid : ℕ) (key : String) (product : Option Product) (db : Db)
      → HasKey e.user_id key db
      → Ensures (grant_credits ids e kind pid (some key) product db) (λ o _. o.credits ≡ 0)
  unfolding grant_credits record_grant call_grant
  grant_credits-HasKey e kind pid key none db h = refl
  grant_credits-HasKey e kind pid key (some p) db h =
      Ensures-seq (call_grant ids e kind pid key p) (record_grant ids e kind pid p.credits)
        (λ g _. g.replay ≡ true) (λ o _. o.credits ≡ 0) db
        (grant-HasKey e.user_id p.credits key _ _ db h) (λ g db' replay. ground arith)

  record_inserted-HasKey :
      (catalogue : Catalogue) (e : Event) (kind : PaymentKind) (key : String) (pid : Option ℕ)
      (db : Db)
      → HasKey e.user_id key db
      → Ensures (record_inserted ids catalogue e kind (some key) pid db) (λ o _. o.credits ≡ 0)
  unfolding record_inserted check_product
  record_inserted-HasKey catalogue e kind key none db h = refl
  record_inserted-HasKey catalogue e kind key (some pid) db h =
      let product = product_of catalogue e.product_id in check product (rejection e kind product)
    where
      check :
          (product : Option Product) (reason : Option Reason)
          → Ensures
              (check_product ids e kind pid (some key) product reason db)
              (λ o _. o.credits ≡ 0)
      check product none = grant_credits-HasKey e kind pid key product db h
      check product (some r) = refl

  insert_payment-HasKey :
      (u : ℕ) (k : String) (e : Event) (kind : PaymentKind) (key : Option String) (db : Db)
      → HasKey u k db
      → Ensures (insert_payment ids e kind key db) (λ _ db'. HasKey u k db')
  unfolding insert_payment
  insert_payment-HasKey u k e kind key db h = grind arith

  record_and_grant-HasKey :
      (catalogue : Catalogue) (e : Event) (kind : PaymentKind) (key : String) (db : Db)
      → HasKey e.user_id key db
      → Ensures (record_and_grant ids catalogue e kind (some key) db) (λ o _. o.credits ≡ 0)
  unfolding record_and_grant
  record_and_grant-HasKey catalogue e kind key db h =
      Ensures-seq (insert_payment ids e kind (some key))
        (record_inserted ids catalogue e kind (some key)) (λ _ db'. HasKey e.user_id key db')
        (λ o _. o.credits ≡ 0) db (insert_payment-HasKey e.user_id key e kind (some key) db h)
        (λ pid db'. record_inserted-HasKey catalogue e kind key pid db')

  -- A granted event leaves its key in the ledger.
  abbrev IsKeyed : ℕ → String → PaymentOutcome → Db → Type 0
  IsKeyed u key o db' = o.status ≡ granted → HasKey u key db'

  grant_credits-IsKeyed :
      (e : Event) (kind : PaymentKind) (pid : ℕ) (key : String) (product : Option Product) (db : Db)
      → Ensures (grant_credits ids e kind pid (some key) product db) (IsKeyed e.user_id key)
  unfolding grant_credits record_grant call_grant
  grant_credits-IsKeyed e kind pid key none db = λ s. cc
  grant_credits-IsKeyed e kind pid key (some p) db =
      Ensures-seq (call_grant ids e kind pid key p) (record_grant ids e kind pid p.credits)
        (Granted e.user_id p.credits key db) (IsKeyed e.user_id key) db
        (grant-Granted ids e.user_id p.credits key _ _ db)
        (λ g db' h s.
          IsRecorded-IsSome credit p.credits g.tx_id (find_tx e.user_id key db'.ledger) h.recorded)

  record_inserted-IsKeyed :
      (catalogue : Catalogue) (e : Event) (kind : PaymentKind) (key : String) (pid : Option ℕ)
      (db : Db)
      → Ensures (record_inserted ids catalogue e kind (some key) pid db) (IsKeyed e.user_id key)
  unfolding record_inserted check_product
  record_inserted-IsKeyed catalogue e kind key none db = λ s. cc
  record_inserted-IsKeyed catalogue e kind key (some pid) db =
      let product = product_of catalogue e.product_id in check product (rejection e kind product)
    where
      check :
          (product : Option Product) (reason : Option Reason)
          → Ensures
              (check_product ids e kind pid (some key) product reason db)
              (IsKeyed e.user_id key)
      check product none = grant_credits-IsKeyed e kind pid key product db
      check product (some r) = λ s. cc

  record_and_grant-IsKeyed :
      (catalogue : Catalogue) (e : Event) (kind : PaymentKind) (key : String) (db : Db)
      → Ensures (record_and_grant ids catalogue e kind (some key) db) (IsKeyed e.user_id key)
  unfolding record_and_grant
  record_and_grant-IsKeyed catalogue e kind key db =
      Ensures-seq (insert_payment ids e kind (some key))
        (record_inserted ids catalogue e kind (some key)) (λ _ _. Unit) (IsKeyed e.user_id key) db
        (Ensures-any (insert_payment ids e kind (some key) db))
        (λ pid db' _. record_inserted-IsKeyed catalogue e kind key pid db')

  unmoved :
      (u : ℕ) (price : Option ℕ) (db : Db) (x : Result PaymentOutcome × Db)
      → Ensures x (λ o _. o.credits ≡ 0)
      → Change u price db (settled db x)
      → (v : ℕ) → balance v (settled db x).1 ≡ balance v db
  unmoved u price db (ok o, db') z h v = ground (arith, h.balances v)
  unmoved u price db (err e, db') z h v = refl

  -- Once an event has been granted under a key, an event of the same user under the same key, of
  -- any channel, kind, product and delivery, and after any other movements of credits, changes no
  -- balance.
  pub second_event :
      (catalogue : Catalogue) (e e' : Event) (kind kind' : PaymentKind) (key : String)
      (cs : List Call) (db db' : Db) (o : PaymentOutcome) (v : ℕ)
      → record_and_grant ids catalogue e kind (some key) db ≡ (ok o, db')
      → o.status ≡ granted
      → e'.user_id ≡ e.user_id
      → let later = run_calls ids cs db' in
        balance v (transaction (record_and_grant ids catalogue e' kind' (some key)) later).1
        ≡ balance v later
  second_event catalogue e e' kind kind' key cs db db' o v first s u =
      let later : Db = run_calls ids cs db' in
      unmoved e'.user_id (price_of kind' e'.channel (product_of catalogue e'.product_id)) later
        (record_and_grant ids catalogue e' kind' (some key) later)
        (record_and_grant-HasKey catalogue e' kind' key later (
          rw u (
            calls-HasKey cs e.user_id key db'
              ((rw first at (record_and_grant-IsKeyed catalogue e kind key db)) s))))
        (record_and_grant-Change ids catalogue e' kind' (some key) later) v
