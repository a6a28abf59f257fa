-- ===== src/Payments/Grant.antt =====
-- Where the credits of `record_and_grant` (src/app/billing/payments.py) come from, and what it does
-- to the balances, on every branch that returns.
use ai_text.Prelude.{
  inl, ℕ, ◌+◌, String, ◌≡◌, refl, ◌⊎◌, Option, none, some, arith, ◌==◌, if◌then◌else◌,
}
use ai_text.Database.{Uuids, Db, PaymentKind, subscription_event, PaymentChannel}
use ai_text.Action.{Result, ok, err, transaction, settled}
use ai_text.Action.Ensures.{Ensures, Ensures-seq, Ensures-mono}
use ai_text.Products.{Catalogue, Product, product_of, credits_in}
use ai_text.Wallet.{balance}
use ai_text.Wallet.Contract.{Granted, grant-Granted}
use ai_text.Payments.{
  Event, PaymentOutcome, Reason, rejection, record_and_grant, record_inserted, insert_payment,
  check_product, grant_credits, call_grant, record_grant,
}

-- What an event of this kind may add: the credits of the product, if it is sold in the channel. A
-- `subscription_event` does not look at the channel, and no caller gives it a key to grant under.
pub price_of : PaymentKind → PaymentChannel → Option Product → Option ℕ
unfolding credits_in
price_of subscription_event channel none = none
price_of subscription_event channel (some p) = some p.credits
price_of kind channel product = credits_in channel product

pub record Effect (u : ℕ) (price : Option ℕ) (db : Db) (o : PaymentOutcome) (db' : Db)
    : Type 0 where
  pub balances : (v : ℕ) → balance v db' ≡ balance v db + (if v == u then o.credits else 0)
  pub priced : (o.credits ≡ 0) ⊎ (price ≡ some o.credits)

-- The credits that the caller is told of: none if the call raises.
abbrev pub reported : Result PaymentOutcome → ℕ
reported (ok o) = o.credits
reported (err e) = 0

pub record Change (u : ℕ) (price : Option ℕ) (db : Db) (x : Result PaymentOutcome × Db)
    : Type 0 where
  pub balances : (v : ℕ) → balance v x.1 ≡ balance v db + (if v == u then reported x.0 else 0)
  pub priced : (reported x.0 ≡ 0) ⊎ (price ≡ some (reported x.0))

module _ (ids : Uuids) where
  grant_credits-Effect :
      (e : Event) (kind : PaymentKind) (pid : ℕ) (key : Option String) (product : Option Product)
      (db : Db)
      → rejection e kind product ≡ none
      → Ensures
          (grant_credits ids e kind pid key product db)
          (Effect e.user_id (price_of kind e.channel product) db)
  unfolding grant_credits record_grant call_grant balance price_of rejection
  grant_credits-Effect e kind pid none none db h = ground arith
  grant_credits-Effect e kind pid none (some p) db h = ground arith
  grant_credits-Effect e kind pid (some key) none db h = ground arith
  grant_credits-Effect e kind pid (some key) (some p) db h =
      Ensures-seq (call_grant ids e kind pid key p) (record_grant ids e kind pid p.credits)
        (Granted e.user_id p.credits key db)
        (Effect e.user_id (price_of kind e.channel (some p)) db) db
        (grant-Granted ids e.user_id p.credits key _ _ db)
        (λ g db' granted. record {
          balances = λ v. grind (arith, granted.balances v);
          priced = ground arith;
        })

  check_product-Effect :
      (e : Event) (kind : PaymentKind) (pid : ℕ) (key : Option String) (product : Option Product)
      (reason : Option Reason) (db : Db)
      → rejection e kind product ≡ reason
      → Ensures
          (check_product ids e kind pid key product reason db)
          (Effect e.user_id (price_of kind e.channel product) db)
  unfolding check_product balance
  check_product-Effect e kind pid key product none db h =
      grant_credits-Effect e kind pid key product db h
  check_product-Effect e kind pid key product (some r) db h = ground arith

  record_inserted-Effect :
      (catalogue : Catalogue) (e : Event) (kind : PaymentKind) (key : Option String)
      (pid : Option ℕ) (db : Db)
      → Ensures
          (record_inserted ids catalogue e kind key pid db)
          (Effect e.user_id (price_of kind e.channel (product_of catalogue e.product_id)) db)
  unfolding record_inserted
  record_inserted-Effect catalogue e kind key none db = ground arith
  record_inserted-Effect catalogue e kind key (some pid) db =
      let product = product_of catalogue e.product_id in
      check_product-Effect e kind pid key product (rejection e kind product) db refl

  insert_payment-balance :
      (e : Event) (kind : PaymentKind) (key : Option String) (db : Db)
      → Ensures (insert_payment ids e kind key db) (λ _ db'. (v : ℕ) → balance v db' ≡ balance v db)
  unfolding insert_payment balance
  insert_payment-balance e kind key db = grind arith

  Effect-from :
      (u : ℕ) (price : Option ℕ) (db db' : Db)
      → ((v : ℕ) → balance v db' ≡ balance v db)
      → (o : PaymentOutcome) (db'' : Db) → Effect u price db' o db''
      → Effect u price db o db''
  Effect-from u price db db' same o db'' h = record {
    balances = λ v. omega (arith, h.balances v, same v);
    priced = h.priced;
  }

  pub record_and_grant-Effect :
      (catalogue : Catalogue) (e : Event) (kind : PaymentKind) (key : Option String) (db : Db)
      → Ensures
          (record_and_grant ids catalogue e kind key db)
          (Effect e.user_id (price_of kind e.channel (product_of catalogue e.product_id)) db)
  unfolding record_and_grant
  record_and_grant-Effect catalogue e kind key db =
      let price = price_of kind e.channel (product_of catalogue e.product_id) in
      Ensures-seq (insert_payment ids e kind key) (record_inserted ids catalogue e kind key)
        (λ _ db'. (v : ℕ) → balance v db' ≡ balance v db) (Effect e.user_id price db) db
        (insert_payment-balance e kind key db)
        (λ pid db' same.
          Ensures-mono (record_inserted ids catalogue e kind key pid db')
            (Effect e.user_id price db') (Effect e.user_id price db)
            (Effect-from e.user_id price db db' same)
            (record_inserted-Effect catalogue e kind key pid db'))

  settled-Change :
      (u : ℕ) (price : Option ℕ) (db : Db) (x : Result PaymentOutcome × Db)
      → Ensures x (Effect u price db)
      → Change u price db (settled db x)
  settled-Change u price db (ok o, db') h = record { balances = h.balances; priced = h.priced }
  settled-Change u price db (err e, db') h = record {
    balances = λ v. ground arith;
    priced = inl refl;
  }

  -- Whether the call returns, or raises and is rolled back: its user's balance gains exactly the
  -- credits that are reported, and no other balance changes. They are none, or those that the
  -- catalogue gives the product of the event, which then is sold in the channel of the event, unless
  -- the event is a `subscription_event`.
  pub record_and_grant-Change :
      (catalogue : Catalogue) (e : Event) (kind : PaymentKind) (key : Option String) (db : Db)
      → Change e.user_id
          (price_of kind e.channel (product_of catalogue e.product_id))
          db
          (transaction (record_and_grant ids catalogue e kind key) db)
  record_and_grant-Change catalogue e kind key db =
      settled-Change e.user_id (price_of kind e.channel (product_of catalogue e.product_id)) db
        (record_and_grant ids catalogue e kind key db)
        (record_and_grant-Effect catalogue e kind key db)
