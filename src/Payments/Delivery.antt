-- ===== src/Payments/Delivery.antt =====
-- Layer 1 of `record_and_grant` (src/app/billing/payments.py): one row for each delivery, and no row
-- left at `received`.
use ai_text.Prelude.{ℕ, String, ◌≡◌, refl, true, Option, none, some, List, [], ◌∷◌, arith, eq_refl}
use ai_text.Database.{Uuids, Db, PaymentKind, PaymentChannel}
use ai_text.Action.{ok, transaction}
use ai_text.Action.Ensures.{Ensures, Ensures-seq, bind-ok, transaction-Ensures}
use ai_text.Products.{Catalogue, Product, product_of}
use ai_text.Wallet.Contract.{Granted, grant-Granted}
use ai_text.Payments.{
  Event, PaymentOutcome, duplicate, has_product, find_payment, record_and_grant, record_inserted,
  insert_payment, check_product, grant_credits, call_grant, record_grant,
}
use ai_text.Payments.Rows.{
  same_channel_refl, find_payment-append, find_payment-update_payment, IsSome,
}

-- A delivery by a channel, with what its handler makes of it.
pub record Report : Type 0 where
  pub catalogue : Catalogue
  pub event : Event
  pub kind : PaymentKind
  pub key : Option String

-- The journal has a row for this delivery.
abbrev pub IsDelivered : PaymentChannel → String → Db → Type 0
IsDelivered channel external_id db = IsSome (find_payment channel external_id db.payments)

module _ (ids : Uuids) where
  grant_credits-IsDelivered :
      (c : PaymentChannel) (x : String) (e : Event) (kind : PaymentKind) (pid : ℕ)
      (key : Option String) (product : Option Product) (db : Db)
      → IsDelivered c x db
      → Ensures (grant_credits ids e kind pid key product db) (λ _ db'. IsDelivered c x db')
  unfolding grant_credits record_grant call_grant
  grant_credits-IsDelivered c x e kind pid none none db h =
      grind (arith, find_payment-update_payment)
  grant_credits-IsDelivered c x e kind pid none (some p) db h =
      grind (arith, find_payment-update_payment)
  grant_credits-IsDelivered c x e kind pid (some key) none db h =
      grind (arith, find_payment-update_payment)
  grant_credits-IsDelivered c x e kind pid (some key) (some p) db h =
      Ensures-seq (call_grant ids e kind pid key p) (record_grant ids e kind pid p.credits)
        (Granted e.user_id p.credits key db) (λ _ db'. IsDelivered c x db') db
        (grant-Granted ids e.user_id p.credits key _ _ db)
        (λ g db' granted.
          find_payment-update_payment c x pid _ db'.payments (λ p. (refl, refl))
            (rw granted.frame.payments h))

  record_inserted-IsDelivered :
      (c : PaymentChannel) (x : String) (catalogue : Catalogue) (e : Event) (kind : PaymentKind)
      (key : Option String) (pid : Option ℕ) (db : Db)
      → IsDelivered c x db
      → Ensures (record_inserted ids catalogue e kind key pid db) (λ _ db'. IsDelivered c x db')
  unfolding record_inserted check_product
  record_inserted-IsDelivered c x catalogue e kind key none db h = h
  record_inserted-IsDelivered c x catalogue e kind key (some pid) db h =
      let product = product_of catalogue e.product_id in
      grind (
        arith,
        grant_credits-IsDelivered c x e kind pid key product db,
        find_payment-update_payment,
      )

  insert_payment-IsDelivered :
      (e : Event) (kind : PaymentKind) (key : Option String) (db : Db)
      → Ensures
          (insert_payment ids e kind key db)
          (λ _ db'. IsDelivered e.channel e.external_id db')
  unfolding insert_payment
  insert_payment-IsDelivered e kind key db =
      grind (arith, find_payment-append, same_channel_refl, eq_refl)

  record_and_grant-IsDelivered :
      (catalogue : Catalogue) (e : Event) (kind : PaymentKind) (key : Option String) (db : Db)
      → Ensures
          (record_and_grant ids catalogue e kind key db)
          (λ _ db'. IsDelivered e.channel e.external_id db')
  unfolding record_and_grant
  record_and_grant-IsDelivered catalogue e kind key db =
      Ensures-seq (insert_payment ids e kind key) (record_inserted ids catalogue e kind key)
        (λ _ db'. IsDelivered e.channel e.external_id db')
        (λ _ db'. IsDelivered e.channel e.external_id db') db
        (insert_payment-IsDelivered e kind key db)
        (λ pid db' h.
          record_inserted-IsDelivered e.channel e.external_id catalogue e kind key pid db' h)

  insert_payment-IsDelivered_before :
      (e : Event) (kind : PaymentKind) (key : Option String) (db : Db)
      → has_product kind e.product_id ≡ true
      → IsDelivered e.channel e.external_id db
      → insert_payment ids e kind key db ≡ (ok none, db)
  unfolding insert_payment
  insert_payment-IsDelivered_before e kind key db p h = rw p (grind arith)

  duplicate_lem :
      (catalogue : Catalogue) (e : Event) (kind : PaymentKind) (key : Option String) (db : Db)
      → has_product kind e.product_id ≡ true
      → IsDelivered e.channel e.external_id db
      → record_and_grant ids catalogue e kind key db ≡ (ok duplicate, db)
  unfolding record_and_grant record_inserted
  duplicate_lem catalogue e kind key db p h =
      bind-ok (insert_payment ids e kind key) (record_inserted ids catalogue e kind key) none db db
        (insert_payment-IsDelivered_before e kind key db p h)

  -- Deliveries by any channels, each in a transaction of its own.
  pub report_all : List Report → Db → Db
  report_all [] db = db
  report_all (r ∷ rs) db =
      report_all rs (transaction (record_and_grant ids r.catalogue r.event r.kind r.key) db).1

  insert_payment-keeps :
      (c : PaymentChannel) (x : String) (e : Event) (kind : PaymentKind) (key : Option String)
      (db : Db)
      → IsDelivered c x db
      → Ensures (insert_payment ids e kind key db) (λ _ db'. IsDelivered c x db')
  unfolding insert_payment
  insert_payment-keeps c x e kind key db h = grind (arith, find_payment-append)

  record_and_grant-keeps :
      (c : PaymentChannel) (x : String) (r : Report) (db : Db)
      → IsDelivered c x db
      → Ensures
          (record_and_grant ids r.catalogue r.event r.kind r.key db)
          (λ _ db'. IsDelivered c x db')
  unfolding record_and_grant
  record_and_grant-keeps c x r db h =
      Ensures-seq (insert_payment ids r.event r.kind r.key)
        (record_inserted ids r.catalogue r.event r.kind r.key) (λ _ db'. IsDelivered c x db')
        (λ _ db'. IsDelivered c x db') db (insert_payment-keeps c x r.event r.kind r.key db h)
        (λ pid db' k. record_inserted-IsDelivered c x r.catalogue r.event r.kind r.key pid db' k)

  report_all-IsDelivered :
      (rs : List Report) (c : PaymentChannel) (x : String) (db : Db)
      → IsDelivered c x db
      → IsDelivered c x (report_all rs db)
  unfolding report_all
  report_all-IsDelivered [] c x db h = h
  report_all-IsDelivered (r ∷ rs) c x db h =
      let one = record_and_grant ids r.catalogue r.event r.kind r.key in
      report_all-IsDelivered rs c x (transaction one db).1
        (transaction-Ensures (IsDelivered c x) one db h (record_and_grant-keeps c x r db h))

  -- Once an event has been processed, and after any deliveries of any channels since, a delivery with
  -- its channel and external id that names a product, or is a subscription event, whatever else it
  -- says, is reported as a duplicate delivery and changes nothing at all.
  pub second_delivery :
      (catalogue : Catalogue) (e e' : Event) (kind kind' : PaymentKind) (key key' : Option String)
      (rs : List Report) (db db' : Db) (o : PaymentOutcome)
      → record_and_grant ids catalogue e kind key db ≡ (ok o, db')
      → e'.channel ≡ e.channel
      → e'.external_id ≡ e.external_id
      → has_product kind' e'.product_id ≡ true
      → record_and_grant ids catalogue e' kind' key' (report_all rs db')
        ≡ (ok duplicate, report_all rs db')
  second_delivery catalogue e e' kind kind' key key' rs db db' o first c x p =
      duplicate_lem catalogue e' kind' key' (report_all rs db') p (
        rw (c, x)
          (report_all-IsDelivered rs e.channel e.external_id db'
            (rw first at (record_and_grant-IsDelivered catalogue e kind key db))))
