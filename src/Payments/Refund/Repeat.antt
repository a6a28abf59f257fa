-- ===== src/Payments/Refund/Repeat.antt =====
-- A purchase that several channels report as refunded (`record_refund` of
-- src/app/billing/payments.py): the reports after the first, and a report at balance zero.
use ai_text.Prelude.{
  ℕ, ◌≤◌, String, ◌≡◌, refl, Bool, true, false, Option, none, some, List, [], ◌∷◌, arith, All, ◌∙◌,
  ap, sym, subst,
}
use ai_text.Database.{Uuids, LedgerTransaction, Db, PaymentKind, PaymentStatus}
use ai_text.Action.{ok}
use ai_text.Action.Ensures.{Returns, Returns-seq, Returns-mono, bind-ok}
use ai_text.Wallet.{balance}
use ai_text.Payments.{Event, RefundOutcome, has_product, insert_payment}
use ai_text.Payments.Refund.Covered.{IsReversed, record_refund-AllReversed}
use ai_text.Payments.Refund.Taken.{amounts}
use ai_text.Wallet.Calls.{Call, run_calls}
use ai_text.Wallet.Journal.{IsPositive}
use ai_text.Wallet.Replay.{calls-keep_tx}
use ai_text.Payments.Refund.{
  Tally, no_tally, reversal_key, take_back, reverse_new, reverse, reverse_all, close_refund,
  refund_inserted, record_refund, grants_under,
}

module _ (ids : Uuids) where
  reverse-IsReversed :
      (e : Event) (pid : ℕ) (g : LedgerTransaction) (t : Tally) (db : Db)
      → IsReversed e.user_id db.ledger g
      → reverse ids e pid g t db ≡ (ok t, db)
  unfolding reverse reverse_new
  reverse-IsReversed e pid g t db h = grind arith

  reverse_all-IsReversed :
      (e : Event) (pid : ℕ) (gs : List LedgerTransaction) (t : Tally) (db : Db)
      → All (IsReversed e.user_id db.ledger) gs
      → reverse_all ids e pid gs t db ≡ (ok t, db)
  unfolding reverse_all
  reverse_all-IsReversed e pid [] t db h = refl
  reverse_all-IsReversed e pid (g ∷ gs) t db h =
      bind-ok (reverse ids e pid g t) (reverse_all ids e pid gs) t db db
        (reverse-IsReversed e pid g t db h.0)
      ∙ reverse_all-IsReversed e pid gs t db h.1

  -- What a refund reports if its loop did nothing.
  abbrev TookNothing : RefundOutcome → Db → Db → Type 0
  TookNothing o db db' =
      (o.credits_revoked ≡ 0) × (db'.ledger ≡ db.ledger) × (db'.wallets ≡ db.wallets)

  close_refund-TookNothing :
      (e : Event) (rs : Bool) (pid : ℕ) (gs : List LedgerTransaction) (t : Tally) (db db' : Db)
      → t.revoked ≡ 0
      → db'.ledger ≡ db.ledger
      → db'.wallets ≡ db.wallets
      → Returns (close_refund ids e rs pid gs t db') (λ o db''. TookNothing o db db'')
  unfolding close_refund
  close_refund-TookNothing e true pid gs t db db' z l w = grind arith
  close_refund-TookNothing e false pid gs t db db' z l w = grind arith

  refund_inserted-TookNothing :
      (e : Event) (keys : List String) (rs : Bool) (pid : Option ℕ) (db : Db)
      → ((i : ℕ)
          → Returns
              (reverse_all ids e i (grants_under e.user_id keys db.ledger) no_tally db)
              (λ t db'. (db' ≡ db) × (t.revoked ≡ 0)))
      → Returns (refund_inserted ids e keys rs pid db) (λ o db'. TookNothing o db db')
  unfolding refund_inserted
  refund_inserted-TookNothing e keys rs none db h = (refl, refl, refl)
  refund_inserted-TookNothing e keys rs (some pid) db h =
      let gs = grants_under e.user_id keys db.ledger in
      Returns-seq (reverse_all ids e pid gs no_tally) (close_refund ids e rs pid gs)
        (λ t db'. (db' ≡ db) × (t.revoked ≡ 0)) (λ o db'. TookNothing o db db') db (h pid)
        (λ t db' (same, z).
          close_refund-TookNothing e rs pid gs t db db' z (ap (λ (d : Db). d.ledger) same)
            (ap (λ (d : Db). d.wallets) same))

  insert_payment-keeps :
      (e : Event) (kind : PaymentKind) (key : Option String) (db : Db)
      → has_product kind e.product_id ≡ true
      → Returns
          (insert_payment ids e kind key db)
          (λ _ db'. (db'.ledger ≡ db.ledger) × (db'.wallets ≡ db.wallets))
  unfolding insert_payment
  insert_payment-keeps e kind key db h = rw h (grind arith)

  record_refund-TookNothing :
      (e : Event) (keys : List String) (rs : Bool) (db : Db)
      → has_product PaymentKind.refund e.product_id ≡ true
      → ((i : ℕ) (db' : Db)
          → db'.ledger ≡ db.ledger
          → db'.wallets ≡ db.wallets
          → Returns
              (reverse_all ids e i (grants_under e.user_id keys db'.ledger) no_tally db')
              (λ t db''. (db'' ≡ db') × (t.revoked ≡ 0)))
      → Returns (record_refund ids e keys rs db) (λ o db'. TookNothing o db db')
  unfolding record_refund
  record_refund-TookNothing e keys rs db h loop =
      Returns-seq (insert_payment ids e PaymentKind.refund none) (refund_inserted ids e keys rs)
        (λ _ db'. (db'.ledger ≡ db.ledger) × (db'.wallets ≡ db.wallets))
        (λ o db'. TookNothing o db db') db (insert_payment-keeps e PaymentKind.refund none db h)
        (λ pid db' (l, w).
          Returns-mono (refund_inserted ids e keys rs pid db') (λ o db''. TookNothing o db' db'')
            (λ o db''. TookNothing o db db'') (λ o db'' (z, l', w'). (z, l' ∙ l, w' ∙ w))
            (refund_inserted-TookNothing e keys rs pid db' (λ i. loop i db' l w)))

  reversed_again :
      (e : Event) (keys : List String) (rs : Bool) (db : Db)
      → has_product PaymentKind.refund e.product_id ≡ true
      → All (IsReversed e.user_id db.ledger) (grants_under e.user_id keys db.ledger)
      → Returns (record_refund ids e keys rs db) (λ o db'. TookNothing o db db')
  reversed_again e keys rs db h done = record_refund-TookNothing e keys rs db h (λ i db' l w.
      rw
        (reverse_all-IsReversed e i (grants_under e.user_id keys db'.ledger) no_tally db'
          (subst (λ x. All (IsReversed e.user_id x) (grants_under e.user_id keys x)) (sym l) done))
        (refl, refl))

  calls-IsReversed :
      (cs : List Call) (u : ℕ) (gs : List LedgerTransaction) (db : Db)
      → All (IsReversed u db.ledger) gs
      → All (IsReversed u (run_calls ids cs db).ledger) gs
  calls-IsReversed cs u [] db h = tt
  calls-IsReversed cs u (g ∷ gs) db h = (
    calls-keep_tx ids cs u (reversal_key g.idempotency_key) db h.0,
    calls-IsReversed cs u gs db h.1,
  )

  -- Once a refund that is not a duplicate delivery has been recorded, of grants of positive amounts
  -- that its user's balance covered, then after any calls of the wallet that add no grant under its
  -- keys, a refund of the same user and keys, by whatever channel and delivery, never raises if it
  -- names a product, and takes nothing.
  pub reversed_once :
      (e e' : Event) (keys : List String) (rs rs' : Bool) (cs : List Call) (db a : Db)
      (o : RefundOutcome)
      → All IsPositive (grants_under e.user_id keys db.ledger)
      → amounts (grants_under e.user_id keys db.ledger) ≤ balance e.user_id db
      → record_refund ids e keys rs db ≡ (ok o, a)
      → o.status ≡ PaymentStatus.refunded
      → grants_under e.user_id keys (run_calls ids cs a).ledger
        ≡ grants_under e.user_id keys a.ledger
      → e'.user_id ≡ e.user_id
      → has_product PaymentKind.refund e'.product_id ≡ true
      → let later = run_calls ids cs a in
        Returns (record_refund ids e' keys rs' later) (λ o' db'.
          (o'.credits_revoked ≡ 0) × (db'.ledger ≡ later.ledger) × (db'.wallets ≡ later.wallets))
  reversed_once e e' keys rs rs' cs db a o pos covered first new same_grants same_user h =
      let gs = grants_under e.user_id keys db.ledger in
      let (done, grants) =
        (rw first at (record_refund-AllReversed ids keys e rs db pos covered)) new in
      let later = run_calls ids cs a in
      let reversed : All (IsReversed e.user_id later.ledger)
          (grants_under e.user_id keys later.ledger) =
        subst (All (IsReversed e.user_id later.ledger)) (sym (same_grants ∙ grants))
          (calls-IsReversed cs e.user_id gs a done) in
      reversed_again e' keys rs' later h (
        subst (λ u. All (IsReversed u later.ledger) (grants_under u keys later.ledger))
          (sym same_user) reversed)

  -- With nothing on the balance the loop only counts what it could not recover.
  reverse_broke :
      (e : Event) (pid : ℕ) (g : LedgerTransaction) (t : Tally) (db : Db)
      → balance e.user_id db ≡ 0
      → Returns (reverse ids e pid g t db) (λ t' db'. (db' ≡ db) × (t'.revoked ≡ t.revoked))
  unfolding reverse reverse_new take_back
  reverse_broke e pid g t db h = grind arith

  reverse_all_broke :
      (e : Event) (pid : ℕ) (gs : List LedgerTransaction) (t : Tally) (db : Db)
      → balance e.user_id db ≡ 0
      → Returns (reverse_all ids e pid gs t db) (λ t' db'. (db' ≡ db) × (t'.revoked ≡ t.revoked))
  unfolding reverse_all
  reverse_all_broke e pid [] t db h = (refl, refl)
  reverse_all_broke e pid (g ∷ gs) t db h =
      Returns-seq (reverse ids e pid g t) (reverse_all ids e pid gs)
        (λ t' db'. (db' ≡ db) × (t'.revoked ≡ t.revoked))
        (λ t' db'. (db' ≡ db) × (t'.revoked ≡ t.revoked)) db (reverse_broke e pid g t db h)
        (λ t' db' (same, z).
          Returns-mono (reverse_all ids e pid gs t' db')
            (λ t'' db''. (db'' ≡ db') × (t''.revoked ≡ t'.revoked))
            (λ t'' db''. (db'' ≡ db) × (t''.revoked ≡ t.revoked))
            (λ t'' db'' (same', z'). (same' ∙ same, z' ∙ z))
            (reverse_all_broke e pid gs t' db' (ap (balance e.user_id) same ∙ h)))

  -- A refund with a product id that finds nothing on its user's balance never raises, takes nothing,
  -- and leaves every wallet and the ledger as they were: it writes no reversal.
  pub refund_at_zero :
      (e : Event) (keys : List String) (rs : Bool) (db : Db)
      → has_product PaymentKind.refund e.product_id ≡ true
      → balance e.user_id db ≡ 0
      → Returns
          (record_refund ids e keys rs db)
          (λ o db'. (o.credits_revoked ≡ 0) × (db'.ledger ≡ db.ledger) × (db'.wallets ≡ db.wallets))
  unfolding balance
  refund_at_zero e keys rs db h zero_balance =
      record_refund-TookNothing e keys rs db h (λ i db' l w.
        reverse_all_broke e i (grants_under e.user_id keys db'.ledger) no_tally db'
          (rw w zero_balance))
