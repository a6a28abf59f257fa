-- ===== src/Payments/Refund/Late.antt =====
-- Two channels that report one refund (`record_refund` of src/app/billing/payments.py), the first of
-- them when nothing is on the balance.
use ai_text.Prelude.{
  ℕ, ◌+◌, ◌≤◌, min, ◌≡◌, refl, ◌∙◌, ap, subst, sym, String, Bool, true, false, Option, none, some,
  List, [], ◌∷◌, arith, ltb,
}
use ai_text.Database.{Uuids, LedgerTransaction, Db, PaymentKind, PaymentStatus}
use ai_text.Action.{ok}
use ai_text.Action.Ensures.{
  Ensures, Ensures-seq, Returns, Returns-seq, Returns-mono, Returns-Ensures,
}
use ai_text.Wallet.{balance, find_tx}
use ai_text.Wallet.Calls.{Call, run_calls}
use ai_text.Wallet.Contract.{Consumed, consume-Returns}
use ai_text.Payments.{Event, RefundOutcome, has_product, insert_payment}
use ai_text.Payments.Refund.{
  Tally, no_tally, counted, reversal_key, take_back, call_consume, reverse_new, reverse,
  reverse_all, close_refund, refund_inserted, record_refund, grants_under,
}
use ai_text.Payments.Refund.Covered.{insert_payment-Keeps}
use ai_text.Payments.Refund.Repeat.{refund_at_zero}

module _ (ids : Uuids) where
  -- What one step of the loop takes.
  abbrev Takes : ℕ → Tally → Tally → Type 0
  Takes n t t' = t'.revoked ≡ t.revoked + n

  take_back-Takes :
      (b : Bool) (e : Event) (pid : ℕ) (g : LedgerTransaction) (take : ℕ) (t : Tally) (db : Db)
      → ltb 0 take ≡ b
      → take ≤ balance e.user_id db
      → find_tx e.user_id (reversal_key g.idempotency_key) db.ledger ≡ none
      → Returns
          (take_back ids b e pid g.idempotency_key g.amount take t db)
          (λ t' _. Takes take t t')
  unfolding take_back call_consume
  take_back-Takes false e pid g take t db test covered new = ground (arith, test)
  take_back-Takes true e pid g take t db test covered new =
      Returns-seq (call_consume ids e pid g.idempotency_key take) (counted g.amount take t)
        (λ c db'.
          Consumed e.user_id take (reversal_key g.idempotency_key) db c db' × (c.replay ≡ false))
        (λ t' _. Takes take t t') db
        (consume-Returns ids e.user_id take (reversal_key g.idempotency_key) _ _ _ db (ground arith)
          new covered)
        (λ c db' h. refl)

  reverse-Takes :
      (e : Event) (pid : ℕ) (g : LedgerTransaction) (t : Tally) (db : Db)
      → find_tx e.user_id (reversal_key g.idempotency_key) db.ledger ≡ none
      → Returns
          (reverse ids e pid g t db)
          (λ t' _. Takes (min g.amount (balance e.user_id db)) t t')
  unfolding reverse reverse_new
  reverse-Takes e pid g t db new =
      rw new (
        take_back-Takes _ e pid g (min g.amount (balance e.user_id db)) t db refl (omega arith) new)

  reverse_all-Takes :
      (e : Event) (pid : ℕ) (g : LedgerTransaction) (db : Db)
      → find_tx e.user_id (reversal_key g.idempotency_key) db.ledger ≡ none
      → Returns
          (reverse_all ids e pid (g ∷ []) no_tally db)
          (λ t _. t.revoked ≡ min g.amount (balance e.user_id db))
  unfolding reverse_all
  reverse_all-Takes e pid g db new =
      Returns-seq (reverse ids e pid g no_tally) (reverse_all ids e pid [])
        (λ t' _. Takes (min g.amount (balance e.user_id db)) no_tally t')
        (λ t _. t.revoked ≡ min g.amount (balance e.user_id db)) db
        (reverse-Takes e pid g no_tally db new) (λ t' db' h. omega (arith, h))

  close_refund-revoked :
      (e : Event) (rs : Bool) (pid : ℕ) (gs : List LedgerTransaction) (t : Tally) (db : Db)
      → Returns (close_refund ids e rs pid gs t db) (λ o _. o.credits_revoked ≡ t.revoked)
  unfolding close_refund
  close_refund-revoked e true pid gs t db = grind arith
  close_refund-revoked e false pid gs t db = grind arith

  abbrev TookOnce : ℕ → RefundOutcome → Db → Type 0
  TookOnce n o _ = o.status ≡ PaymentStatus.refunded → o.credits_revoked ≡ n

  refund_inserted-TookOnce :
      (e : Event) (keys : List String) (rs : Bool) (pid : Option ℕ) (g : LedgerTransaction) (n : ℕ)
      (db : Db)
      → grants_under e.user_id keys db.ledger ≡ g ∷ []
      → find_tx e.user_id (reversal_key g.idempotency_key) db.ledger ≡ none
      → min g.amount (balance e.user_id db) ≡ n
      → Ensures (refund_inserted ids e keys rs pid db) (TookOnce n)
  unfolding refund_inserted
  refund_inserted-TookOnce e keys rs none g n db one new same = λ refunded. absurd (cc)
  refund_inserted-TookOnce e keys rs (some pid) g n db one new same =
      let gs = grants_under e.user_id keys db.ledger in
      Ensures-seq (reverse_all ids e pid gs no_tally) (close_refund ids e rs pid gs)
        (λ t _. t.revoked ≡ n) (TookOnce n) db
        (subst (λ l. Ensures (reverse_all ids e pid l no_tally db) (λ t _. t.revoked ≡ n)) (sym one)
          (subst (λ k. Ensures (reverse_all ids e pid (g ∷ []) no_tally db) (λ t _. t.revoked ≡ k))
            same
            (Returns-Ensures (reverse_all ids e pid (g ∷ []) no_tally db) _
              (reverse_all-Takes e pid g db new))))
        (λ t db' h. Returns-Ensures (close_refund ids e rs pid gs t db') (TookOnce n) (
          Returns-mono (close_refund ids e rs pid gs t db') (λ o _. o.credits_revoked ≡ t.revoked)
            (TookOnce n) (λ o _ k _. k ∙ h) (close_refund-revoked e rs pid gs t db')))

  record_refund-TookOnce :
      (e : Event) (keys : List String) (rs : Bool) (g : LedgerTransaction) (db : Db)
      → grants_under e.user_id keys db.ledger ≡ g ∷ []
      → find_tx e.user_id (reversal_key g.idempotency_key) db.ledger ≡ none
      → Ensures (record_refund ids e keys rs db) (TookOnce (min g.amount (balance e.user_id db)))
  unfolding record_refund balance
  record_refund-TookOnce e keys rs g db one new =
      let n = min g.amount (balance e.user_id db) in
      Ensures-seq (insert_payment ids e PaymentKind.refund none) (refund_inserted ids e keys rs)
        (λ _ db'. (db'.ledger ≡ db.ledger) × (db'.wallets ≡ db.wallets)) (TookOnce n) db
        (insert_payment-Keeps ids keys e PaymentKind.refund none db)
        (λ pid db' (l, w).
          refund_inserted-TookOnce e keys rs pid g n db' (ap (grants_under e.user_id keys) l ∙ one)
            (ap (find_tx e.user_id (reversal_key g.idempotency_key)) l ∙ new) (rw w refl))

  -- A refund that finds nothing on its user's balance takes nothing and writes no reversal: wallets and
  -- ledger are as before. After any calls of the wallet that neither add a grant under its keys nor
  -- write the reversal of its one grant, another report of the refund that returns and is not a
  -- duplicate delivery takes what is on the balance then, up to the amount of the grant.
  pub refund_at_zero_leaves_no_reversal :
      (e e' : Event) (keys : List String) (rs rs' : Bool) (cs : List Call) (g : LedgerTransaction)
      (db a b : Db) (o o' : RefundOutcome)
      → has_product PaymentKind.refund e.product_id ≡ true
      → balance e.user_id db ≡ 0
      → record_refund ids e keys rs db ≡ (ok o, a)
      → grants_under e.user_id keys (run_calls ids cs a).ledger ≡ g ∷ []
      → find_tx e.user_id (reversal_key g.idempotency_key) (run_calls ids cs a).ledger ≡ none
      → e'.user_id ≡ e.user_id
      → record_refund ids e' keys rs' (run_calls ids cs a) ≡ (ok o', b)
      → o'.status ≡ PaymentStatus.refunded
      → (o.credits_revoked ≡ 0)
        × (a.ledger ≡ db.ledger)
        × (a.wallets ≡ db.wallets)
        × (o'.credits_revoked ≡ min g.amount (balance e.user_id (run_calls ids cs a)))
  refund_at_zero_leaves_no_reversal e e' keys rs rs' cs g db a b o o' h zero_balance first one new
        same_user second fresh =
      let later : Db = run_calls ids cs a in
      let (z, l, w) = rw first at (refund_at_zero ids e keys rs db h zero_balance) in
      let takes =
        record_refund-TookOnce e' keys rs' g later
          (ap (λ u. grants_under u keys later.ledger) same_user ∙ one)
          (ap (λ u. find_tx u (reversal_key g.idempotency_key) later.ledger) same_user ∙ new) in
      (z, l, w, (rw second at takes) fresh ∙ ap (λ u. min g.amount (balance u later)) same_user)
