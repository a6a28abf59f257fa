-- ===== src/Payments/Refund/Covered.antt =====
-- `record_refund` (src/app/billing/payments.py) while the balance covers what is refunded: every
-- grant is reversed.
use ai_text.Prelude.{
  ℕ, ◌+◌, ◌≤◌, ◌<◌, min, ◌≡◌, refl, ◌∙◌, ap, subst, sym, String, Bool, true, false, Option, none,
  some, List, [], ◌∷◌, ◌++◌, arith, All, ltb, ==-refl,
}
use ai_text.Database.{Uuids, Payload, credit, LedgerTransaction, Db, PaymentKind, PaymentStatus}
use ai_text.Action.Ensures.{
  Ensures, Ensures-seq, Ensures-eq, Returns, Returns-seq, Returns-mono, Returns-and,
  Returns-Ensures,
}
use ai_text.Wallet.{balance, find_tx, consume, same_type}
use ai_text.Wallet.Contract.{Consumed, consume-Returns}
use ai_text.Wallet.Journal.{IsPositive}
use ai_text.Wallet.Ledger.{find_tx-append}
use ai_text.Payments.{Event, RefundOutcome, insert_payment}
use ai_text.Payments.Rows.{IsSome}
use ai_text.Payments.Refund.{
  Tally, no_tally, counted, reversal_key, take_back, call_consume, reverse_new, reverse,
  reverse_all, close_refund, refund_inserted, record_refund, grants_under,
}
use ai_text.Payments.Refund.Taken.{amounts}

-- The reversal of this grant is in the ledger.
abbrev pub IsReversed : ℕ → List LedgerTransaction → LedgerTransaction → Type 0
IsReversed u l g = IsSome (find_tx u (reversal_key g.idempotency_key) l)

grants_under-debit :
    (u : ℕ) (keys : List String) (l : List LedgerTransaction) (t : LedgerTransaction)
    → same_type t.type credit ≡ false
    → grants_under u keys (l ++ t ∷ []) ≡ grants_under u keys l
unfolding grants_under
grants_under-debit u keys [] t h = ground (arith, h)
grants_under-debit u keys (x ∷ l) t h = ground (arith, grants_under-debit u keys l t h)

-- Reversals stay, and no grant is added.
pub record Keeps (u : ℕ) (keys : List String) (db db' : Db) : Type 0 where
  pub reversed : (g : LedgerTransaction) → IsReversed u db.ledger g → IsReversed u db'.ledger g
  pub grants : grants_under u keys db'.ledger ≡ grants_under u keys db.ledger

Keeps-trans :
    (u : ℕ) (keys : List String) (a b c : Db)
    → Keeps u keys a b
    → Keeps u keys b c
    → Keeps u keys a c
Keeps-trans u keys a b c h k = record {
  reversed = λ g r. k.reversed g (h.reversed g r);
  grants = k.grants ∙ h.grants;
}

-- One step of the loop.
record Reverses (u : ℕ) (keys : List String) (g : LedgerTransaction) (db db' : Db) : Type 0 where
  pub done : IsReversed u db'.ledger g
  pub keeps : Keeps u keys db db'
  pub left : balance u db ≤ balance u db' + g.amount

module _ (ids : Uuids) (keys : List String) where
  consume-keeps_tx :
      (u v amount : ℕ) (k key reason : String) (meta : Payload) (gid : Option ℕ) (db : Db)
      → IsSome (find_tx v k db.ledger)
      → Ensures
          (consume ids u amount key reason meta gid db)
          (λ _ db'. IsSome (find_tx v k db'.ledger))
  unfolding consume
  consume-keeps_tx u v amount k key reason meta gid db h = grind (arith, find_tx-append)

  consume-keeps_grants :
      (u v amount : ℕ) (key reason : String) (meta : Payload) (gid : Option ℕ) (db : Db)
      → Ensures
          (consume ids u amount key reason meta gid db)
          (λ _ db'. grants_under v keys db'.ledger ≡ grants_under v keys db.ledger)
  unfolding consume
  consume-keeps_grants u v amount key reason meta gid db = grind (arith, grants_under-debit)

  consume-Keeps :
      (u v amount : ℕ) (key reason : String) (meta : Payload) (gid : Option ℕ) (db : Db)
      → Ensures (consume ids u amount key reason meta gid db) (λ _ db'. Keeps v keys db db')
  consume-Keeps u v amount key reason meta gid db =
      Ensures-eq (consume ids u amount key reason meta gid db) (λ _ db'. Keeps v keys db db')
        (λ c db' e. record {
          reversed = λ g r. rw e at (
              consume-keeps_tx u v amount (reversal_key g.idempotency_key) key reason meta gid db
                r);
          grants = rw e at (consume-keeps_grants u v amount key reason meta gid db);
        })

  take_back-Reverses :
      (b : Bool) (e : Event) (pid : ℕ) (g : LedgerTransaction) (take : ℕ) (t : Tally) (db : Db)
      → ltb 0 take ≡ b
      → 0 < g.amount
      → take ≡ g.amount
      → g.amount ≤ balance e.user_id db
      → find_tx e.user_id (reversal_key g.idempotency_key) db.ledger ≡ none
      → Returns
          (take_back ids b e pid g.idempotency_key g.amount take t db)
          (λ _ db'. Reverses e.user_id keys g db db')
  unfolding take_back call_consume
  take_back-Reverses false e pid g take t db test pos full covered new = absurd (ground arith)
  take_back-Reverses true e pid g take t db test pos full covered new =
      Returns-seq (call_consume ids e pid g.idempotency_key take) (counted g.amount take t)
        (λ c db'.
          (Consumed e.user_id take (reversal_key g.idempotency_key) db c db' × (c.replay ≡ false))
          × Keeps e.user_id keys db db')
        (λ _ db'. Reverses e.user_id keys g db db') db
        (Returns-and (call_consume ids e pid g.idempotency_key take db) _ _
          (consume-Returns ids e.user_id take (reversal_key g.idempotency_key) _ _ _ db
            (omega arith) new (omega arith))
          (consume-Keeps e.user_id e.user_id take (reversal_key g.idempotency_key) _ _ _ db))
        (λ c db' ((h, fresh), keeps). record {
          done = ground (arith, h.recorded);
          keeps = keeps;
          left = ground (arith, h.balances e.user_id, fresh, ==-refl e.user_id);
        })

  reverse-Reverses :
      (e : Event) (pid : ℕ) (g : LedgerTransaction) (t : Tally) (db : Db)
      → 0 < g.amount
      → g.amount ≤ balance e.user_id db
      → Returns (reverse ids e pid g t db) (λ _ db'. Reverses e.user_id keys g db db')
  unfolding reverse
  reverse-Reverses e pid g t db pos covered =
      by_key (find_tx e.user_id (reversal_key g.idempotency_key) db.ledger) refl
    where
      by_key :
          (already : Option LedgerTransaction)
          → find_tx e.user_id (reversal_key g.idempotency_key) db.ledger ≡ already
          → Returns
              (reverse_new ids e pid g t already db)
              (λ _ db'. Reverses e.user_id keys g db db')
      by_key (some already) h =
          unfold reverse_new in
          record {
            done = rw h tt;
            keeps = record { reversed = λ g r. r; grants = refl };
            left = omega arith;
          }
      by_key none h =
          unfold reverse_new in
          take_back-Reverses _ e pid g (min g.amount (balance e.user_id db)) t db refl pos
            (omega (arith, covered)) covered h

  -- The whole loop, over any of the grants.
  abbrev Reversed : ℕ → List LedgerTransaction → Db → Db → Type 0
  Reversed u gs db db' = All (IsReversed u db'.ledger) gs × Keeps u keys db db'

  reverse_all-Reversed :
      (e : Event) (pid : ℕ) (gs : List LedgerTransaction) (t : Tally) (db : Db)
      → All IsPositive gs
      → amounts gs ≤ balance e.user_id db
      → Returns (reverse_all ids e pid gs t db) (λ _ db'. Reversed e.user_id gs db db')
  unfolding reverse_all amounts
  reverse_all-Reversed e pid [] t db pos covered =
      (tt, record { reversed = λ g r. r; grants = refl })
  reverse_all-Reversed e pid (g ∷ gs) t db pos covered =
      Returns-seq (reverse ids e pid g t) (reverse_all ids e pid gs)
        (λ _ db'. Reverses e.user_id keys g db db') (λ _ db'. Reversed e.user_id (g ∷ gs) db db') db
        (reverse-Reverses e pid g t db pos.0 (omega (arith, covered)))
        (λ t' db' h.
          Returns-mono (reverse_all ids e pid gs t' db') (λ _ db''. Reversed e.user_id gs db' db'')
            (λ _ db''. Reversed e.user_id (g ∷ gs) db db'')
            (λ t'' db'' (done, keeps). (
              (keeps.reversed g h.done, done),
              Keeps-trans e.user_id keys db db' db'' h.keeps keeps,
            ))
            (reverse_all-Reversed e pid gs t' db' pos.1 (omega (arith, covered, h.left))))

  close_refund-ledger :
      (e : Event) (rs : Bool) (pid : ℕ) (gs : List LedgerTransaction) (t : Tally) (db : Db)
      → Returns (close_refund ids e rs pid gs t db) (λ _ db'. db'.ledger ≡ db.ledger)
  unfolding close_refund
  close_refund-ledger e true pid gs t db = grind arith
  close_refund-ledger e false pid gs t db = grind arith

  -- What a refund that is not a duplicate has done.
  abbrev pub AllReversed : ℕ → List LedgerTransaction → RefundOutcome → Db → Type 0
  AllReversed u gs o db' =
      o.status ≡ PaymentStatus.refunded
      → All (IsReversed u db'.ledger) gs × (grants_under u keys db'.ledger ≡ gs)

  close_refund-AllReversed :
      (e : Event) (rs : Bool) (pid : ℕ) (t : Tally) (db db' : Db)
      → Reversed e.user_id (grants_under e.user_id keys db.ledger) db db'
      → Returns
          (close_refund ids e rs pid (grants_under e.user_id keys db.ledger) t db')
          (AllReversed e.user_id (grants_under e.user_id keys db.ledger))
  close_refund-AllReversed e rs pid t db db' (done, keeps) =
      let gs = grants_under e.user_id keys db.ledger in
      Returns-mono (close_refund ids e rs pid gs t db') (λ _ db''. db''.ledger ≡ db'.ledger)
        (AllReversed e.user_id gs)
        (λ o db'' same _. (
          subst (λ l. All (IsReversed e.user_id l) gs) (sym same) done,
          ap (grants_under e.user_id keys) same ∙ keeps.grants,
        ))
        (close_refund-ledger e rs pid gs t db')

  refund_inserted-AllReversed :
      (e : Event) (rs : Bool) (pid : Option ℕ) (db : Db)
      → All IsPositive (grants_under e.user_id keys db.ledger)
      → amounts (grants_under e.user_id keys db.ledger) ≤ balance e.user_id db
      → Returns
          (refund_inserted ids e keys rs pid db)
          (AllReversed e.user_id (grants_under e.user_id keys db.ledger))
  unfolding refund_inserted
  refund_inserted-AllReversed e rs none db pos covered = λ new. absurd (cc)
  refund_inserted-AllReversed e rs (some pid) db pos covered =
      let gs = grants_under e.user_id keys db.ledger in
      Returns-seq (reverse_all ids e pid gs no_tally) (close_refund ids e rs pid gs)
        (λ _ db'. Reversed e.user_id gs db db') (AllReversed e.user_id gs) db
        (reverse_all-Reversed e pid gs no_tally db pos covered)
        (λ t db' h. close_refund-AllReversed e rs pid t db db' h)

  pub insert_payment-Keeps :
      (e : Event) (kind : PaymentKind) (key : Option String) (db : Db)
      → Ensures
          (insert_payment ids e kind key db)
          (λ _ db'. (db'.ledger ≡ db.ledger) × (db'.wallets ≡ db.wallets))
  unfolding insert_payment
  insert_payment-Keeps e kind key db = grind arith

  -- A refund that its user's balance covers, unless it is a duplicate delivery, reverses every grant.
  pub record_refund-AllReversed :
      (e : Event) (rs : Bool) (db : Db)
      → All IsPositive (grants_under e.user_id keys db.ledger)
      → amounts (grants_under e.user_id keys db.ledger) ≤ balance e.user_id db
      → Ensures
          (record_refund ids e keys rs db)
          (AllReversed e.user_id (grants_under e.user_id keys db.ledger))
  unfolding record_refund balance
  record_refund-AllReversed e rs db pos covered =
      let gs = grants_under e.user_id keys db.ledger in
      Ensures-seq (insert_payment ids e PaymentKind.refund none) (refund_inserted ids e keys rs)
        (λ _ db'. (db'.ledger ≡ db.ledger) × (db'.wallets ≡ db.wallets)) (AllReversed e.user_id gs)
        db (insert_payment-Keeps e PaymentKind.refund none db)
        (λ pid db' (l, w).
          Returns-Ensures (refund_inserted ids e keys rs pid db') (AllReversed e.user_id gs) (
            subst
              (λ x.
                Returns (refund_inserted ids e keys rs pid db')
                  (AllReversed e.user_id (grants_under e.user_id keys x)))
              l
              (refund_inserted-AllReversed e rs pid db'
                (subst (λ x. All IsPositive (grants_under e.user_id keys x)) (sym l) pos)
                (rw (l, w) covered))))
