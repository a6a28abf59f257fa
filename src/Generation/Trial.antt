-- ===== src/Generation/Trial.antt =====
-- The single lifetime trial (`_settle` of src/app/generation/service.py, `flip_trial` of
-- src/app/generation/repository.py).
use ai_text.Prelude.{
  ℕ, ◌≡◌, ◌≢◌, refl, Bool, true, false, some, List, [], ◌∷◌, ap, ◌∙◌, arith, lookup, lookup-insert,
  leb, if◌then◌else◌,
}
use ai_text.Database.{Uuids, Db, BillingKind}
use ai_text.Action.{insufficient_credits, Result, ok, err, pure, transaction}
use ai_text.Action.Ensures.{Ensures, Ensures-seq, Ensures-mono, transaction-Ensures}
use ai_text.Wallet.{ConsumeResult, consume}
use ai_text.Wallet.Contract.{Consumed, consume-Consumed}
use ai_text.Generation.{
  Settlement, unbilled, try_trial, debit_run, settled_by, settle_flipped, settle, debit_key,
}
use ai_text.Generation.Repository.{flip_trial}

abbrev IsUsed : ℕ → Db → Type 0
IsUsed u db = lookup u db.users ≡ some true

-- The arguments of `_settle`.
pub record Delivery : Type 0 where
  pub user_id : ℕ
  pub gid : ℕ
  pub credits : ℕ
  pub decision_kind : BillingKind

abbrev NotTrial : Settlement → Db → Type 0
NotTrial s db = s.billing_kind ≢ BillingKind.trial

try_trial-IsUsed :
    (u : ℕ) (kind : BillingKind) (db : Db)
    → Ensures (try_trial u kind db) (λ f db'. f ≡ true → IsUsed u db')
unfolding try_trial flip_trial
try_trial-IsUsed u BillingKind.trial db = λ h. grind (arith, lookup-insert)
try_trial-IsUsed u _ db = λ h. cc

try_trial_used :
    (u : ℕ) (kind : BillingKind) (db : Db)
    → IsUsed u db
    → Ensures (try_trial u kind db) (λ f _. f ≡ false)
unfolding try_trial flip_trial
try_trial_used u BillingKind.trial db h = ground arith
try_trial_used u _ db h = refl

module _ (ids : Uuids) where
  debit_run-NotTrial :
      (u gid credits : ℕ) (db : Db) → Ensures (debit_run ids u gid credits db) NotTrial
  unfolding debit_run
  debit_run-NotTrial u gid credits db =
      by_result (consume ids u credits (debit_key ids gid) "generation" _ (some gid) db)
    where
      by_result : (x : Result ConsumeResult × Db) → Ensures (settled_by credits db x) NotTrial
      by_result (ok c, db') = unfold settled_by in λ e. cc
      by_result (err insufficient_credits, db') = unfold settled_by in λ e. cc
      by_result (err e, db') = unfold settled_by in tt

  settle_flipped-NotTrial :
      (u gid credits : ℕ) (db : Db) → Ensures (settle_flipped ids u gid credits false db) NotTrial
  unfolding settle_flipped
  settle_flipped-NotTrial u gid credits db = by_price (leb credits 0)
    where
      by_price :
          (b : Bool)
          → Ensures ((if b then pure unbilled else debit_run ids u gid credits) db) NotTrial
      by_price true = λ e. cc
      by_price false = debit_run-NotTrial u gid credits db

  flipped-IsUsed :
      (u gid credits : ℕ) (f : Bool) (db : Db)
      → (f ≡ true → IsUsed u db)
      → Ensures
          (settle_flipped ids u gid credits f db)
          (λ s db'. s.billing_kind ≡ BillingKind.trial → IsUsed u db')
  flipped-IsUsed u gid credits true db h = unfold settle_flipped in λ e. h refl
  flipped-IsUsed u gid credits false db h =
      Ensures-mono (settle_flipped ids u gid credits false db) NotTrial
        (λ s db'. s.billing_kind ≡ BillingKind.trial → IsUsed u db') (λ s db' n e. absurd (n e))
        (settle_flipped-NotTrial u gid credits db)

  settle-IsUsed :
      (u gid credits : ℕ) (kind : BillingKind) (db : Db)
      → Ensures
          (settle ids u gid credits kind db)
          (λ s db'. s.billing_kind ≡ BillingKind.trial → IsUsed u db')
  unfolding settle
  settle-IsUsed u gid credits kind db =
      Ensures-seq (try_trial u kind) (settle_flipped ids u gid credits)
        (λ f db'. f ≡ true → IsUsed u db')
        (λ s db'. s.billing_kind ≡ BillingKind.trial → IsUsed u db') db (try_trial-IsUsed u kind db)
        (λ f db' h. flipped-IsUsed u gid credits f db' h)

  settle_used :
      (u gid credits : ℕ) (kind : BillingKind) (db : Db)
      → IsUsed u db
      → Ensures (settle ids u gid credits kind db) NotTrial
  unfolding settle
  settle_used u gid credits kind db h =
      Ensures-seq (try_trial u kind) (settle_flipped ids u gid credits) (λ f _. f ≡ false) NotTrial
        db (try_trial_used u kind db h)
        (λ f db' e. rw e (settle_flipped-NotTrial u gid credits db'))

  -- Settlements of any users, each in a transaction of its own.
  pub settle_all : List Delivery → Db → Db
  settle_all [] db = db
  settle_all (d ∷ ds) db =
      settle_all ds (transaction (settle ids d.user_id d.gid d.credits d.decision_kind) db).1

  try_trial-keeps_IsUsed :
      (u v : ℕ) (kind : BillingKind) (db : Db)
      → IsUsed u db
      → Ensures (try_trial v kind db) (λ _ db'. IsUsed u db')
  unfolding try_trial flip_trial
  try_trial-keeps_IsUsed u v BillingKind.trial db h = grind (arith, lookup-insert)
  try_trial-keeps_IsUsed u v _ db h = h

  debit_run-keeps_IsUsed :
      (u v gid credits : ℕ) (db : Db)
      → IsUsed u db
      → Ensures (debit_run ids v gid credits db) (λ _ db'. IsUsed u db')
  unfolding debit_run
  debit_run-keeps_IsUsed u v gid credits db h =
      by_result (consume ids v credits (debit_key ids gid) "generation" _ (some gid) db)
        (consume-Consumed ids v credits (debit_key ids gid) "generation" _ (some gid) db)
    where
      by_result :
          (x : Result ConsumeResult × Db)
          → Ensures x (Consumed v credits (debit_key ids gid) db)
          → Ensures (settled_by credits db x) (λ _ db'. IsUsed u db')
      by_result (ok c, db') k = unfold settled_by in ap (lookup u) k.frame.users ∙ h
      by_result (err insufficient_credits, db') k = unfold settled_by in h
      by_result (err e, db') k = unfold settled_by in tt

  settle_flipped-keeps_IsUsed :
      (u v gid credits : ℕ) (f : Bool) (db : Db)
      → IsUsed u db
      → Ensures (settle_flipped ids v gid credits f db) (λ _ db'. IsUsed u db')
  unfolding settle_flipped
  settle_flipped-keeps_IsUsed u v gid credits true db h = h
  settle_flipped-keeps_IsUsed u v gid credits false db h = by_price (leb credits 0)
    where
      by_price :
          (b : Bool)
          → Ensures
              ((if b then pure unbilled else debit_run ids v gid credits) db)
              (λ _ db'. IsUsed u db')
      by_price true = h
      by_price false = debit_run-keeps_IsUsed u v gid credits db h

  settle-keeps_IsUsed :
      (u v gid credits : ℕ) (kind : BillingKind) (db : Db)
      → IsUsed u db
      → Ensures (settle ids v gid credits kind db) (λ _ db'. IsUsed u db')
  unfolding settle
  settle-keeps_IsUsed u v gid credits kind db h =
      Ensures-seq (try_trial v kind) (settle_flipped ids v gid credits) (λ _ db'. IsUsed u db')
        (λ _ db'. IsUsed u db') db (try_trial-keeps_IsUsed u v kind db h)
        (λ f db' k. settle_flipped-keeps_IsUsed u v gid credits f db' k)

  settle_all-keeps_IsUsed :
      (ds : List Delivery) (u : ℕ) (db : Db) → IsUsed u db → IsUsed u (settle_all ds db)
  unfolding settle_all
  settle_all-keeps_IsUsed [] u db h = h
  settle_all-keeps_IsUsed (d ∷ ds) u db h =
      let one = settle ids d.user_id d.gid d.credits d.decision_kind in
      settle_all-keeps_IsUsed ds u (transaction one db).1 (
        transaction-Ensures (IsUsed u) one db h
          (settle-keeps_IsUsed u d.user_id d.gid d.credits d.decision_kind db h))

  -- After a generation has settled as a user's trial, and after any settlements of any users since,
  -- none of his generations settles as a trial, also one that the policy had let pass as a trial.
  pub settle_no_second_trial :
      (u gid gid' credits credits' : ℕ) (kind kind' : BillingKind) (ds : List Delivery)
      (db db' : Db) (s : Settlement)
      → settle ids u gid credits kind db ≡ (ok s, db')
      → s.billing_kind ≡ BillingKind.trial
      → Ensures
          (settle ids u gid' credits' kind' (settle_all ds db'))
          (λ s' _. s'.billing_kind ≢ BillingKind.trial)
  settle_no_second_trial u gid gid' credits credits' kind kind' ds db db' s first is_trial =
      settle_used u gid' credits' kind' (settle_all ds db') (
        settle_all-keeps_IsUsed ds u db'
          ((rw first at (settle-IsUsed u gid credits kind db)) is_trial))
