-- ===== src/Generation/Reconcile.antt =====
-- `GenerationService.run` (src/app/generation/service.py) and the wallet: balances and ledger.
use ai_text.Prelude.{ℕ, Bool, true, false, some, leb, if◌then◌else◌}
use ai_text.Database.{Uuids, Payload, Db, BillingKind}
use ai_text.Action.{insufficient_credits, Result, ok, err, transaction, pure}
use ai_text.Action.Ensures.{Ensures, Ensures-seq, transaction-Ensures, Ensures-transaction}
use ai_text.Wallet.{ConsumeResult, consume}
use ai_text.Wallet.Reconcile.{Reconciles, consume-Reconciles}
use ai_text.Generation.{
  Request, ProviderResult, Settlement, Prepared, Provided, try_trial, debit_run, settled_by,
  settle_flipped, settle, unbilled, complete_settled, report_success, completion, complete,
  fail_run, after_provider, run_prepared, run, prepare, debit_key,
}
use ai_text.Generation.Billing.{SameMoney, try_trial-SameMoney, finalize-SameMoney}
use ai_text.Generation.Repository.{finalize}
use ai_text.Generation.Run.{SameMoney-Reconciles, prepare-SameMoney, after_failure-SameMoney}

module _ (ids : Uuids) where
  debit_run-Reconciles :
      (u gid credits : ℕ) (db : Db)
      → Reconciles db
      → Ensures (debit_run ids u gid credits db) (λ _ db'. Reconciles db')
  unfolding debit_run
  debit_run-Reconciles u gid credits db h =
      by_result (consume ids u credits (debit_key ids gid) "generation" _ (some gid) db) (
        Ensures-transaction Reconciles
          (consume ids u credits (debit_key ids gid) "generation" _ (some gid)) db
          (consume-Reconciles ids u credits (debit_key ids gid) "generation" _ (some gid) db h))
    where
      by_result :
          (x : Result ConsumeResult × Db)
          → Ensures x (λ _ db'. Reconciles db')
          → Ensures (settled_by credits db x) (λ _ db'. Reconciles db')
      by_result (ok c, db') k = unfold settled_by in k
      by_result (err insufficient_credits, db') k = unfold settled_by in h
      by_result (err e, db') k = unfold settled_by in tt

  settle_flipped-Reconciles :
      (u gid credits : ℕ) (flipped : Bool) (db : Db)
      → Reconciles db
      → Ensures (settle_flipped ids u gid credits flipped db) (λ _ db'. Reconciles db')
  unfolding settle_flipped
  settle_flipped-Reconciles u gid credits true db h = h
  settle_flipped-Reconciles u gid credits false db h = by_price (leb credits 0)
    where
      by_price :
          (b : Bool)
          → Ensures
              ((if b then pure unbilled else debit_run ids u gid credits) db)
              (λ _ db'. Reconciles db')
      by_price true = h
      by_price false = debit_run-Reconciles u gid credits db h

  complete_settled-Reconciles :
      (r : Request) (encoded_bytes : Payload → ℕ) (gid : ℕ) (p : ProviderResult) (s : Settlement)
      (db : Db)
      → Reconciles db
      → Ensures (complete_settled ids r encoded_bytes gid p s db) (λ _ db'. Reconciles db')
  unfolding complete_settled report_success
  complete_settled-Reconciles r encoded_bytes gid p s db h =
      Ensures-seq (finalize gid (completion ids r encoded_bytes p s))
        (λ _. report_success ids r gid p s) (λ _ db'. SameMoney db db') (λ _ db'. Reconciles db') db
        (finalize-SameMoney gid (completion ids r encoded_bytes p s) db)
        (λ _ db' same. SameMoney-Reconciles db _ same h)

  complete-Reconciles :
      (r : Request) (encoded_bytes : Payload → ℕ) (gid : ℕ) (kind : BillingKind)
      (p : ProviderResult) (credits : ℕ) (db : Db)
      → Reconciles db
      → Reconciles (transaction (complete ids r encoded_bytes gid kind p credits) db).1
  unfolding complete settle
  complete-Reconciles r encoded_bytes gid kind p credits db h =
      transaction-Ensures Reconciles (complete ids r encoded_bytes gid kind p credits) db h (
        Ensures-seq (settle ids r.user_id gid credits kind)
          (complete_settled ids r encoded_bytes gid p) (λ _ db'. Reconciles db')
          (λ _ db'. Reconciles db') db
          (Ensures-seq (try_trial r.user_id kind) (settle_flipped ids r.user_id gid credits)
            (λ _ db'. SameMoney db db') (λ _ db'. Reconciles db') db
            (try_trial-SameMoney r.user_id kind db)
            (λ f db' same.
              settle_flipped-Reconciles r.user_id gid credits f db'
                (SameMoney-Reconciles db db' same h)))
          (λ s db' k. complete_settled-Reconciles r encoded_bytes gid p s db' k))

  run_prepared-Reconciles :
      (r : Request) (encoded_bytes : Payload → ℕ) (provided : Provided) (world : Db → Db)
      (x : Result Prepared × Db)
      → ((d : Db) → Reconciles d → Reconciles (world d))
      → Reconciles x.1
      → Reconciles (run_prepared ids r encoded_bytes provided world x).1
  unfolding run_prepared after_provider
  run_prepared-Reconciles r encoded_bytes provided world (err e, d) keep h = h
  run_prepared-Reconciles r encoded_bytes provided world (ok (Prepared.blocked reason), d) keep h =
      h
  run_prepared-Reconciles r encoded_bytes provided world (ok (Prepared.replay g), d) keep h = h
  run_prepared-Reconciles r encoded_bytes (Provided.failed code) world
        (ok (Prepared.ready gid kind), d) keep h =
      SameMoney-Reconciles (world d) (fail_run r gid code (world d)).1
        (after_failure-SameMoney ids r gid code (world d)) (keep d h)
  run_prepared-Reconciles r encoded_bytes (Provided.delivered p c) world
        (ok (Prepared.ready gid kind), d) keep h =
      complete-Reconciles r encoded_bytes gid kind p c (world d) (keep d h)

  -- Whatever a run leads to, a block, an error, a replay, a failure or a delivery, and whatever other
  -- sessions do while the provider works, every balance stays the sum of its ledger, if the other
  -- sessions keep it so.
  pub run-Reconciles :
      (r : Request) (encoded_bytes : Payload → ℕ) (provided : Provided) (world : Db → Db) (db : Db)
      → ((d : Db) → Reconciles d → Reconciles (world d))
      → Reconciles db
      → Reconciles (run ids r encoded_bytes provided world db).1
  unfolding run
  run-Reconciles r encoded_bytes provided world db keep h =
      run_prepared-Reconciles r encoded_bytes provided world (transaction (prepare ids r) db) keep
        (SameMoney-Reconciles db _ (prepare-SameMoney ids r db) h)
