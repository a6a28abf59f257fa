-- ===== src/Generation/Run.antt =====
-- `GenerationService.run` (src/app/generation/service.py): blocks, failed calls of the provider, and
-- the part before the provider is called.
use ai_text.Prelude.{
  ℕ, String, ◌≡◌, refl, Bool, true, false, Option, none, some, arith, if◌then◌else◌, ◌∙◌,
}
use ai_text.Database.{Uuids, Payload, Db, Generation, BillingKind}
use ai_text.Action.{Result, ok, err, transaction}
use ai_text.Action.Ensures.{Ensures, Ensures-seq, Ensures-mono, transaction-Ensures}
use ai_text.Policy.{Decision}
use ai_text.Wallet.{balance}
use ai_text.Wallet.Reconcile.{Reconciles}
use ai_text.Generation.{
  Request, Outcome, Prepared, Provided, fail_run, after_provider, run_prepared, run, prepare,
  decide, gated, start, too_many, on_blocked, anchored, existing_run, reason_of,
}
use ai_text.Generation.Billing.{SameMoney}
use ai_text.Generation.Repository.{fail, anchor, get_by_key, retry}

SameMoney-trans : (a b c : Db) → SameMoney a b → SameMoney b c → SameMoney a c
SameMoney-trans a b c (w, l) (w', l') = (w' ∙ w, l' ∙ l)

pub SameMoney-Reconciles : (a b : Db) → SameMoney a b → Reconciles a → Reconciles b
unfolding balance
SameMoney-Reconciles a b (w, l) h = record { at = λ u. rw (w, l) (h.at u) }

existing_run-SameMoney :
    (kind : BillingKind) (g : Option Generation) (db : Db)
    → Ensures (existing_run kind g db) (λ _ db'. SameMoney db db')
unfolding existing_run retry
existing_run-SameMoney kind none db = tt
existing_run-SameMoney kind (some g) db = ground arith

anchored-SameMoney :
    (r : Request) (kind : BillingKind) (gid : Option ℕ) (db : Db)
    → Ensures (anchored r kind gid db) (λ _ db'. SameMoney db db')
unfolding anchored
anchored-SameMoney r kind (some gid) db = (refl, refl)
anchored-SameMoney r kind none db = existing_run-SameMoney kind (get_by_key r.user_id r.key db) db

module _ (ids : Uuids) where
  start-SameMoney :
      (r : Request) (kind : BillingKind) (full : Bool) (db : Db)
      → Ensures (start ids r kind full db) (λ _ db'. SameMoney db db')
  unfolding start
  start-SameMoney r kind true db = tt
  start-SameMoney r kind false db =
      Ensures-seq (anchor ids r.user_id r.kind r.provider r.model r.key) (anchored r kind)
        (λ _ db'. SameMoney db db') (λ _ db'. SameMoney db db') db (unfold anchor in ground arith)
        (λ gid db' same.
          Ensures-mono (anchored r kind gid db') (λ _ db''. SameMoney db' db'')
            (λ _ db''. SameMoney db db'') (λ _ db'' same'. SameMoney-trans db db' db'' same same')
            (anchored-SameMoney r kind gid db'))

  -- Nothing is moved before the provider is called.
  pub prepare-SameMoney : (r : Request) (db : Db) → SameMoney db (transaction (prepare ids r) db).1
  unfolding prepare gated
  prepare-SameMoney r db =
      transaction-Ensures (SameMoney db) (prepare ids r) db (refl, refl)
        (by_decision (decide r db) (decide r db).allowed)
    where
      by_decision :
          (d : Decision) (b : Bool)
          → Ensures
              ((if b
                  then start ids r d.billing_kind (too_many r db)
                  else on_blocked r (reason_of d.block_reason))
                db)
              (λ _ db'. SameMoney db db')
      by_decision d true = start-SameMoney r d.billing_kind (too_many r db) db
      by_decision d false = unfold on_blocked in (refl, refl)

  -- The call of a provider that fails.
  pub after_failure-SameMoney :
      (r : Request) (gid : ℕ) (code : String) (db : Db) → SameMoney db (fail_run r gid code db).1
  unfolding fail_run fail
  after_failure-SameMoney r gid code db = (refl, refl)

  run_prepared_failed :
      (r : Request) (encoded_bytes : Payload → ℕ) (code : String) (world : Db → Db) (db : Db)
      (x : Result Prepared × Db)
      → ((d : Db) → SameMoney d (world d))
      → SameMoney db x.1
      → SameMoney db (run_prepared ids r encoded_bytes (Provided.failed code) world x).1
  unfolding run_prepared after_provider
  run_prepared_failed r encoded_bytes code world db (err e, d) keep same = same
  run_prepared_failed r encoded_bytes code world db (ok (Prepared.blocked reason), d) keep same =
      same
  run_prepared_failed r encoded_bytes code world db (ok (Prepared.replay g), d) keep same = same
  run_prepared_failed r encoded_bytes code world db (ok (Prepared.ready gid kind), d) keep same =
      SameMoney-trans db (world d) (fail_run r gid code (world d)).1
        (SameMoney-trans db d (world d) same (keep d))
        (after_failure-SameMoney r gid code (world d))

  -- A run whose provider fails moves no credits of anybody and writes no row of the ledger, if
  -- nobody else does so while it runs.
  pub run_failed :
      (r : Request) (encoded_bytes : Payload → ℕ) (code : String) (world : Db → Db) (db : Db)
      → ((d : Db) → SameMoney d (world d))
      → SameMoney db (run ids r encoded_bytes (Provided.failed code) world db).1
  unfolding run
  run_failed r encoded_bytes code world db keep =
      run_prepared_failed r encoded_bytes code world db (transaction (prepare ids r) db) keep
        (prepare-SameMoney r db)

  -- A request that the policy blocks is answered with its reason whatever the provider would do. It
  -- leaves the generations, the balances and the ledger as they were.
  pub run_blocked :
      (r : Request) (encoded_bytes : Payload → ℕ) (provided : Provided) (world : Db → Db) (db : Db)
      → (decide r db).allowed ≡ false
      → let done = run ids r encoded_bytes provided world db in
        (done.0 ≡ ok (Outcome.blocked (reason_of (decide r db).block_reason)))
        × (done.1.generations ≡ db.generations)
        × SameMoney db done.1
  unfolding run run_prepared prepare gated on_blocked
  run_blocked r encoded_bytes provided world db h = rw h (refl, refl, (refl, refl))
