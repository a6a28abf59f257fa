-- ===== src/Generation/Again.antt =====
-- A request that is sent again to `GenerationService.run` (src/app/generation/service.py).
use ai_text.Prelude.{ℕ, ◌≡◌, true, false, none, some, arith, ◌∙◌}
use ai_text.Database.{Uuids, Payload, Db, Generation, GenerationStatus, BillingKind}
use ai_text.Action.{already_in_progress, ok, err}
use ai_text.Action.Ensures.{bind-ok}
use ai_text.Wallet.{balance}
use ai_text.Generation.{
  Request, Outcome, Prepared, Provided, run_prepared, run, prepare, decide, gated, start, too_many,
  anchored, existing_run,
}
use ai_text.Generation.Repository.{is_inflight, anchor, get_by_key, find_generation}

existing_run_done :
    (kind : BillingKind) (g : Generation) (db : Db)
    → g.status ≡ GenerationStatus.succeeded
    → existing_run kind (some g) db ≡ (ok (Prepared.replay g), db)
unfolding existing_run
existing_run_done kind g db h = ground arith

existing_run_busy :
    (kind : BillingKind) (g : Generation) (db : Db)
    → is_inflight g.status ≡ true
    → existing_run kind (some g) db ≡ (err already_in_progress, db)
unfolding existing_run
existing_run_busy kind g db h = ground arith

module _ (ids : Uuids) where
  start_existing :
      (r : Request) (kind : BillingKind) (db : Db) (g : Generation)
      → find_generation r.user_id r.key db.generations ≡ some g
      → start ids r kind false db ≡ existing_run kind (some g) db
  unfolding start
  start_existing r kind db g found =
      bind-ok (anchor ids r.user_id r.kind r.provider r.model r.key) (anchored r kind) none db db
        (unfold anchor in ground arith)
      ∙ (unfold anchored get_by_key in rw found)

  -- A request under the key of a generation that has succeeded, if the policy and the inflight guard
  -- let it pass, returns that generation with the current balance. The provider is not called and
  -- the database does not change.
  pub run_replay :
      (r : Request) (encoded_bytes : Payload → ℕ) (provided : Provided) (world : Db → Db) (db : Db)
      (g : Generation)
      → (decide r db).allowed ≡ true
      → too_many r db ≡ false
      → find_generation r.user_id r.key db.generations ≡ some g
      → g.status ≡ GenerationStatus.succeeded
      → run ids r encoded_bytes provided world db
        ≡ (ok (Outcome.replayed g (balance r.user_id db)), db)
  unfolding run run_prepared prepare gated
  run_replay r encoded_bytes provided world db g allowed free found done = rw (
    allowed,
    free,
    start_existing r (decide r db).billing_kind db g found,
    existing_run_done (decide r db).billing_kind g db done,
  )

  -- A request under the key of a generation that is still running is refused, and the database does
  -- not change.
  pub run_in_progress :
      (r : Request) (encoded_bytes : Payload → ℕ) (provided : Provided) (world : Db → Db) (db : Db)
      (g : Generation)
      → (decide r db).allowed ≡ true
      → too_many r db ≡ false
      → find_generation r.user_id r.key db.generations ≡ some g
      → is_inflight g.status ≡ true
      → run ids r encoded_bytes provided world db ≡ (err already_in_progress, db)
  unfolding run run_prepared prepare gated
  run_in_progress r encoded_bytes provided world db g allowed free found busy = rw (
    allowed,
    free,
    start_existing r (decide r db).billing_kind db g found,
    existing_run_busy (decide r db).billing_kind g db busy,
  )
