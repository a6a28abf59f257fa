-- ===== src/Examples/Runs.antt =====
-- The theorems about src/app/generation/service.py and src/app/policy at concrete inputs.
use ai_text.Prelude.{ℕ, some, ◌≡◌, ◌↔◌, refl, true, none, List, [], ◌∷◌, ◌≢◌}
use ai_text.Database.{Db, Payload, Json, GenerationStatus, BillingKind, SubscriptionStatus}
use ai_text.Action.{ok}
use ai_text.Action.Ensures.{Ensures}
use ai_text.Wallet.{balance}
use ai_text.Wallet.Ledger.{total}
use ai_text.Wallet.Reconcile.{Reconciles}
use ai_text.Policy.{PolicyState, Gate, evaluate, apply_gates, load_policy_state}
use ai_text.Policy.Access.{MayGenerate, evaluate-MayGenerate}
use ai_text.Generation.{
  Request, ProviderResult, Outcome, Provided, decide, too_many, run, settle, try_trial,
  settle_flipped,
}
use ai_text.Generation.Repository.{count_inflight, find_generation, flip_trial}
use ai_text.Generation.Billing.{SameMoney}
use ai_text.Generation.Run.{run_failed}
use ai_text.Generation.Reconcile.{run-Reconciles}
use ai_text.Generation.Again.{run_replay}
use ai_text.Generation.Trial.{Delivery, settle_all, settle_no_second_trial}
use ai_text.Examples.Data.{ids, empty, generation, subscriber}

abbrev request : Request
request = record {
  user_id = 7;
  kind = "answer";
  provider = "sources";
  model = none;
  key = "answer:1:1";
  gates = [];
  estimate = 1;
  max_inflight = 3;
  meta_max_bytes = 1000;
}

abbrev answer : ProviderResult
answer = record {
  output = Json.object "{}";
  usage = record {
    model = "m";
    input_tokens = 5;
    output_tokens = 6;
    units = 1;
    unit_kind = "answer";
  };
  provider_ref = some "job-1";
}

abbrev size : Payload → ℕ
size p = 2

abbrev alone : Db → Db
alone db = db

empty-Reconciles : Reconciles empty
unfolding balance total
empty-Reconciles = record { at = λ u. refl }

run-Reconciles_example :
    Reconciles (run ids request size (Provided.delivered answer 2) alone empty).1
run-Reconciles_example =
    run-Reconciles ids request size (Provided.delivered answer 2) alone empty (λ d h. h)
      empty-Reconciles

run_failed_example :
    SameMoney
      (subscriber GenerationStatus.failed)
      (run ids request size
        (Provided.failed "timeout")
        alone
        (subscriber GenerationStatus.failed)).1
run_failed_example =
    run_failed ids request size "timeout" alone (subscriber GenerationStatus.failed)
      (λ d. (refl, refl))

abbrev poor : Db
poor = record (subscriber GenerationStatus.failed) { wallets = [] }

run_replay_example :
    run ids request size (Provided.delivered answer 2) alone (subscriber GenerationStatus.succeeded)
    ≡ (
      ok (
          Outcome.replayed
            (generation GenerationStatus.succeeded)
            (balance 7 (subscriber GenerationStatus.succeeded))),
      subscriber GenerationStatus.succeeded,
    )
unfolding decide load_policy_state evaluate apply_gates too_many count_inflight find_generation
run_replay_example =
    run_replay ids request size (Provided.delivered answer 2) alone
      (subscriber GenerationStatus.succeeded) (generation GenerationStatus.succeeded) refl refl refl
      refl

abbrev tried : Db
tried = record empty { users = (7, true) ∷ [] }

first_trial :
    settle ids 7 3 2 BillingKind.trial empty
    ≡ (ok (record { billing_kind = BillingKind.trial; charged = 0; ledger_tx_id = none }), tried)
unfolding settle try_trial flip_trial settle_flipped
first_trial = refl

-- Another user's trial, and a debit of the same user.
abbrev others_since : List Delivery
others_since =
    record { user_id = 8; gid = 5; credits = 2; decision_kind = BillingKind.trial }
    ∷ record { user_id = 7; gid = 6; credits = 2; decision_kind = BillingKind.credits }
    ∷ []

settle_no_second_trial_example :
    Ensures
      (settle ids 7 4 2 BillingKind.trial (settle_all ids others_since tried))
      (λ s' _. s'.billing_kind ≢ BillingKind.trial)
settle_no_second_trial_example =
    settle_no_second_trial ids 7 3 4 2 2 BillingKind.trial BillingKind.trial others_since empty
      tried (record { billing_kind = BillingKind.trial; charged = 0; ledger_tx_id = none })
      first_trial refl

abbrev rich : PolicyState
rich = record {
  subscription_status = SubscriptionStatus.active;
  trial_used = true;
  credits_balance = 4;
}

evaluate-MayGenerate_example : ((evaluate rich 3).allowed ≡ true) ↔ MayGenerate rich 3
evaluate-MayGenerate_example = evaluate-MayGenerate rich 3

abbrev open_gate : Gate
open_gate s = none
