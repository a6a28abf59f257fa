-- ===== src/Generation.antt =====
-- `GenerationService.run` of src/app/generation/service.py over the rows of
-- src/app/generation/repository.py, in two transactions: `prepare` (policy gate, inflight guard,
-- anchor) up to the commit before the provider is called, and `complete` or `fail_run` after it.
-- The provider, its price and the size of its encoded output are arguments; logs and metrics are not
-- modelled.
pub mod Repository
pub mod Billing
pub mod Run
pub mod Reconcile
pub mod Again
pub mod Trial
use ai_text.Prelude.{
  ℕ, suc, ◌+◌, String, Bool, true, false, ◌&&◌, ◌||◌, Option, none, some, List, [], ◌∷◌, ◌++◌, ltb,
  leb, ◌==◌, str_eq, str_append, if◌then◌else◌, lookup, insert,
}
use ai_text.Database.{Uuids, Json, Payload, Db, Generation, GenerationStatus, BillingKind}
use ai_text.Action.{
  AppError, insufficient_credits, already_in_progress, too_many_inflight, upstream, Result, ok, err,
  Action, pure, raise, gets, ◌>>=◌, ◌>>◌, modify, transaction,
}
use ai_text.Wallet.{ConsumeResult, balance, consume, audit_log}
use ai_text.Policy.{BlockReason, Decision, Gate, evaluate, apply_gates, load_policy_state}
use Repository.{
  Usage, count_inflight, anchor, get_by_key, retry, fail, finalize, flip_trial, Completion,
}

-- The arguments of `run`, the fields of the service and the settings that it reads.
pub record Request : Type 0 where
  pub user_id : ℕ
  pub kind : String
  pub provider : String
  pub model : Option String
  pub key : String
  pub gates : List Gate
  pub estimate : ℕ
  pub max_inflight : ℕ
  pub meta_max_bytes : ℕ

pub record ProviderResult : Type 0 where
  pub output : Json
  pub usage : Usage
  pub provider_ref : Option String

pub data Outcome : Type 0 where
  blocked : BlockReason → Outcome
  replayed : Generation → ℕ → Outcome
  succeeded : ℕ → Json → ℕ → BillingKind → ℕ → Outcome

-- What the first transaction leads to: the generation to run, under the id of its anchor.
pub data Prepared : Type 0 where
  blocked : BlockReason → Prepared
  replay : Generation → Prepared
  ready : ℕ → BillingKind → Prepared

abbrev pub reason_of : Option BlockReason → BlockReason
reason_of none = BlockReason.policy_denied
reason_of (some r) = r

abbrev pub reason_text : BlockReason → String
reason_text BlockReason.trial_used = "trial_used"
reason_text BlockReason.subscription_required = "subscription_required"
reason_text BlockReason.subscription_expired = "subscription_expired"
reason_text BlockReason.credits_empty = "credits_empty"
reason_text BlockReason.policy_denied = "policy_denied"
reason_text BlockReason.rate_limited = "rate_limited"

-- Step 1.
unfoldable pub decide : Request → Db → Decision
decide r db =
    let state = load_policy_state r.user_id db in
    apply_gates r.gates (evaluate state r.estimate) state

unfoldable pub on_blocked : Request → BlockReason → Action Prepared
unfolding audit_log
on_blocked r reason = do
  b ← gets (balance r.user_id)
  audit_log "policy_blocked" r.user_id none (
      ("blockReason", Json.text (reason_text reason))
      ∷ ("requiredCredits", Json.int r.estimate)
      ∷ ("balance", Json.int b)
      ∷ [])
  pure (Prepared.blocked reason)

-- Step 2, when the key exists.
unfoldable pub existing_run : BillingKind → Option Generation → Action Prepared
existing_run kind none = raise already_in_progress
existing_run kind (some g) = elim g.status [
  | GenerationStatus.succeeded ↦ pure (Prepared.replay g)
  | GenerationStatus.pending ↦ raise already_in_progress
  | GenerationStatus.running ↦ raise already_in_progress
  | GenerationStatus.failed ↦ retry g.id >> pure (Prepared.ready g.id kind)
  | GenerationStatus.canceled ↦ retry g.id >> pure (Prepared.ready g.id kind)
]

unfoldable pub anchored : Request → BillingKind → Option ℕ → Action Prepared
anchored r kind (some gid) = pure (Prepared.ready gid kind)
anchored r kind none = do existing ← gets (get_by_key r.user_id r.key); existing_run kind existing

unfoldable pub too_many : Request → Db → Bool
too_many r db = ltb 0 r.max_inflight && leb r.max_inflight (count_inflight r.user_id db)

pub record Settlement : Type 0 where
  pub billing_kind : BillingKind
  pub charged : ℕ
  pub ledger_tx_id : Option ℕ

abbrev pub unbilled : Settlement
unbilled = record { billing_kind = BillingKind.unbilled; charged = 0; ledger_tx_id = none }

-- The `try` around `wallet.consume`: `rollback()` goes back to the start of the transaction.
unfoldable pub settled_by : ℕ → Db → Result ConsumeResult × Db → Result Settlement × Db
settled_by credits before (ok c, db) = (
  ok (record {
    billing_kind = BillingKind.credits;
    charged = credits;
    ledger_tx_id = some c.tx_id;
  }),
  db,
)
settled_by credits before (err insufficient_credits, db) = (ok unbilled, before)
settled_by credits before (err e, db) = (err e, db)

-- `decision_kind is BillingKind.trial and await self._repo.flip_trial(user_id)`
unfoldable pub try_trial : ℕ → BillingKind → Action Bool
try_trial user_id BillingKind.trial = flip_trial user_id
try_trial user_id _ = pure false

unfoldable pub meta_of : Request → (Payload → ℕ) → ProviderResult → Payload
meta_of r encoded_bytes p =
    let payload = ("output", p.output) ∷ [] in
    if ltb r.meta_max_bytes (encoded_bytes payload)
    then ("truncated", Json.flag true)
      ∷ ("outputBytes", Json.int (encoded_bytes payload))
      ∷ ("providerRef", elim p.provider_ref [ none ↦ Json.null | some s ↦ Json.text s ])
      ∷ []
    else payload

-- What the provider did: an error code, or a result with its price.
pub data Provided : Type 0 where
  failed : String → Provided
  delivered : ProviderResult → ℕ → Provided

-- The handler of `ProviderError`, up to its commit.
unfoldable pub fail_run : Request → ℕ → String → Action (Unit {0})
unfolding audit_log
fail_run r gid code = do
  fail gid code
  audit_log "generation_failed" r.user_id (some gid) (
      ("kind", Json.text r.kind)
      ∷ ("provider", Json.text r.provider)
      ∷ ("errorCode", Json.text code)
      ∷ [])

module _ (ids : Uuids) where
  -- Steps 1.5 and 2.
  unfoldable pub start : Request → BillingKind → Bool → Action Prepared
  start r kind true = raise too_many_inflight
  start r kind false = do
    gen_id ← anchor ids r.user_id r.kind r.provider r.model r.key
    anchored r kind gen_id

  unfoldable pub gated : Request → Decision → Bool → Action Prepared
  gated r decision full =
      if decision.allowed
      then start r decision.billing_kind full
      else on_blocked r (reason_of decision.block_reason)

  unfoldable pub prepare : Request → Action Prepared
  prepare r db = gated r (decide r db) (too_many r db) db

  abbrev pub debit_key : ℕ → String
  debit_key gid = str_append "generation:" (ids.text gid)

  unfoldable pub debit_run : ℕ → ℕ → ℕ → Action Settlement
  unfolding settled_by
  debit_run user_id gid credits db = settled_by credits db (
      consume ids user_id credits (debit_key gid) "generation"
        (("generationId", Json.text (ids.text gid)) ∷ []) (some gid) db)

  unfoldable pub settle_flipped : ℕ → ℕ → ℕ → Bool → Action Settlement
  settle_flipped user_id gid credits true =
      pure (record { billing_kind = BillingKind.trial; charged = 0; ledger_tx_id = none })
  settle_flipped user_id gid credits false =
      if leb credits 0 then pure unbilled else debit_run user_id gid credits

  -- `_settle`
  unfoldable pub settle : ℕ → ℕ → ℕ → BillingKind → Action Settlement
  settle user_id gid credits decision_kind = do
    flipped ← try_trial user_id decision_kind
    settle_flipped user_id gid credits flipped

  unfoldable pub report_success : Request → ℕ → ProviderResult → Settlement → Action Outcome
  unfolding audit_log
  report_success r gid p s = do
    audit_log "generation_succeeded" r.user_id (some gid) (
        ("kind", Json.text r.kind)
        ∷ ("provider", Json.text r.provider)
        ∷ ("model", elim r.model [ none ↦ Json.null | some m ↦ Json.text m ])
        ∷ ("creditsCharged", Json.int s.charged)
        ∷ ("units", Json.int p.usage.units)
        ∷ [])
    b ← gets (balance r.user_id)
    pure (Outcome.succeeded gid p.output s.charged s.billing_kind b)

  abbrev pub completion : Request → (Payload → ℕ) → ProviderResult → Settlement → Completion
  completion r encoded_bytes p s = record {
    usage = p.usage;
    credits_charged = s.charged;
    billing_kind = s.billing_kind;
    ledger_tx_id = s.ledger_tx_id;
    provider_ref = p.provider_ref;
    meta = meta_of r encoded_bytes p;
  }

  unfoldable pub complete_settled :
      Request → (Payload → ℕ) → ℕ → ProviderResult → Settlement → Action Outcome
  complete_settled r encoded_bytes gid p s =
      finalize gid (completion r encoded_bytes p s) >> report_success r gid p s

  -- Step 4.
  unfoldable pub complete :
      Request → (Payload → ℕ) → ℕ → BillingKind → ProviderResult → ℕ → Action Outcome
  complete r encoded_bytes gid decision_kind p credits = do
    s ← settle r.user_id gid credits decision_kind
    complete_settled r encoded_bytes gid p s

  unfoldable pub after_provider :
      Request → (Payload → ℕ) → ℕ → BillingKind → Provided → Db → Result Outcome × Db
  after_provider r encoded_bytes gid kind (Provided.failed code) db =
      (err upstream, (fail_run r gid code db).1)
  after_provider r encoded_bytes gid kind (Provided.delivered p credits) db =
      transaction (complete r encoded_bytes gid kind p credits) db

  unfoldable pub run_prepared :
      Request → (Payload → ℕ) → Provided → (Db → Db) → Result Prepared × Db → Result Outcome × Db
  run_prepared r encoded_bytes provided world (err e, db) = (err e, db)
  run_prepared r encoded_bytes provided world (ok (Prepared.blocked reason), db) =
      (ok (Outcome.blocked reason), db)
  run_prepared r encoded_bytes provided world (ok (Prepared.replay g), db) =
      (ok (Outcome.replayed g (balance r.user_id db)), db)
  run_prepared r encoded_bytes provided world (ok (Prepared.ready gid kind), db) =
      after_provider r encoded_bytes gid kind provided (world db)

  -- The whole of `run`. `world` is what other sessions commit while the provider works.
  unfoldable pub run : Request → (Payload → ℕ) → Provided → (Db → Db) → Db → Result Outcome × Db
  run r encoded_bytes provided world db =
      run_prepared r encoded_bytes provided world (transaction (prepare r) db)
