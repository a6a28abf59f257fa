-- ===== src/Policy.antt =====
-- The access policy: src/app/policy/engine.py and src/app/policy/loader.py.
pub mod Access
use ai_text.Prelude.{
  ℕ, ◌≤◌, Bool, true, false, Option, none, some, List, [], ◌∷◌, leb, if◌then◌else◌, lookup,
}
use ai_text.Database.{SubscriptionStatus, BillingKind, Subscription, Db}
use ai_text.Wallet.{balance}

pub data BlockReason : Type 0 where
  trial_used subscription_required subscription_expired credits_empty policy_denied rate_limited :
      BlockReason

pub record PolicyState : Type 0 where
  pub subscription_status : SubscriptionStatus
  pub trial_used : Bool
  pub credits_balance : ℕ

pub record Decision : Type 0 where
  pub allowed : Bool
  pub block_reason : Option BlockReason
  pub billing_kind : BillingKind

abbrev pub allow : BillingKind → Decision
allow billing_kind = record { allowed = true; block_reason = none; billing_kind = billing_kind }

abbrev pub block : BlockReason → Decision
block reason = record {
  allowed = false;
  block_reason = some reason;
  billing_kind = BillingKind.none;
}

evaluate_status : SubscriptionStatus → Bool → ℕ → ℕ → Decision
evaluate_status SubscriptionStatus.active used credits_balance required_credits =
    if leb required_credits credits_balance
    then allow BillingKind.credits
    else block BlockReason.credits_empty
evaluate_status SubscriptionStatus.expired used credits_balance required_credits =
    block BlockReason.subscription_expired
evaluate_status SubscriptionStatus.none used credits_balance required_credits =
    if used then block BlockReason.trial_used else allow BillingKind.trial

unfoldable pub evaluate : PolicyState → ℕ → Decision
unfolding evaluate_status
evaluate s required_credits =
    evaluate_status s.subscription_status s.trial_used s.credits_balance required_credits

unexpired : Option ℕ → ℕ → SubscriptionStatus
unexpired none now = SubscriptionStatus.active
unexpired (some t) now = if leb t now then SubscriptionStatus.expired else SubscriptionStatus.active

-- `effective_subscription_status`: the expiry is computed on every read.
unfoldable pub effective_subscription_status :
    Option SubscriptionStatus → Option ℕ → ℕ → SubscriptionStatus
unfolding unexpired
effective_subscription_status none expires_at now = SubscriptionStatus.none
effective_subscription_status (some SubscriptionStatus.none) expires_at now =
    SubscriptionStatus.none
effective_subscription_status (some SubscriptionStatus.expired) expires_at now =
    SubscriptionStatus.expired
effective_subscription_status (some SubscriptionStatus.active) expires_at now =
    unexpired expires_at now

subscription_status_of : Option Subscription → ℕ → SubscriptionStatus
unfolding effective_subscription_status
subscription_status_of none now = effective_subscription_status none none now
subscription_status_of (some s) now = effective_subscription_status (some s.status) s.expires_at now

or_false : Option Bool → Bool
or_false none = false
or_false (some b) = b

unfoldable pub load_policy_state : ℕ → Db → PolicyState
unfolding or_false subscription_status_of balance
load_policy_state user_id db = record {
  subscription_status = subscription_status_of (lookup user_id db.subscriptions) db.now;
  trial_used = or_false (lookup user_id db.users);
  credits_balance = balance user_id db;
}

-- A gate of the domain's registry: `check(state, ctx)` at a fixed context.
abbrev pub Gate : Type 0
Gate = PolicyState → Option Decision

-- What one gate's answer does to the rest of the chain.
abbrev pub override : Option Decision → Decision → Decision
override none rest = rest
override (some d) rest = if d.allowed then rest else d

unfoldable pub apply_gates : List Gate → Decision → PolicyState → Decision
apply_gates [] decision state = decision
apply_gates (gate ∷ gates) decision state = override (gate state) (apply_gates gates decision state)

pub record EffectivePolicy : Type 0 where
  pub allowed : Bool
  pub reasons : List BlockReason
  pub subscription_status : SubscriptionStatus
  pub credits_balance : ℕ
  pub trial_used : Bool
  pub required_credits : ℕ
  pub billing_kind : BillingKind

abbrev pub reasons_of : Decision → List BlockReason
reasons_of d = if d.allowed then [] else elim d.block_reason [ none ↦ [] | some r ↦ r ∷ [] ]

unfoldable pub effective : List Gate → ℕ → ℕ → Db → EffectivePolicy
effective gates user_id required_credits db =
    let state = load_policy_state user_id db in
    let decision = apply_gates gates (evaluate state required_credits) state in
    record {
      allowed = decision.allowed;
      reasons = reasons_of decision;
      subscription_status = state.subscription_status;
      credits_balance = state.credits_balance;
      trial_used = state.trial_used;
      required_credits = required_credits;
      billing_kind = decision.billing_kind;
    }
