-- ===== src/Policy/Access.antt =====
-- Who may generate (src/app/policy/engine.py, src/app/policy/loader.py).
use ai_text.Prelude.{
  ℕ, ◌≤◌, ◌<◌, ◌≡◌, ◌≢◌, ◌⊎◌, ◌↔◌, refl, Bool, true, false, Option, none, some, List, [], ◌∷◌,
  arith,
}
use ai_text.Database.{SubscriptionStatus, BillingKind}
use ai_text.Policy.{
  BlockReason, PolicyState, Decision, Gate, evaluate, apply_gates, effective_subscription_status,
}

-- The conditions under which the core lets a user generate.
abbrev pub MayGenerate : PolicyState → ℕ → Type 0
MayGenerate s required =
    ((s.subscription_status ≡ SubscriptionStatus.active) × (required ≤ s.credits_balance))
    ⊎ ((s.subscription_status ≡ SubscriptionStatus.none) × (s.trial_used ≡ false))

-- A user may generate exactly if he has an active subscription and the credits, or no subscription
-- and an unused trial.
pub evaluate-MayGenerate :
    (s : PolicyState) (required : ℕ)
    → ((evaluate s required).allowed ≡ true) ↔ MayGenerate s required
unfolding evaluate
evaluate-MayGenerate s required = (λ h. ground arith, λ h. ground arith)

-- What a decision says, by its fields: a way to pay that the state admits, or a reason.
abbrev pub IsSound : Bool → Option BlockReason → BillingKind → PolicyState → ℕ → Type 0
IsSound true none BillingKind.credits s required = required ≤ s.credits_balance
IsSound true none BillingKind.trial s required = s.trial_used ≡ false
IsSound false (some reason) BillingKind.none s required = reason ≢ BlockReason.rate_limited
IsSound _ _ _ s required = ⊥

-- An allowed generation has no block reason, and is paid with credits that cover it or is the trial
-- of a user who has not had one. A block has a reason, never that of the rate limiter, and no way
-- to pay.
pub evaluate-IsSound :
    (s : PolicyState) (required : ℕ)
    → let d = evaluate s required in IsSound d.allowed d.block_reason d.billing_kind s required
unfolding evaluate
evaluate-IsSound s required = ground arith

-- More credits never take access away, and a lower price does not either.
pub evaluate_mono :
    (s : PolicyState) (required required' more : ℕ)
    → required' ≤ required
    → s.credits_balance ≤ more
    → (evaluate s required).allowed ≡ true
    → (evaluate (record s { credits_balance = more }) required').allowed ≡ true
unfolding evaluate
evaluate_mono s required required' more lower richer h = ground arith

-- Whatever the gates answer, the chain allows only what the core allowed, and then gives the core's
-- decision unchanged.
pub apply_gates_tighten :
    (gates : List Gate) (d : Decision) (s : PolicyState)
    → (apply_gates gates d s).allowed ≡ true
    → apply_gates gates d s ≡ d
unfolding apply_gates
apply_gates_tighten [] d s h = refl
apply_gates_tighten (g ∷ gates) d s h = ground (arith, apply_gates_tighten gates d s)

abbrev pub IsAhead : Option ℕ → ℕ → Type 0
IsAhead none now = Unit
IsAhead (some t) now = now < t

-- A subscription is read as active exactly if it is stored as active and its expiry, if it has one,
-- lies ahead.
pub effective_subscription_status-active :
    (status : Option SubscriptionStatus) (expires_at : Option ℕ) (now : ℕ)
    → (effective_subscription_status status expires_at now ≡ SubscriptionStatus.active)
      ↔ ((status ≡ some SubscriptionStatus.active) × IsAhead expires_at now)
unfolding effective_subscription_status
effective_subscription_status-active status none now =
    (λ h. (ground arith, tt), λ h. ground (arith, h.0))
effective_subscription_status-active status (some x) now =
    (λ h. (ground arith, ground arith), λ h. ground (arith, h.0, h.1))
