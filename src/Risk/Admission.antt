-- ===== src/Risk/Admission.antt =====
-- What `RiskEngine.evaluate` admits: exactly the contexts that meet every gate's condition.
use lufy.Prelude.{
  ◌+◌, ◌<◌, ◌≡◌, refl, ◌↔◌, inl, inr, true, false, List, [], ◌∷◌, All, arith, Bool-cases,
}
use lufy.Prelude.Int.{pos, ◌≤ℤ◌, ◌<ℤ◌}
use lufy.Domain.Enums.{MarketPhase, SettlementSpecStatus, opposite}
use lufy.Risk.Context.{Gate, gate_order, RiskContext}
use lufy.Risk.Gates.{holds}
use lufy.Risk.Engine.{run_gate, evaluate_from, evaluate}
use lufy.Risk.Conditions.{Passes, Covers, run_gate-Passes, Passes-run_gate}

-- A context from which an order may be submitted.
pub record IsAdmissible (c : RiskContext) : Type 0 where
  pub verified : c.spec_status ≡ SettlementSpecStatus.verified
  pub not_paused : c.paused ≡ false
  pub enabled : c.trading_enabled ≡ true
  pub armed : c.execution_armed ≡ true
  pub phase_active : c.phase ≡ MarketPhase.active
  pub triggered : c.window_triggered ≡ true
  pub strategy_on : c.strategy_enabled ≡ true
  pub no_intent : c.intent_exists ≡ false
  pub within_quota : c.quota_used + c.quota_reserved < c.max_trades_per_market
  pub not_opposing : c.allow_opposing_directions ≡ false → holds c (opposite c.direction) ≡ false
  pub position_free : c.open_positions < c.max_concurrent_positions
  pub price_above_min : c.entry_price_min ≤ℤ c.limit_price
  pub price_below_max : c.limit_price ≤ℤ c.entry_price_max
  pub size_above_min : c.min_tradable_size ≤ℤ c.size
  pub size_positive : pos 0 <ℤ c.size
  pub daily_loss_below : pos 0 <ℤ c.max_daily_loss_usd → c.daily_loss_usd <ℤ c.max_daily_loss_usd
  pub losses_below : 0 < c.max_consecutive_losses → c.consecutive_losses < c.max_consecutive_losses
  pub feed_fresh : c.feed_blocked ≡ false
  pub clock_good : c.clock_drift_critical ≡ false
  pub healthy : c.runtime_healthy ≡ true
  pub supervised : c.supervisor_ready ≡ true
  pub wallet : c.wallet_connected ≡ true
  pub no_orphans : c.orphan_orders ≡ []
  pub covered : Covers c.available_balance c.limit_price c.size

evaluate_from-allowed :
    (gs : List Gate) (c : RiskContext)
    → (evaluate_from gs c).allowed ≡ true
    → All (λ g. Passes g c) gs
unfolding evaluate_from
evaluate_from-allowed [] c h = tt
evaluate_from-allowed (g ∷ gs) c h = elim (Bool-cases (run_gate g c).allowed) [
  | inl yes_allowed ↦ (run_gate-Passes g c yes_allowed, evaluate_from-allowed gs c (ground arith))
  | inr denied_here ↦ ground arith
]

allowed-evaluate_from :
    (gs : List Gate) (c : RiskContext)
    → All (λ g. Passes g c) gs
    → (evaluate_from gs c).allowed ≡ true
unfolding evaluate_from
allowed-evaluate_from [] c h = refl
allowed-evaluate_from (g ∷ gs) c h =
    ground (arith, Passes-run_gate g c h.0, allowed-evaluate_from gs c h.1)

-- An intent is admitted exactly when every gate's condition holds of its context.
pub evaluate-allowed_iff : (c : RiskContext) → ((evaluate c).allowed ≡ true) ↔ IsAdmissible c
unfolding evaluate
evaluate-allowed_iff c = (
  λ h.
      let p : All (λ g. Passes g c) gate_order = evaluate_from-allowed gate_order c h in
      ground arith,
  λ a. allowed-evaluate_from gate_order c (ground arith),
)
