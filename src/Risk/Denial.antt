-- ===== src/Risk/Denial.antt =====
-- What `RiskEngine.evaluate` reports when it refuses: the first gate whose condition fails.
use lufy.Prelude.{
  ℕ, ◌+◌, ◌≡◌, refl, ap, inl, inr, false, Option, none, some, List, [], ◌∷◌, ◌++◌, All, length,
  arith, Bool-cases,
}
use lufy.Domain.Enums.{DenialReason}
use lufy.Domain.Models.{Decimal}
use lufy.Risk.Context.{Gate, gate_order, RiskContext, RiskVerdict, gate_id, number_of}
use lufy.Risk.Gates
use lufy.Risk.Engine.{run_gate, evaluate_from, evaluate}
use lufy.Risk.Conditions.{Passes, run_gate-Passes, Passes-run_gate}

-- The one gate that may give a reason. Two reasons are given by no gate.
abbrev pub owner : DenialReason → Option Gate
owner DenialReason.trading_disabled_spec_unverified = some Gate.trading_enabled
owner DenialReason.trading_paused = some Gate.trading_enabled
owner DenialReason.execution_not_armed = some Gate.execution_armed
owner DenialReason.market_cancelling = some Gate.market_phase
owner DenialReason.market_dead = some Gate.market_phase
owner DenialReason.market_not_active = some Gate.market_phase
owner DenialReason.ptb_unavailable = none
owner DenialReason.window_not_triggered = some Gate.window_triggered
owner DenialReason.strategy_disabled = some Gate.strategy_enabled
owner DenialReason.entry_price_limit = some Gate.entry_band
owner DenialReason.entry_price_below_min = some Gate.entry_band
owner DenialReason.size_below_exchange_minimum = some Gate.exchange_minimum
owner DenialReason.trade_quota_exhausted = some Gate.trade_quota
owner DenialReason.opposing_direction_blocked = some Gate.opposing_direction
owner DenialReason.position_limit_reached = some Gate.position_limit
owner DenialReason.loss_limit_reached = some Gate.loss_limits
owner DenialReason.duplicate_intent = some Gate.duplicate_intent
owner DenialReason.wallet_disconnected = some Gate.wallet_connected
owner DenialReason.insufficient_balance = some Gate.available_balance
owner DenialReason.orphan_orders_unreconciled = some Gate.orphan_orders
owner DenialReason.runtime_supervisor_not_ready = some Gate.supervisor_ready
owner DenialReason.feed_stale = some Gate.feed_freshness
owner DenialReason.clock_drift_critical = some Gate.runtime_health
owner DenialReason.runtime_unhealthy = some Gate.runtime_health
owner DenialReason.no_book_liquidity = none

-- A reason is given, and it is one of the gate's own.
abbrev pub IsOwn : Gate → Option DenialReason → Type 0
IsOwn g none = ⊥
IsOwn g (some r) = owner r ≡ some g

-- A verdict that refuses in the name of a gate.
pub record Refuses (v : RiskVerdict) (g : Gate) : Type 0 where
  pub is_denied : v.allowed ≡ false
  pub names_gate : v.gate ≡ some g
  pub own_reason : IsOwn g v.reason

run_gate-Refuses :
    (g : Gate) (c : RiskContext) → (run_gate g c).allowed ≡ false → Refuses (run_gate g c) g
unfolding run_gate Gates.gate_trading_enabled Gates.gate_execution_armed Gates.gate_market_phase
    Gates.gate_window_triggered Gates.gate_price_to_beat Gates.gate_strategy_enabled
    Gates.gate_duplicate_intent Gates.gate_trade_quota Gates.gate_opposing_direction
    Gates.gate_position_limit Gates.gate_entry_band Gates.gate_exchange_minimum
    Gates.gate_loss_limits Gates.gate_feed_freshness Gates.gate_runtime_health
    Gates.gate_supervisor_ready Gates.gate_wallet_connected Gates.gate_orphan_orders
    Gates.gate_available_balance
run_gate-Refuses Gate.price_to_beat c h = cc
run_gate-Refuses _ c h = ground arith

-- The verdict on a list of gates comes from the first that fails, after gates that all pass.
pub record FirstFailure (gs : List Gate) (c : RiskContext) (v : RiskVerdict) : Type 0 where
  pub before : List Gate
  pub culprit : Gate
  pub after : List Gate
  pub split : gs ≡ before ++ culprit ∷ after
  pub passed : All (λ g. Passes g c) before
  pub failed : ¬ Passes culprit c
  pub refuses : Refuses v culprit
  pub traced : v.trace_id ≡ c.trace_id

evaluate_from-FirstFailure :
    (gs : List Gate) (c : RiskContext)
    → (evaluate_from gs c).allowed ≡ false
    → FirstFailure gs c (evaluate_from gs c)
unfolding evaluate_from
evaluate_from-FirstFailure [] c h = cc
evaluate_from-FirstFailure (g ∷ gs) c h = elim (Bool-cases (run_gate g c).allowed) [
  | inl passed ↦
      let rest : FirstFailure gs c (evaluate_from gs c) =
        evaluate_from-FirstFailure gs c (ground arith) in
      rw passed (record {
        before = g ∷ rest.before;
        culprit = rest.culprit;
        after = rest.after;
        split = ap (λ l. g ∷ l) rest.split;
        passed = (run_gate-Passes g c passed, rest.passed);
        failed = rest.failed;
        refuses = rest.refuses;
        traced = rest.traced;
      })
  | inr fails ↦
      let r : Refuses (run_gate g c) g = run_gate-Refuses g c fails in
      rw fails (record {
        before = [];
        culprit = g;
        after = gs;
        split = refl;
        passed = tt;
        failed = λ p. ground (arith, Passes-run_gate g c p);
        refuses = record { is_denied = refl; names_gate = r.names_gate; own_reason = r.own_reason };
        traced = refl;
      })
]

run_gate-ptb :
    (g : Gate) (c : RiskContext) (p : Option Decimal)
    → run_gate g (record c { ptb = p }) ≡ run_gate g c
unfolding run_gate Gates.gate_trading_enabled Gates.gate_execution_armed Gates.gate_market_phase
    Gates.gate_window_triggered Gates.gate_price_to_beat Gates.gate_strategy_enabled
    Gates.gate_duplicate_intent Gates.gate_trade_quota Gates.gate_opposing_direction
    Gates.gate_position_limit Gates.gate_entry_band Gates.gate_exchange_minimum
    Gates.gate_loss_limits Gates.gate_feed_freshness Gates.gate_runtime_health
    Gates.gate_supervisor_ready Gates.gate_wallet_connected Gates.gate_orphan_orders
    Gates.gate_available_balance
run_gate-ptb Gate.price_to_beat c p = refl
run_gate-ptb Gate.opposing_direction c p = ground arith
run_gate-ptb Gate.available_balance c p = ground arith
run_gate-ptb _ c p = refl

evaluate_from-ptb :
    (gs : List Gate) (c : RiskContext) (p : Option Decimal)
    → evaluate_from gs (record c { ptb = p }) ≡ evaluate_from gs c
unfolding evaluate_from
evaluate_from-ptb [] c p = refl
evaluate_from-ptb (g ∷ gs) c p = rw (run_gate-ptb g c p, evaluate_from-ptb gs c p)

-- The verdict does not depend on the price to beat, present or absent.
evaluate-ptb : (c : RiskContext) (p : Option Decimal) → evaluate (record c { ptb = p }) ≡ evaluate c
unfolding evaluate
evaluate-ptb c p = evaluate_from-ptb gate_order c p

number_of-split :
    (g : Gate) (before after : List Gate) (n : ℕ)
    → All (λ a. ¬ (g ≡ a)) before
    → number_of g n (before ++ g ∷ after) ≡ some (n + length before)
unfolding number_of
number_of-split g [] after n h = ground arith
number_of-split g (a ∷ before) after n h =
    ground (arith, number_of-split g before after (n + 1) h.1)

-- A gate that fails is none of the gates that pass.
not-passed :
    (g : Gate) (c : RiskContext) (gs : List Gate)
    → ¬ Passes g c
    → All (λ a. Passes a c) gs
    → All (λ a. ¬ (g ≡ a)) gs
not-passed g c [] f h = tt
not-passed g c (a ∷ gs) f h = (λ e. f (rw e h.0), not-passed g c gs f h.1)

-- The identifier of the gate that refuses is one more than the number of gates that passed.
gate_id-FirstFailure :
    (c : RiskContext) {v : RiskVerdict} (f : FirstFailure gate_order c v)
    → gate_id f.culprit ≡ some (1 + length f.before)
unfolding gate_id
gate_id-FirstFailure c f = rw f.split (
    number_of-split f.culprit f.before f.after 1
      (not-passed f.culprit c f.before f.failed f.passed))

-- A refused intent is refused by the first gate in order whose condition fails: the verdict names
-- that gate, gives one of its own reasons and carries the context's trace id, and the gate's
-- identifier is one more than the number of gates before it, which all pass.
pub evaluate-FirstFailure :
    (c : RiskContext)
    → (evaluate c).allowed ≡ false
    → (f : FirstFailure gate_order c (evaluate c)) × (gate_id f.culprit
        ≡ some (1 + length f.before))
unfolding evaluate
evaluate-FirstFailure c h =
    let f : FirstFailure gate_order c (evaluate c) = evaluate_from-FirstFailure gate_order c h in
    (f, gate_id-FirstFailure c f)
