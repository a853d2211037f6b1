-- ===== src/Majority/Engine/Gate/Passed.antt =====
-- What a proposal is like that passes the direction gate.
use lufy.Prelude.{ℕ, ◌≡◌, Bool, true, false, Option, none, some, is_some, arith}
use lufy.Prelude.Int.{pos, ◌<ℤ◌, eqb_ℤ, ℤ}
use lufy.Domain.Models.{ExecutionIntent}
use lufy.Domain.Market.{MarketInstance}
use lufy.Domain.Money.{quantize_price}
use lufy.Execution.Intents.{has_intent}
use lufy.Risk.Context.{RiskVerdict}
use lufy.Majority.Trigger.{BookSnapshot, complete}
use lufy.Majority.Config.{MajorityWindowConfig, majority_engine}
use lufy.Majority.Engine.{Cell}
use lufy.Majority.Engine.Gate.{gate_book, gate_decision, gate_direction}

pub eqb_ℤ→eq : (a b : ℤ) → eqb_ℤ a b ≡ true → a ≡ b
eqb_ℤ→eq a b h = ground arith

pub record IsPassed (tick : ℕ) (c : Cell) (w : MajorityWindowConfig) (m : MarketInstance)
    (i : ExecutionIntent) (b : BookSnapshot) : Type 0 where
  pub quoted : complete b ≡ true
  pub price_positive : pos 0 <ℤ i.limit_price
  pub on_grid : quantize_price i.limit_price tick ≡ i.limit_price
  pub size_positive : pos 0 <ℤ i.size
  pub same_size : i.size ≡ w.shares
  pub is_fresh : b.fresh ≡ true
  pub new_intent : has_intent m.slug w.execution_window_seconds majority_engine c.db.intents ≡ false

gate_book-IsPassed :
    (tick : ℕ) (c : Cell) (w : MajorityWindowConfig) (m : MarketInstance) (i : ExecutionIntent)
    (risk : RiskVerdict) (b : BookSnapshot)
    → gate_book tick c w m i risk b ≡ none
    → IsPassed tick c w m i b
unfolding gate_book
gate_book-IsPassed tick c w m i risk b h = record {
  quoted = ground arith;
  price_positive = ground arith;
  on_grid = eqb_ℤ→eq (quantize_price i.limit_price tick) i.limit_price (ground arith);
  size_positive = ground arith;
  same_size = eqb_ℤ→eq i.size w.shares (ground arith);
  is_fresh = ground arith;
  new_intent = ground arith;
}

gate_decision-IsPassed :
    (tick : ℕ) (c : Cell) (w : MajorityWindowConfig) (m : MarketInstance) (i : ExecutionIntent)
    (risk : RiskVerdict) (decided : Bool) (decision : Option BookSnapshot) (b : BookSnapshot)
    → decision ≡ some b
    → gate_decision tick c w m i risk decided decision ≡ none
    → IsPassed tick c w m i b
gate_decision-IsPassed tick c w m i risk false decision b e h = ground arith
gate_decision-IsPassed tick c w m i risk true none b e h = ground arith
gate_decision-IsPassed tick c w m i risk true (some b') b e h =
    gate_book-IsPassed tick c w m i risk b (ground arith)

pub gate_direction-IsPassed :
    (tick : ℕ) (c : Cell) (w : MajorityWindowConfig) (m : MarketInstance) (i : ExecutionIntent)
    (risk : RiskVerdict) (b : BookSnapshot)
    → c.state.decision_snapshot ≡ some b
    → gate_direction tick c w m i risk ≡ none
    → IsPassed tick c w m i b
unfolding gate_direction
gate_direction-IsPassed tick c w m i risk b e h =
    gate_decision-IsPassed tick c w m i risk (is_some c.state.verdict) c.state.decision_snapshot b e
      (ground arith)
