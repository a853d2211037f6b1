-- ===== src/Majority/Engine/Advance.antt =====
-- What one tick does to a window and to the tables: nothing, or one decision, which is justified.
pub mod Submitting
pub mod Windows
use lufy.Prelude.{
  ℕ, ◌+◌, ◌≤◌, ◌≡◌, refl, ◌⊎◌, inl, inr, Bool, true, false, not, Option, none, some, is_some, List,
  [], ◌∷◌, ◌++◌, Any, Text, text_eq, text_eq_self, Result, ok, err, leb, arith, Bool-cases,
  Option-cases,
}
use lufy.Prelude.Int.{◌<ℤ◌, pos}
use lufy.Domain.Enums.{Direction, MarketPhase}
use lufy.Domain.Models.{Decimal, Order, ExecutionIntent}
use lufy.Domain.Money.{quantize_price}
use lufy.Execution.Intents.{IntentRow, has_intent, new_row, conflicts, save_intent}
use lufy.Execution.Store.{Store}
use lufy.Execution.Submit.{Place, SubmitError, submit}
use lufy.Risk.Context.{RiskContext}
use lufy.Risk.Engine.{evaluate}
use lufy.Risk.Admission.{IsAdmissible, evaluate-allowed_iff}
use lufy.Majority.Trigger.{BookSnapshot, determine_majority, outcome_direction}
use lufy.Majority.Trigger.Laws.{IsQuoted}
use lufy.Majority.State.{
  MajorityMarketState, is_terminal, mark_no_trade, mark_intent_created, mark_state,
}
use lufy.Majority.Config.{MajorityWindowConfig, majority_engine, tradable_windows, window_for}
use lufy.Majority.Engine.{Setup, Pass, Db, Cell, CellAfter, EngineError}
use lufy.Majority.Engine.Gate.{Failure, side_bid, gate_direction}
use lufy.Majority.Engine.Gate.Passed.{IsPassed, gate_direction-IsPassed}
use lufy.Majority.Engine.Intent.{
  price_of_book, priced, banded, live_entry_price, entry_price, intent_of, risk_context,
}
use lufy.Majority.Engine.Submission.{
  after_submit, persist_and_submit, gated, judged, priced_order, directed, submit_window,
}
use lufy.Majority.Engine.Event.{EngineEvent, TicksAt}
use lufy.Majority.Engine.Justified.{Evidence, IsSound}

-- The bid of the side is strictly the larger.
abbrev pub Leads : Direction → Decimal → Decimal → Type 0
Leads Direction.up u d = d <ℤ u
Leads Direction.down u d = u <ℤ d

-- Why an intent was recorded in a pass, on the intents table as it stood: what the venue answered in
-- this pass to the read of both sides, and the risk layer's verdict.
pub record IsJustified (e : Setup) (w : MajorityWindowConfig) (p : Pass) (rows : List IntentRow)
    (i : ExecutionIntent) : Type 0 where
  pub up_bid : Decimal
  pub down_bid : Decimal
  pub same_market : i.market_slug ≡ p.market.slug
  pub same_window : i.offset_seconds ≡ w.execution_window_seconds
  pub read_up : p.book Direction.up ≡ ok (some up_bid)
  pub read_down : p.book Direction.down ≡ ok (some down_bid)
  pub leads : Leads i.direction up_bid down_bid
  pub admitted : IsAdmissible (risk_context e w p i rows)
  pub same_size : i.size ≡ w.shares
  pub on_grid : quantize_price i.limit_price e.tick_size ≡ i.limit_price
  pub at_target : e.config.trigger_limit_enabled ≡ true → i.limit_price ≡ w.target_limit_price
  pub at_bid :
      e.config.trigger_limit_enabled ≡ false
      → (bid : Decimal) × (p.book i.direction ≡ ok (some bid))
        × (i.limit_price ≡ quantize_price bid e.tick_size)

-- The orders of a decision: what the submitter makes of this very intent in this pass, or none where
-- it raises.
abbrev pub Orders : Setup → Pass → ExecutionIntent → Store → Store → Type 0
Orders e p i s s' =
    ((error : SubmitError) × (submit p.place i 1 p.market.phase p.now e.minimum e.size_step
          majority_engine s
        ≡ err error)
      × (s' ≡ s))
    ⊎ ((orders : List Order) × (submit p.place i 1 p.market.phase p.now e.minimum e.size_step
            majority_engine s
          ≡ ok (s', orders)))

-- One intent, justified in the pass, is recorded for a window that had none. The window's entry
-- condition had fired: at the instant of a tick of this market, at most two seconds ago.
pub record Decision (e : Setup) (past : List EngineEvent) (w : MajorityWindowConfig) (p : Pass)
    (triggered_at : Option ℕ) (before after : Db) : Type 0 where
  pub intent : ExecutionIntent
  pub justified : IsJustified e w p before.intents intent
  pub fired_at : ℕ
  pub fired : triggered_at ≡ some fired_at
  pub ticked : Any (TicksAt p.market.slug fired_at) past
  pub recent : p.now ≤ fired_at + 2000
  pub first :
      has_intent intent.market_slug intent.offset_seconds majority_engine before.intents ≡ false
  pub recorded : after.intents ≡ before.intents ++ new_row intent majority_engine ∷ []
  pub placed : Orders e p intent before.store after.store

-- What the pass of a window does to the tables, by the instant at which the window has fired.
abbrev pub Effect :
    Setup → List EngineEvent → MajorityWindowConfig → Pass → Option ℕ → Db → Db → Type 0
Effect e past w p triggered_at before after =
    (after ≡ before) ⊎ Decision e past w p triggered_at before after

-- A step on a cell: its effect on the tables, and that the window stays sound.
pub record IsStep (e : Setup) (past : List EngineEvent) (w : MajorityWindowConfig) (p : Pass)
    (c : Cell) (a : CellAfter) : Type 0 where
  pub effect : Effect e past w p c.state.triggered_at c.db a.cell.db
  pub sound : a.cell.submitted ≡ false → IsSound past p.market.slug a.cell.state
