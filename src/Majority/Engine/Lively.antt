-- ===== src/Majority/Engine/Lively.antt =====
-- A window that may trade does trade.
use lufy.Prelude.{is_some, ◌≡◌, true, false, none, some, [], ◌∷◌, ◌++◌}
use lufy.Domain.Enums.{Direction}
use lufy.Domain.Models.{Decimal}
use lufy.Execution.Store.{Store}
use lufy.Execution.Intents.{new_row}
use lufy.Majority.Trigger.{BookSnapshot}
use lufy.Majority.Trigger.Laws.{IsQuoted}
use lufy.Majority.State.{MajorityState, MajorityMarketState, mark_intent_created}
use lufy.Majority.Config.{MajorityWindowConfig, majority_engine}
use lufy.Majority.Engine.{Setup, Pass, Cell, CellAfter}
use lufy.Majority.Engine.Intent.{intent_of}

-- A window that stands before its submission: its side was locked on a fresh book with both bids,
-- and it has not been submitted.
pub record IsSelected (w : MajorityWindowConfig) (c : Cell) (d : Direction) : Type 0 where
  pub unsubmitted : c.submitted ≡ false
  pub selected : c.state.state ≡ MajorityState.side_selected
  pub side : c.state.selected_side ≡ some d
  pub same_window : c.state.execution_window_seconds ≡ w.execution_window_seconds
  pub decided : is_some c.state.verdict ≡ true
  pub book : BookSnapshot
  pub decision : c.state.decision_snapshot ≡ some book
  pub up_bid : Decimal
  pub down_bid : Decimal
  pub quoted : IsQuoted book up_bid down_bid

-- The cell with the intent recorded, before the submitter is called.
abbrev recorded_cell : Setup → MajorityWindowConfig → Pass → Cell → Direction → Decimal → Cell
recorded_cell e w p c d price = record c {
  state = mark_intent_created c.state;
  submitted = true;
  db = record c.db {
    intents = c.db.intents ++ new_row (intent_of e w p c.state d price) majority_engine ∷ [];
  };
}

-- The cell with the orders placed.
abbrev pub placed_cell :
    Setup
    → MajorityWindowConfig
    → Pass
    → Cell
    → Direction
    → Decimal
    → MajorityMarketState
    → Store
    → CellAfter
placed_cell e w p c d price s orders = record {
  cell = record {
    state = s;
    submitted = true;
    db = record {
      intents = c.db.intents ++ new_row (intent_of e w p c.state d price) majority_engine ∷ [];
      store = orders;
    };
  };
  raised = none;
}
