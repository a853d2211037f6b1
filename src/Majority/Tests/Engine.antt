-- ===== src/Majority/Tests/Engine.antt =====
-- The engine on one market with one window, and its theorems at these values.
use lufy.Prelude.{
  ℕ, ◌≤◌, ◌≡◌, refl, inr, true, false, none, some, List, [], ◌∷◌, Text, codes, ok, err, arith,
}
use lufy.Prelude.Int.{pos}
use lufy.Domain.Enums.{Direction, MarketPhase, SettlementSpecStatus}
use lufy.Domain.Models.{ExecutionIntent}
use lufy.Domain.Health.{RuntimeHealth}
use lufy.Domain.Market.{MarketInstance, empty_accumulator}
use lufy.Execution.Venue.{connection_lost}
use lufy.Execution.Store.{Store}
use lufy.Majority.Trigger.{
  BookSnapshot, MajorityOutcome, determine_majority, is_triggered, trigger_value,
}
use lufy.Majority.State.{
  MajorityState, MajorityMarketState, new_state, mark_triggered, mark_reading, mark_determined,
  select_side, mark_no_trade,
}
use lufy.Majority.Config.{MajorityConfig, MajorityWindowConfig, for_window}
use lufy.Majority.Engine.{Setup, Db, Pass, Cell, Book, venue}
use lufy.Majority.Engine.Tick.{Answers, tick_cell, started}
use lufy.Majority.Engine.Entry.{evaluate_entry, buffer_gate, fire}
use lufy.Majority.Engine.Read.{fresh_read_and_determine, determine}
use lufy.Majority.Engine.Intent.{intent_of}
use lufy.Majority.Engine.Stuck.{tick_cells, tick_cell-Unreadable}
use lufy.Majority.Engine.Event.{EngineEvent, open_event, tick_event, restart_event, restore_event}
use lufy.Majority.Engine.Runs.{run_events, Advances}
use lufy.Majority.Engine.Runs.Events.{run_events-Advances}
use lufy.Majority.Engine.Runs.Recorded.{Recorded}
use lufy.Majority.Engine.Runs.Once.{times, run_events-Recorded, run_events-times}

abbrev slug : Text
slug = codes "btc-updown-5m-1700000000"

abbrev window : MajorityWindowConfig
window = record {
  execution_window_seconds = 60;
  buffer = pos 0;
  trigger_price = pos 820000;
  target_limit_price = pos 900000;
  shares = pos 10000000;
  entry_price_min = pos 800000;
  entry_price_max = pos 950000;
  disable_reason = [];
}

abbrev config : MajorityConfig
config = record {
  enabled = true;
  windows = window ∷ [];
  trigger_limit_enabled = true;
  buffer_enabled = false;
  price_retry_enabled = false;
  price_retry_attempts = 5;
  disable_reason = [];
}

abbrev setup : Setup
setup = record {
  config = config;
  tick_size = 10000;
  minimum = 5000000;
  size_step = 10000;
  digest = λ s. s;
}

abbrev market : MarketInstance
market = record {
  slug = slug;
  window_ts = 1700000000;
  close_ts = 1700000300;
  phase = MarketPhase.active;
  accumulator = empty_accumulator;
  orders = [];
  fills = [];
  ptb = some (pos 60000000000);
  last_btc = some (pos 60010000000);
}

abbrev health : RuntimeHealth
health = record {
  trading_enabled = true;
  spec_status = SettlementSpecStatus.verified;
  execution_armed = true;
  paused = false;
  feed_blocked = false;
  clock_drift_critical = false;
  healthy = true;
  open_positions = 0;
  daily_loss_usd = pos 0;
  consecutive_losses = 0;
  supervisor_ready = true;
  wallet_connected = true;
  orphan_orders = [];
  available_balance = none;
}

-- A book on which UP leads.
abbrev book : Book
book Direction.up = ok (some (pos 840000))
book Direction.down = ok (some (pos 150000))

-- A book of which the second read fails.
abbrev broken : Book
broken Direction.up = ok (some (pos 840000))
broken Direction.down = err (connection_lost [])

abbrev answers : Answers
answers offset = (book, λ o n. ok (codes "0xabc"))

abbrev pass : Book → ℕ → Pass
pass b now = record {
  market = market;
  health = health;
  now = now;
  book = b;
  place = λ o n. ok (codes "0xabc");
}

abbrev empty_db : Db
empty_db = record { intents = []; store = record { orders = []; fills = [] } }

-- A process that restarts after it has submitted, and ticks again.
abbrev events : List EngineEvent
events =
    open_event slug 1700000300
    ∷ tick_event market health 1700000250000 answers
    ∷ tick_event market health 1700000251000 answers
    ∷ restart_event
    ∷ open_event slug 1700000300
    ∷ restore_event slug
    ∷ tick_event market health 1700000252000 answers
    ∷ []

run_events-Advances_example : Advances setup [] events (started empty_db)
run_events-Advances_example = run_events-Advances setup events empty_db

run_events-Recorded_example :
    Recorded setup events [] (run_events setup events (started empty_db)).db.intents
run_events-Recorded_example = run_events-Recorded setup events empty_db

run_events-times_example : times slug 60 (run_events setup events (started empty_db)).db.intents ≤ 1
run_events-times_example = run_events-times setup events empty_db slug 60 (omega arith)

-- With the buffer off the window fires once its trigger price is reached.
evaluate_entry-fires :
    (evaluate_entry config window
      (pass book 1700000250000)
      (new_state slug 1700000300 60)).state.state
    ≡ MajorityState.triggered
unfolding evaluate_entry is_triggered trigger_value buffer_gate for_window fire mark_triggered
evaluate_entry-fires = refl

-- The window after its entry condition has fired.
abbrev fired_state : MajorityMarketState
fired_state = record (new_state slug 1700000300 60) {
  state = MajorityState.triggered;
  triggered_at = some 1700000250000;
}

abbrev fired_cell : Cell
fired_cell = record { state = fired_state; submitted = false; db = empty_db }

tick_cell-Unreadable_example :
    ((tick_cell setup window (pass broken 1700000251000) fired_cell).raised
      ≡ some (venue (connection_lost [])))
    × ((tick_cell setup window (pass broken 1700000251000) fired_cell).cell.state.state
        ≡ MajorityState.reading_clob)
    × ((tick_cell setup window (pass broken 1700000251000) fired_cell).cell.db ≡ empty_db)
    × (tick_cells setup window
          (pass book 1700000251500 ∷ [])
          (tick_cell setup window (pass broken 1700000251000) fired_cell).cell
        ≡ (tick_cell setup window (pass broken 1700000251000) fired_cell).cell)
tick_cell-Unreadable_example =
    tick_cell-Unreadable setup window (pass broken 1700000251000) fired_cell (connection_lost [])
      (pass book 1700000251500 ∷ []) refl refl refl refl (inr (some (pos 840000), refl, refl))

-- The fresh read selects the side that leads; a read that comes too late selects none.
fresh_read-selects :
    ((fresh_read_and_determine (pass book 1700000251000) fired_state).state.selected_side
      ≡ some Direction.up)
    × ((fresh_read_and_determine (pass book 1700000252001) fired_state).state.state
        ≡ MajorityState.no_trade)
unfolding fresh_read_and_determine mark_reading determine determine_majority mark_determined
    select_side mark_no_trade
fresh_read-selects = (refl, refl)

-- The window before its submission.
abbrev decision : BookSnapshot
decision = record {
  best_bid_up = some (pos 840000);
  best_bid_down = some (pos 150000);
  read_at = 1700000251000;
  fresh = true;
}

abbrev selected_cell : Cell
selected_cell = record {
  state = record fired_state {
    state = MajorityState.side_selected;
    verdict = some (record {
      outcome = MajorityOutcome.up;
      best_bid_up = some (pos 840000);
      best_bid_down = some (pos 150000);
    });
    decision_snapshot = some decision;
    side_selected_at = some 1700000251000;
    selected_side = some Direction.up;
  };
  submitted = false;
  db = empty_db;
}

abbrev now : Pass
now = pass book 1700000251000

abbrev intent : ExecutionIntent
intent = intent_of setup window now selected_cell.state Direction.up (pos 900000)
