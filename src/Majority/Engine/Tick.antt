-- ===== src/Majority/Engine/Tick.antt =====
-- arc/majority/engine.py: the life of a market in the engine, and `tick`.
use lufy.Prelude.{
  ℕ, ◌+◌, ◌*◌, Bool, true, false, not, Option, none, some, or_else, is_some, List, [], ◌∷◌, Text,
  text_eq, ltb, if◌then◌else◌,
}
use lufy.Domain.Models.{ExecutionIntent}
use lufy.Domain.Health.{RuntimeHealth}
use lufy.Domain.Market.{MarketInstance}
use lufy.Execution.Intents.{intents_for}
use lufy.Execution.Submit.{Place}
use lufy.Majority.State.{
  MajorityState, MajorityMarketState, new_state, is_terminal, has_triggered, open_window,
  reconstruct_locked_side,
}
use lufy.Majority.Config.{
  MajorityWindowConfig, majority_engine, config_tradable, windows_by_offset, tradable_windows,
  for_window, mode_text,
}
use lufy.Majority.Engine.{
  Setup, Pass, Book, Db, After, Cell, CellAfter, EngineState, EngineError, Keyed, put,
}
use lufy.Majority.Engine.Entry.{evaluate_entry}
use lufy.Majority.Engine.Read.{fresh_read_and_determine}
use lufy.Majority.Engine.Submission.{ended, submit_window}

abbrev pub is_triggered_state : MajorityState → Bool
is_triggered_state MajorityState.triggered = true
is_triggered_state _ = false

abbrev pub is_side_selected : MajorityState → Bool
is_side_selected MajorityState.side_selected = true
is_side_selected _ = false

-- The state of the window's cell after a step that writes nothing else.
abbrev pub with_state : Cell → After → CellAfter
with_state c a = record { cell = record c { state = a.state }; raised = a.raised }

-- The submission, unless the step before it raised.
abbrev pub then_submit : Setup → MajorityWindowConfig → Pass → CellAfter → CellAfter
then_submit e w p a =
    if is_some a.raised
    then a
    else if is_side_selected a.cell.state.state
    then submit_window e w p a.cell
    else a

-- The steps 2 to 4 of `_tick_one`, on an open window.
unfoldable pub advance_open : Setup → MajorityWindowConfig → Pass → Cell → CellAfter
unfolding evaluate_entry fresh_read_and_determine submit_window
advance_open e w p c =
    if not (has_triggered c.state)
    then with_state c (evaluate_entry e.config w p c.state)
    else if is_triggered_state c.state.state
    then then_submit e w p (with_state c (fresh_read_and_determine p c.state))
    else then_submit e w p (ended c)

-- `_tick_one` on the window's cell. The window opens at `close_ts - execution_window_seconds`.
unfoldable pub tick_cell : Setup → MajorityWindowConfig → Pass → Cell → CellAfter
unfolding advance_open open_window
tick_cell e w p c =
    if is_terminal c.state
    then ended c
    else if c.submitted
    then ended c
    else if ltb (p.now + w.execution_window_seconds * 1000) (p.market.close_ts * 1000)
    then ended c
    else advance_open e w p (record c { state = open_window c.state })

-- The collections with the cell in its place.
abbrev pub write_back : Text → ℕ → EngineState → CellAfter → EngineState × Option EngineError
write_back slug window es a = (
  record {
    states = put slug window (some a.cell.state) es.states;
    submitted = put slug window a.cell.submitted es.submitted;
    db = a.cell.db;
  },
  a.raised,
)

abbrev pub tick_found :
    Setup
    → MajorityWindowConfig
    → Pass
    → EngineState
    → Option MajorityMarketState
    → EngineState × Option EngineError
tick_found e w p es none = (es, none)
tick_found e w p es (some s) = write_back p.market.slug w.execution_window_seconds es (
    tick_cell e w p (record {
      state = s;
      submitted = es.submitted p.market.slug w.execution_window_seconds;
      db = es.db;
    }))

-- `_tick_one`
unfoldable pub tick_one :
    Setup → MajorityWindowConfig → Pass → EngineState → EngineState × Option EngineError
unfolding tick_cell
tick_one e w p es = tick_found e w p es (es.states p.market.slug w.execution_window_seconds)

-- The answers of the venue in one tick, window by window.
abbrev pub Answers : Type 0
Answers = ℕ → Book × Place

abbrev pub pass_of : MarketInstance → RuntimeHealth → ℕ → Book × Place → Pass
pass_of m h now (book, place) = record {
  market = m;
  health = h;
  now = now;
  book = book;
  place = place;
}

-- The loop over the windows, which an exception leaves.
unfoldable pub tick_windows :
    Setup
    → MarketInstance
    → RuntimeHealth
    → ℕ
    → Answers
    → List MajorityWindowConfig
    → EngineState
    → EngineState × Option EngineError
unfolding tick_one
tick_windows e m h now answers [] es = (es, none)
tick_windows e m h now answers (w ∷ ws) es =
    let (es', raised) = tick_one e w (pass_of m h now (answers w.execution_window_seconds)) es in
    let rest = tick_windows e m h now answers ws es' in
    if is_some raised then (es', raised) else rest

unfoldable pub tick :
    Setup
    → MarketInstance
    → RuntimeHealth
    → ℕ
    → Answers
    → EngineState
    → EngineState × Option EngineError
unfolding config_tradable tradable_windows tick_windows
tick e m h now answers es =
    if not (config_tradable e.config)
    then (es, none)
    else tick_windows e m h now answers (tradable_windows e.config) es

-- One state for each window of the list.
abbrev pub open_windows :
    (MajorityWindowConfig → MajorityMarketState)
    → Text
    → List MajorityWindowConfig
    → Keyed (Option MajorityMarketState)
    → Keyed (Option MajorityMarketState)
open_windows state_of slug [] states = states
open_windows state_of slug (w ∷ ws) states =
    open_windows state_of slug ws (put slug w.execution_window_seconds (some (state_of w)) states)

abbrev pub off_state : Text → ℕ → MajorityWindowConfig → MajorityMarketState
off_state slug close_ts w = record (new_state slug close_ts w.execution_window_seconds) {
  state = MajorityState.off;
}

abbrev pub opened_state : Bool → Text → ℕ → MajorityWindowConfig → MajorityMarketState
opened_state buffer_enabled slug close_ts w =
    record (new_state slug close_ts w.execution_window_seconds) {
      entry_mode = mode_text (for_window w buffer_enabled);
    }

unfoldable pub open_market : Setup → Text → ℕ → EngineState → EngineState
unfolding config_tradable windows_by_offset tradable_windows for_window
open_market e slug close_ts es =
    if not (config_tradable e.config)
    then record es {
      states = open_windows (off_state slug close_ts) slug (windows_by_offset e.config) es.states;
    }
    else record es {
      states =
          open_windows (opened_state e.config.buffer_enabled slug close_ts) slug
            (tradable_windows e.config) es.states;
    }

unfoldable pub drop_market : Text → EngineState → EngineState
drop_market slug es = record es {
  states = λ slug' window. if text_eq slug' slug then none else es.states slug' window;
  submitted = λ slug' window. if text_eq slug' slug then false else es.submitted slug' window;
}

abbrev pub restore_one : Text → ExecutionIntent → EngineState → EngineState
restore_one slug i es =
    let fresh : MajorityMarketState = new_state slug i.close_ts i.offset_seconds in
    let state : MajorityMarketState = or_else (es.states slug i.offset_seconds) fresh in
    record es {
      states =
          put slug i.offset_seconds (some (reconstruct_locked_side i.direction i.created_at state))
            es.states;
      submitted = put slug i.offset_seconds true es.submitted;
    }

abbrev pub restore_all : Text → List ExecutionIntent → EngineState → EngineState
restore_all slug [] es = es
restore_all slug (i ∷ intents) es = restore_all slug intents (restore_one slug i es)

unfoldable pub restore_from_intents : Text → EngineState → EngineState
unfolding intents_for reconstruct_locked_side
restore_from_intents slug es = restore_all slug (intents_for slug majority_engine es.db.intents) es

-- `MajorityEngine.__init__`: a process that starts holds nothing, and the tables are as they were.
abbrev pub started : Db → EngineState
started db = record { states = λ slug window. none; submitted = λ slug window. false; db = db }
