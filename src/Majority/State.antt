-- ===== src/Majority/State.antt =====
-- arc/majority/state.py: the state of one market window, with the side lock. A method returns the
-- new state, or the error that it raises before it writes anything. The message of an error is
-- left out.
pub mod Lock
use lufy.Prelude.{
  ℕ, Bool, true, false, not, ◌||◌, Option, none, some, is_some, List, [], ◌∷◌, Text, Result, ok,
  err, after_call, if◌then◌else◌,
}
use lufy.Domain.Enums.{Direction}
use lufy.Domain.Models.{Decimal}
use lufy.Majority.Trigger.{BookSnapshot, MajorityVerdict, outcome_direction}

pub data MajorityState : Type 0 where
  off armed waiting_window window_open waiting_trigger triggered reading_clob : MajorityState
  majority_determined side_selected intent_created submitted working partial filled : MajorityState
  completed no_trade cancelled expired rejected : MajorityState

-- membership in `MAJORITY_TERMINAL_STATES`
abbrev pub is_terminal_state : MajorityState → Bool
is_terminal_state MajorityState.completed = true
is_terminal_state MajorityState.no_trade = true
is_terminal_state MajorityState.cancelled = true
is_terminal_state MajorityState.expired = true
is_terminal_state MajorityState.rejected = true
is_terminal_state _ = false

-- membership in `_MAJORITY_EXECUTED_STATES`
abbrev pub is_executed_state : MajorityState → Bool
is_executed_state MajorityState.partial = true
is_executed_state MajorityState.filled = true
is_executed_state _ = false

-- `MajorityStateError`, by the call that raised it
pub data StateError : Type 0 where
  already_selected no_side already_triggered : StateError

pub record MajorityMarketState : Type 0 where
  pub market_slug : Text
  pub close_ts : ℕ
  pub execution_window_seconds : ℕ
  pub state : MajorityState
  pub trigger_snapshot : Option BookSnapshot
  pub decision_snapshot : Option BookSnapshot
  pub verdict : Option MajorityVerdict
  pub triggered_at : Option ℕ
  pub side_selected_at : Option ℕ
  pub no_trade_reason : Text
  pub entry_mode : Text
  pub btc_reference : Option Decimal
  pub btc_up_trigger : Option Decimal
  pub btc_down_trigger : Option Decimal
  pub fired_level : Option Decimal
  pub fired_spot : Option Decimal
  pub price_trigger_reached : Bool
  pub selected_side : Option Direction

-- the state with which the engine opens a window of a market
abbrev pub new_state : Text → ℕ → ℕ → MajorityMarketState
new_state slug close window = record {
  market_slug = slug;
  close_ts = close;
  execution_window_seconds = window;
  state = MajorityState.waiting_window;
  trigger_snapshot = none;
  decision_snapshot = none;
  verdict = none;
  triggered_at = none;
  side_selected_at = none;
  no_trade_reason = [];
  entry_mode = [];
  btc_reference = none;
  btc_up_trigger = none;
  btc_down_trigger = none;
  fired_level = none;
  fired_spot = none;
  price_trigger_reached = false;
  selected_side = none;
}

abbrev pub side_locked : MajorityMarketState → Bool
side_locked s = is_some s.selected_side

abbrev pub has_triggered : MajorityMarketState → Bool
has_triggered s = is_some s.triggered_at

abbrev pub is_terminal : MajorityMarketState → Bool
is_terminal s = is_terminal_state s.state

abbrev pub Method : Type 0
Method = MajorityMarketState → Result StateError MajorityMarketState

abbrev pub lock_side : MajorityVerdict → BookSnapshot → ℕ → Option Direction → Method
lock_side v snapshot now none s = err no_side
lock_side v snapshot now (some direction) s = ok (record s {
  selected_side = some direction;
  verdict = some v;
  decision_snapshot = some snapshot;
  side_selected_at = some now;
  state = MajorityState.side_selected;
})

unfoldable pub select_side : MajorityVerdict → BookSnapshot → ℕ → Method
select_side v snapshot now s =
    if side_locked s
    then err already_selected
    else lock_side v snapshot now (outcome_direction v.outcome) s

unfoldable pub reconstruct_locked_side : Direction → ℕ → MajorityMarketState → MajorityMarketState
reconstruct_locked_side direction intent_created_at s = record s {
  selected_side = some direction;
  side_selected_at = some intent_created_at;
  state = MajorityState.side_selected;
}

abbrev pub open_window_state : MajorityState → MajorityState
open_window_state MajorityState.waiting_window = MajorityState.window_open
open_window_state st = st

unfoldable pub open_window : MajorityMarketState → MajorityMarketState
open_window s = record s { state = open_window_state s.state }

abbrev await_trigger_state : MajorityState → MajorityState
await_trigger_state MajorityState.window_open = MajorityState.waiting_trigger
await_trigger_state st = st

unfoldable pub await_trigger : MajorityMarketState → MajorityMarketState
await_trigger s = record s { state = await_trigger_state s.state }

unfoldable pub mark_triggered : BookSnapshot → ℕ → Method
mark_triggered snapshot now s =
    if has_triggered s
    then err already_triggered
    else ok (record s {
      trigger_snapshot = some snapshot;
      triggered_at = some now;
      state = MajorityState.triggered;
    })

abbrev reading_state : MajorityState → MajorityState
reading_state MajorityState.triggered = MajorityState.reading_clob
reading_state st = st

unfoldable pub mark_reading : MajorityMarketState → MajorityMarketState
mark_reading s = record s { state = reading_state s.state }

unfoldable pub mark_determined :
    MajorityVerdict → BookSnapshot → MajorityMarketState → MajorityMarketState
mark_determined v snapshot s = record s {
  verdict = some v;
  decision_snapshot = some snapshot;
  state = MajorityState.majority_determined;
}

unfoldable pub mark_no_trade : Text → MajorityMarketState → MajorityMarketState
mark_no_trade reason s =
    if is_terminal s || is_executed_state s.state
    then s
    else record s { state = MajorityState.no_trade; no_trade_reason = reason }

abbrev pub intent_created_state : MajorityState → MajorityState
intent_created_state MajorityState.side_selected = MajorityState.intent_created
intent_created_state st = st

unfoldable pub mark_intent_created : MajorityMarketState → MajorityMarketState
mark_intent_created s = record s { state = intent_created_state s.state }

unfoldable pub mark_state : MajorityState → MajorityMarketState → MajorityMarketState
mark_state st s = if is_terminal s then s else record s { state = st }

-- The calls that the engine makes on a state in the life of a market, with their arguments. A
-- restart, which rebuilds the lock from a persisted intent, is not among them.
pub data Call : Type 0 where
  select_side_call : MajorityVerdict → BookSnapshot → ℕ → Call
  open_window_call await_trigger_call mark_reading_call mark_intent_created_call : Call
  mark_triggered_call : BookSnapshot → ℕ → Call
  mark_determined_call : MajorityVerdict → BookSnapshot → Call
  mark_no_trade_call : Text → Call
  mark_state_call : MajorityState → Call

unfoldable pub call : Call → Method
unfolding select_side open_window await_trigger mark_triggered mark_reading mark_determined
    mark_no_trade mark_intent_created mark_state
call (select_side_call v snapshot now) s = select_side v snapshot now s
call open_window_call s = ok (open_window s)
call await_trigger_call s = ok (await_trigger s)
call mark_reading_call s = ok (mark_reading s)
call mark_intent_created_call s = ok (mark_intent_created s)
call (mark_triggered_call snapshot now) s = mark_triggered snapshot now s
call (mark_determined_call v snapshot) s = ok (mark_determined v snapshot s)
call (mark_no_trade_call reason) s = ok (mark_no_trade reason s)
call (mark_state_call st) s = ok (mark_state st s)

-- Calls one after the other on one object, a call that raises leaving it as it was.
unfoldable pub run_calls : List Call → MajorityMarketState → MajorityMarketState
run_calls [] s = s
run_calls (c ∷ cs) s = run_calls cs (after_call s (call c s))
