-- ===== src/Majority/Tests.antt =====
-- One window in the life of a market, and the theorems at its values.
mod Engine
mod Config
use lufy.Prelude.{◌≡◌, refl, ◌↔◌, ◌⊎◌, true, some, List, [], ◌∷◌, codes, Any}
use lufy.Prelude.Int.{pos, ◌≤ℤ◌}
use lufy.Domain.Enums.{Direction}
use lufy.Domain.Models.{Decimal}
use lufy.Majority.Trigger.{
  MajorityOutcome, BookSnapshot, MajorityVerdict, is_triggered, determine_majority,
}
use lufy.Majority.Trigger.Laws.{
  IsQuoted, Decides, is_triggered_iff, determine_majority-Decides, exchange, other_outcome,
}
use lufy.Majority.State.{
  MajorityMarketState, MajorityState, Call, new_state, call, run_calls, open_window_call,
  await_trigger_call, mark_triggered_call, mark_reading_call, mark_determined_call,
  select_side_call, mark_intent_created_call, mark_state_call, select_side, open_window,
  await_trigger, mark_triggered, mark_reading, mark_determined, reconstruct_locked_side,
}
use lufy.Majority.State.Lock.{Selects, run_calls-locked, run_calls-fired, run_calls-Selects}

-- A book on which the side UP leads.
abbrev book : BookSnapshot
book = record {
  best_bid_up = some (pos 820000);
  best_bid_down = some (pos 170000);
  read_at = 1700000100000;
  fresh = true;
}

abbrev verdict : MajorityVerdict
verdict = record {
  outcome = MajorityOutcome.up;
  best_bid_up = some (pos 820000);
  best_bid_down = some (pos 170000);
}

-- The verdict that the other side leads, which comes too late.
abbrev late_verdict : MajorityVerdict
late_verdict = record {
  outcome = MajorityOutcome.down;
  best_bid_up = some (pos 400000);
  best_bid_down = some (pos 590000);
}

abbrev fresh_state : MajorityMarketState
fresh_state = new_state (codes "btc-updown-5m") 1700000300 200

abbrev window : List Call
window =
    open_window_call
    ∷ await_trigger_call
    ∷ mark_triggered_call book 1700000100100
    ∷ mark_reading_call
    ∷ mark_determined_call verdict book
    ∷ select_side_call verdict book 1700000100200
    ∷ []

-- What comes after the lock, another trigger and another selection among it.
abbrev afterwards : List Call
afterwards =
    mark_intent_created_call
    ∷ mark_triggered_call book 1700000150000
    ∷ select_side_call late_verdict book 1700000160000
    ∷ mark_state_call MajorityState.working
    ∷ []

abbrev locked_state : MajorityMarketState
locked_state = record fresh_state {
  state = MajorityState.side_selected;
  trigger_snapshot = some book;
  triggered_at = some 1700000100100;
  verdict = some verdict;
  decision_snapshot = some book;
  side_selected_at = some 1700000100200;
  selected_side = some Direction.up;
}

run_calls-window : run_calls window fresh_state ≡ locked_state
unfolding run_calls call select_side open_window await_trigger mark_triggered mark_reading
    mark_determined
run_calls-window = refl

is_triggered-book : is_triggered book (pos 800000) ≡ true
unfolding is_triggered
is_triggered-book = refl

-- A window opened from a persisted intent is locked from the start.
reconstructed :
    (reconstruct_locked_side Direction.down 1700000100300 fresh_state).selected_side
    ≡ some Direction.down
unfolding reconstruct_locked_side
reconstructed = refl

is_triggered_iff_example :
    (is_triggered book (pos 800000) ≡ true)
    ↔ ((u : Decimal) × (d : Decimal) × IsQuoted book u d × ((pos 800000 ≤ℤ u) ⊎ (pos 800000 ≤ℤ d)))
is_triggered_iff_example = is_triggered_iff book (pos 800000)

determine_majority-Decides_example : Decides book (determine_majority book).outcome
determine_majority-Decides_example = determine_majority-Decides book

run_calls-locked_example :
    ((run_calls afterwards locked_state).selected_side ≡ some Direction.up)
    × ((run_calls afterwards locked_state).side_selected_at ≡ some 1700000100200)
run_calls-locked_example =
    run_calls-locked afterwards locked_state Direction.up 1700000100200 refl refl

run_calls-fired_example :
    ((run_calls afterwards locked_state).trigger_snapshot ≡ some book)
    × ((run_calls afterwards locked_state).triggered_at ≡ some 1700000100100)
run_calls-fired_example = run_calls-fired afterwards locked_state book 1700000100100 refl refl

window_side : (run_calls window fresh_state).selected_side ≡ some Direction.up
unfolding run_calls call select_side open_window await_trigger mark_triggered mark_reading
    mark_determined
window_side = refl

run_calls-Selects_example : Any (Selects Direction.up) window
run_calls-Selects_example = run_calls-Selects window fresh_state Direction.up refl window_side
