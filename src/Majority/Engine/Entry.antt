-- ===== src/Majority/Engine/Entry.antt =====
-- arc/majority/engine.py: `_evaluate_entry` and `_fire`, which decide when a window's opportunity
-- opens.
use lufy.Prelude.{
  ℕ, Bool, true, false, not, ◌&&◌, Option, none, some, Result, ok, err, if◌then◌else◌,
}
use lufy.Prelude.Int.{pos, ◌+ℤ◌, ◌-ℤ◌, ◌*ℤ◌, leb_ℤ, ltb_ℤ}
use lufy.Domain.Enums.{Direction}
use lufy.Domain.Models.{Decimal}
use lufy.Domain.Market.{Mean, signal_twap, mean}
use lufy.Execution.Venue.{VenueError}
use lufy.Majority.Trigger.{BookSnapshot, is_triggered}
use lufy.Majority.State.{
  MajorityMarketState, StateError, has_triggered, mark_triggered, await_trigger,
}
use lufy.Majority.Config.{MajorityConfig, MajorityWindowConfig, EntryMode, for_window}
use lufy.Majority.Engine.{After, done, Book, Pass, venue, window_state}

-- One read of the book: an exception leaves the state as it stands.
abbrev pub with_bid :
    Result VenueError (Option Decimal) → MajorityMarketState → (Option Decimal → After) → After
with_bid (err e) s next = record { state = s; raised = some (venue e) }
with_bid (ok bid) s next = next bid

-- The read of both sides, UP first.
abbrev pub with_bids :
    Book → MajorityMarketState → (Option Decimal → Option Decimal → After) → After
with_bids book s next =
    with_bid (book Direction.up) s
      λ up_bid. with_bid (book Direction.down) s λ down_bid. next up_bid down_bid

abbrev pub after_method : MajorityMarketState → Result StateError MajorityMarketState → After
after_method s (ok s') = done s'
after_method s (err e) = record { state = s; raised = some (window_state e) }

-- `_fire`
unfoldable pub fire : ℕ → Option Decimal → Option Decimal → MajorityMarketState → After
unfolding mark_triggered
fire now fired_level fired_spot s =
    if has_triggered s
    then done s
    else let armed : MajorityMarketState = record s {
      fired_level = fired_level;
      fired_spot = fired_spot;
    } in
      after_method armed (
        mark_triggered
          (record { best_bid_up = none; best_bid_down = none; read_at = now; fresh = true }) now
          armed)

-- The levels around the reference, set once.
abbrev pub capture : Decimal → Decimal → Option Decimal → MajorityMarketState → MajorityMarketState
capture spot buffer (some reference) s = s
capture spot buffer none s = record s {
  btc_reference = some spot;
  btc_up_trigger = some (spot +ℤ buffer);
  btc_down_trigger = some (spot -ℤ buffer);
}

abbrev pub reaches_up : Decimal → Option Decimal → Bool
reaches_up spot none = false
reaches_up spot (some level) = leb_ℤ level spot

abbrev pub reaches_down : Decimal → Option Decimal → Bool
reaches_down spot none = false
reaches_down spot (some level) = leb_ℤ spot level

-- The comparison of the spot with the two levels, UP first.
abbrev pub compare_levels : ℕ → Decimal → MajorityMarketState → After
compare_levels now spot s =
    if reaches_up spot s.btc_up_trigger
    then fire now s.btc_up_trigger (some spot) s
    else if reaches_down spot s.btc_down_trigger
    then fire now s.btc_down_trigger (some spot) s
    else done (await_trigger s)

-- The branch BTC_TRIGGER. With no spot the window waits, whether its reference is set or not.
abbrev pub btc_gate : ℕ → Decimal → Option Decimal → MajorityMarketState → After
btc_gate now buffer none s = done (await_trigger s)
btc_gate now buffer (some spot) s = compare_levels now spot (capture spot buffer s.btc_reference s)

-- `abs(twap - ptb) >= buffer`, multiplied by the positive count of the mean
abbrev pub moved_by : Decimal → Decimal → Mean → Bool
moved_by buffer ptb twap =
    let distance = twap.sum -ℤ ptb *ℤ pos twap.count in
    let size = if ltb_ℤ distance (pos 0) then pos 0 -ℤ distance else distance in
    leb_ℤ (buffer *ℤ pos twap.count) size

-- The branch TWAP_SUPPORT.
abbrev pub twap_gate : ℕ → Decimal → Option Decimal → Option Mean → MajorityMarketState → After
twap_gate now buffer none twap s = done (await_trigger s)
twap_gate now buffer (some ptb) none s = done (await_trigger s)
twap_gate now buffer (some ptb) (some twap) s =
    if moved_by buffer ptb twap then fire now none none s else done (await_trigger s)

abbrev pub mode_gate : EntryMode → MajorityWindowConfig → Pass → MajorityMarketState → After
mode_gate EntryMode.direct w p s = fire p.now none none s
mode_gate EntryMode.btc_trigger w p s = btc_gate p.now w.buffer p.market.last_btc s
mode_gate EntryMode.twap_support w p s =
    twap_gate p.now w.buffer p.market.ptb (signal_twap p.market) s

unfoldable pub buffer_gate :
    MajorityConfig → MajorityWindowConfig → Pass → MajorityMarketState → After
unfolding for_window fire await_trigger mean
buffer_gate c w p s = mode_gate (for_window w c.buffer_enabled) w p s

-- `_evaluate_entry`
unfoldable pub evaluate_entry :
    MajorityConfig → MajorityWindowConfig → Pass → MajorityMarketState → After
unfolding is_triggered await_trigger buffer_gate
evaluate_entry c w p s =
    if c.trigger_limit_enabled && not s.price_trigger_reached
    then with_bids p.book s (λ up_bid down_bid.
      let snapshot : BookSnapshot = record {
        best_bid_up = up_bid;
        best_bid_down = down_bid;
        read_at = p.now;
        fresh = true;
      } in
      if is_triggered snapshot w.trigger_price
      then buffer_gate c w p (record s { price_trigger_reached = true })
      else done (await_trigger s))
    else buffer_gate c w p s
