-- ===== src/Domain/Timing.antt =====
-- arc/domain/timing.py: the grid of five-minute markets. An instant `now` is a number of
-- milliseconds; a timestamp of the grid is a number of seconds.
use lufy.Prelude.{ℕ, ◌+◌, ◌*◌, ◌/◌, Bool, ◌&&◌, Text, codes, ◌++◌, ltb, leb}
use lufy.Prelude.Int.{ℤ, sub_ℕ}
use lufy.Execution.Ids.{print}

-- `MARKET_DURATION_SECONDS`
abbrev pub market_duration_seconds : ℕ
market_duration_seconds = 300

unfoldable pub window_ts_for : ℕ → ℕ
window_ts_for now = now / 1000 / market_duration_seconds * market_duration_seconds

unfoldable pub close_ts_for : ℕ → ℕ
close_ts_for window_ts = window_ts + market_duration_seconds

unfoldable pub next_window_ts : ℕ → ℕ
next_window_ts window_ts = window_ts + market_duration_seconds

unfoldable pub slug_for : ℕ → Text
unfolding print
slug_for window_ts = codes "btc-updown-5m-" ++ print window_ts

-- an instant that may lie before the epoch
unfoldable pub activation_ts : ℕ → ℕ → ℤ
activation_ts close_ts offset_seconds = sub_ℕ close_ts offset_seconds

-- `activation_ts(close_ts, offset_seconds) <= now < close_ts`, the offset on the other side
unfoldable pub is_window_open : ℕ → ℕ → ℕ → Bool
is_window_open now close_ts offset_seconds =
    leb (close_ts * 1000) (now + offset_seconds * 1000) && ltb now (close_ts * 1000)
