-- ===== src/Majority/Engine/Read.antt =====
-- arc/majority/engine.py: `_fresh_read_and_determine`, which decides the side of a window.
use lufy.Prelude.{ℕ, ◌+◌, Bool, false, Option, none, some, [], Result, ok, err, leb, if◌then◌else◌}
use lufy.Majority.Trigger.{BookSnapshot, MajorityVerdict, determine_majority, tradable}
use lufy.Majority.State.{
  MajorityMarketState, StateError, mark_reading, mark_determined, select_side, mark_no_trade,
}
use lufy.Majority.Engine.{After, done, Pass}
use lufy.Majority.Engine.Entry.{with_bids}

-- `_FRESH_MAX_AGE_SECONDS`, in milliseconds
abbrev pub fresh_max_age : ℕ
fresh_max_age = 2000

-- `triggered_at is not None and (now - triggered_at) <= _FRESH_MAX_AGE_SECONDS`
abbrev pub is_fresh_at : ℕ → Option ℕ → Bool
is_fresh_at now none = false
is_fresh_at now (some triggered_at) = leb now (triggered_at + fresh_max_age)

-- The handler of `MajorityStateError`.
abbrev pub selected :
    MajorityMarketState → Result StateError MajorityMarketState → MajorityMarketState
selected s (ok s') = s'
selected s (err e) = mark_no_trade [] s

-- From the determination on.
unfoldable pub determine : BookSnapshot → ℕ → MajorityMarketState → MajorityMarketState
unfolding determine_majority mark_determined select_side mark_no_trade
determine snapshot now s =
    let verdict : MajorityVerdict = determine_majority snapshot in
    let determined : MajorityMarketState = mark_determined verdict snapshot s in
    if tradable verdict
    then selected determined (select_side verdict snapshot now determined)
    else mark_no_trade [] determined

-- `_fresh_read_and_determine`
unfoldable pub fresh_read_and_determine : Pass → MajorityMarketState → After
unfolding mark_reading determine
fresh_read_and_determine p s =
    let reading : MajorityMarketState = mark_reading s in
    with_bids p.book reading (λ up_bid down_bid. done (
      determine
        (record {
          best_bid_up = up_bid;
          best_bid_down = down_bid;
          read_at = p.now;
          fresh = is_fresh_at p.now reading.triggered_at;
        })
        p.now reading))
