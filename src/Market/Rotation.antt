-- ===== src/Market/Rotation.antt =====
-- arc/market/rotation.py: `MarketRotator`, the market that is open and the one that closes. The
-- windows of a market, the callback `on_settle`, which the rotation does not wait for, and logging
-- are left out.
pub mod Restart
use lufy.Prelude.{
  ℕ, ◌+◌, Bool, true, false, ◌||◌, not, Option, none, some, Result, ok, err, Text, text_eq,
  after_call, ◌==◌, if◌then◌else◌, [],
}
use lufy.Prelude.Int.{pos}
use lufy.Domain.Enums.{MarketPhase}
use lufy.Domain.Models.{Decimal}
use lufy.Domain.Timing.{window_ts_for, slug_for, close_ts_for}
use lufy.Domain.Market.{
  MarketInstance, MarketError, empty_accumulator, restore_ptb, add_observation,
  accepts_observations,
}
use lufy.Market.Table.{
  MarketRow, MarketTable, create_market, load_market_row, save_phase, save_accumulator,
  archive_market,
}

-- A slug is empty where nothing of that kind happened.
pub record RotationEvent : Type 0 where
  pub opened : Text
  pub closed : Text
  pub archived : Text

abbrev pub nothing_happened : RotationEvent
nothing_happened = record { opened = []; closed = []; archived = [] }

-- The rotator, with the table it writes to.
pub record MarketRotator : Type 0 where
  pub current : Option MarketInstance
  pub closing : Option MarketInstance
  pub markets_opened : ℕ
  pub markets_archived : ℕ
  pub observations_routed : ℕ
  pub observations_dropped : ℕ
  pub table : MarketTable

-- The rotator of a process that starts.
abbrev pub new_rotator : MarketTable → MarketRotator
new_rotator table = record {
  current = none;
  closing = none;
  markets_opened = 0;
  markets_archived = 0;
  observations_routed = 0;
  observations_dropped = 0;
  table = table;
}

-- `MarketInstance.create`
unfoldable pub create : ℕ → MarketInstance
unfolding slug_for close_ts_for
create window_ts = record {
  slug = slug_for window_ts;
  window_ts = window_ts;
  close_ts = close_ts_for window_ts;
  phase = MarketPhase.discovered;
  accumulator = empty_accumulator;
  orders = [];
  fills = [];
  ptb = none;
  last_btc = none;
}

abbrev pub activate : MarketInstance → MarketTable → MarketInstance × MarketTable
activate m table =
    (record m { phase = MarketPhase.active }, save_phase m.slug MarketPhase.active table)

abbrev pub restore_price : Option Decimal → MarketInstance → MarketInstance
restore_price none m = m
restore_price (some value) m = after_call m (restore_ptb value m)

-- what of the row is read before its phase
abbrev pub reloaded : MarketRow → MarketInstance → MarketInstance
reloaded row m = record (restore_price row.ptb m) { accumulator = row.accumulator }

abbrev pub restore_phase : MarketPhase → MarketInstance → MarketTable → MarketInstance × MarketTable
restore_phase MarketPhase.dead m table = (record m { phase = MarketPhase.dead }, table)
restore_phase _ m table = activate m table

abbrev pub restore_row :
    Option MarketRow → MarketInstance → MarketTable → MarketInstance × MarketTable
restore_row none m table = activate m table
restore_row (some row) m table = restore_phase row.phase (reloaded row m) table

-- `_restore`
unfoldable pub restore : MarketInstance → MarketTable → MarketInstance × MarketTable
unfolding load_market_row restore_ptb save_phase
restore m table = restore_row (load_market_row m.slug table) m table

abbrev pub opened_as : Bool → MarketInstance → MarketTable → MarketInstance × MarketTable
opened_as true m table = activate m table
opened_as false m table = restore m table

-- `_open`, with the row that `create_market` inserts
unfoldable pub open_window : ℕ → MarketRotator → MarketRotator
unfolding create create_market restore save_phase
open_window window_ts r =
    let (created, inserted) = create_market (create window_ts) r.table in
    let (m, table) = opened_as created (create window_ts) inserted in
    record r { current = some m; markets_opened = r.markets_opened + 1; table = table }

-- `_archive` of the closing market
unfoldable pub archive : MarketInstance → MarketRotator → MarketRotator
unfolding save_accumulator archive_market
archive m r = record r {
  closing = none;
  markets_archived = r.markets_archived + 1;
  table = archive_market m.slug (save_accumulator m.slug m.accumulator r.table);
}

abbrev pub is_over : MarketPhase → Bool
is_over MarketPhase.settled = true
is_over MarketPhase.dead = true
is_over _ = false

abbrev pub reap_closing : Option MarketInstance → MarketRotator → Text × MarketRotator
reap_closing none r = ([], r)
reap_closing (some m) r = if is_over m.phase then (m.slug, archive m r) else ([], r)

-- `_reap`
unfoldable pub reap : MarketRotator → Text × MarketRotator
unfolding archive
reap r = reap_closing r.closing r

abbrev pub archive_closing : Option MarketInstance → MarketRotator → Text × MarketRotator
archive_closing none r = ([], r)
archive_closing (some m) r = (m.slug, archive m r)

-- `_close` of a market, which becomes the closing one
unfoldable pub close : MarketInstance → MarketRotator → MarketRotator
unfolding save_phase save_accumulator
close m r = record r {
  current = none;
  closing = some (record m { phase = MarketPhase.settling });
  table = save_phase m.slug MarketPhase.settling (save_accumulator m.slug m.accumulator r.table);
}

abbrev pub holds_window : ℕ → Option MarketInstance → Bool
holds_window window_ts none = false
holds_window window_ts (some m) = m.window_ts == window_ts

-- The part of `advance` that makes room: what it closed and archived.
abbrev pub close_current : Option MarketInstance → MarketRotator → Text × Text × MarketRotator
close_current none r = ([], [], r)
close_current (some m) r =
    let (archived, r') = archive_closing r.closing r in (m.slug, archived, close m r')

abbrev pub rotate : ℕ → MarketRotator → RotationEvent × MarketRotator
rotate window_ts r =
    let (closed, archived, r') = close_current r.current r in
    (
      record { opened = slug_for window_ts; closed = closed; archived = archived },
      open_window window_ts r',
    )

unfoldable pub advance : ℕ → MarketRotator → RotationEvent × MarketRotator
unfolding window_ts_for reap archive close open_window
advance now r =
    if holds_window (window_ts_for now) r.current
    then (nothing_happened, (reap r).1)
    else rotate (window_ts_for now) r

abbrev pub settle_market : Text → Option MarketInstance → Option MarketInstance
settle_market slug none = none
settle_market slug (some m) =
    if text_eq m.slug slug then some (record m { phase = MarketPhase.settled }) else some m

abbrev pub has_slug : Text → Option MarketInstance → Bool
has_slug slug none = false
has_slug slug (some m) = text_eq m.slug slug

unfoldable pub settled : Text → MarketRotator → Text × MarketRotator
unfolding save_phase reap
settled slug r = reap (record r {
  current = settle_market slug r.current;
  closing = settle_market slug r.closing;
  table =
      if has_slug slug r.closing || has_slug slug r.current
      then save_phase slug MarketPhase.settled r.table
      else r.table;
})

-- One market of `route`: whether it accepts the observation, and the market after it.
abbrev pub observed : MarketInstance → Result MarketError MarketInstance → Bool × MarketInstance
observed m (ok m') = (true, m')
observed m (err e) = (false, m)

abbrev pub deliver : Decimal → Option MarketInstance → Bool × Option MarketInstance
deliver price none = (false, none)
deliver price (some m) =
    if not (accepts_observations m.phase)
    then (false, some m)
    else let (accepted, m') = observed m (add_observation price m) in (accepted, some m')

unfoldable pub route : Decimal → MarketRotator → MarketRotator
unfolding add_observation
route price r =
    let (one, closing) = deliver price r.closing in
    let (two, current) = deliver price r.current in
    if one || two
    then record r {
      closing = closing;
      current = current;
      observations_routed = r.observations_routed + 1;
    }
    else record r {
      closing = closing;
      current = current;
      observations_dropped = r.observations_dropped + 1;
    }
