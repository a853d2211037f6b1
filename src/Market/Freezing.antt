-- ===== src/Market/Freezing.antt =====
-- arc/runtime/engine.py: the three paths that freeze an opening reference, after it was resolved,
-- and the events of a rotator. The fetches, their deadlines and logging are left out.
pub mod Coherent
pub mod Freezes
pub mod Moves
pub mod Frozen
use lufy.Prelude.{
  ℕ, Bool, true, false, ◌&&◌, ◌||◌, not, Option, none, some, List, [], ◌∷◌, Text, Result, ok, err,
  is_some, if◌then◌else◌,
}
use lufy.Domain.Enums.{MarketPhase}
use lufy.Domain.Models.{Decimal}
use lufy.Domain.Market.{MarketInstance, MarketError}
use lufy.Market.Ptb.{PtbResolution, freeze_ptb_for}
use lufy.Market.Table.{MarketRow, MarketTable, load_market_row, save_ptb}
use lufy.Market.Rotation.{MarketRotator, new_rotator, has_slug, advance, settled, route}

abbrev pub save_resolved : Option Decimal → Text → MarketTable → MarketTable
save_resolved none slug table = table
save_resolved (some value) slug table = save_ptb slug value table

-- The market and the table after `freeze_ptb_for`: where that raises, nothing changed.
abbrev pub after_freezing :
    PtbResolution
    → MarketInstance
    → MarketTable
    → Result MarketError (Bool × MarketInstance)
    → MarketInstance × MarketTable
after_freezing resolution m table (err e) = (m, table)
after_freezing resolution m table (ok (frozen, m')) =
    if frozen then (m', save_resolved resolution.value m'.slug table) else (m', table)

unfoldable pub freeze_and_save :
    PtbResolution → MarketInstance → MarketTable → MarketInstance × MarketTable
unfolding freeze_ptb_for save_ptb
freeze_and_save resolution m table = after_freezing resolution m table (freeze_ptb_for resolution m)

abbrev pub is_dead : MarketPhase → Bool
is_dead MarketPhase.dead = true
is_dead _ = false

abbrev pub is_settling : MarketPhase → Bool
is_settling MarketPhase.settling = true
is_settling _ = false

abbrev pub freeze_open :
    PtbResolution → Option MarketInstance → MarketTable → Option MarketInstance × MarketTable
freeze_open resolution none table = (none, table)
freeze_open resolution (some m) table =
    if is_some m.ptb || is_dead m.phase
    then (some m, table)
    else let (m', table') = freeze_and_save resolution m table in (some m', table')

-- `_attempt_ptb`, from the resolution on
unfoldable pub freeze_current : PtbResolution → MarketRotator → MarketRotator
unfolding freeze_and_save
freeze_current resolution r =
    let (current, table) = freeze_open resolution r.current r.table in
    record r { current = current; table = table }

abbrev pub freeze_settling :
    PtbResolution → Option MarketInstance → MarketTable → Option MarketInstance × MarketTable
freeze_settling resolution none table = (none, table)
freeze_settling resolution (some m) table =
    if not (is_settling m.phase) || is_some m.ptb
    then (some m, table)
    else let (m', table') = freeze_and_save resolution m table in (some m', table')

-- The first loop of `_late_ptb_retry`, at the current market and then at the closing one, each with
-- its own resolution.
unfoldable pub freeze_late : PtbResolution → PtbResolution → MarketRotator → MarketRotator
unfolding freeze_and_save
freeze_late one two r =
    let (current, table) = freeze_settling one r.current r.table in
    let (closing, table') = freeze_settling two r.closing table in
    record r { current = current; closing = closing; table = table' }

abbrev pub is_late : Option MarketRow → Bool
is_late none = false
is_late (some m) = is_settling m.phase && not (is_some m.ptb)

-- The second loop of `_late_ptb_retry`, at the row of a market that is not live.
unfoldable pub freeze_archived : Text → PtbResolution → MarketRotator → MarketRotator
unfolding save_ptb load_market_row
freeze_archived slug resolution r =
    if has_slug slug r.closing
      || has_slug slug r.current
      || not (is_late (load_market_row slug r.table))
    then r
    else record r { table = save_resolved resolution.value slug r.table }

pub data Event : Type 0 where
  advances : ℕ → Event
  observes : Decimal → Event
  settles : Text → Event
  freezes : PtbResolution → Event
  freezes_late : PtbResolution → PtbResolution → Event
  freezes_archived : Text → PtbResolution → Event
  restarts : Event

unfoldable pub step : Event → MarketRotator → MarketRotator
unfolding advance route settled freeze_current freeze_late freeze_archived
step (advances now) r = (advance now r).1
step (observes price) r = route price r
step (settles slug) r = (settled slug r).1
step (freezes resolution) r = freeze_current resolution r
step (freezes_late one two) r = freeze_late one two r
step (freezes_archived slug resolution) r = freeze_archived slug resolution r
step restarts r = new_rotator r.table

unfoldable pub run_events : List Event → MarketRotator → MarketRotator
unfolding step
run_events [] r = r
run_events (e ∷ events) r = run_events events (step e r)
