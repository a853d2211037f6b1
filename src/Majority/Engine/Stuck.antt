-- ===== src/Majority/Engine/Stuck.antt =====
-- A book that cannot be read once the entry condition has fired.
use lufy.Prelude.{
  ◌+◌, ◌*◌, ◌≡◌, refl, ◌∙◌, ap, inl, inr, ◌⊎◌, true, false, Option, some, List, [], ◌∷◌, Result, ok,
  err, ltb, arith,
}
use lufy.Domain.Enums.{Direction}
use lufy.Domain.Models.{Decimal}
use lufy.Execution.Venue.{VenueError}
use lufy.Majority.State.{MajorityState, has_triggered, open_window, mark_reading}
use lufy.Majority.Config.{MajorityWindowConfig}
use lufy.Majority.Engine.{Setup, Pass, Cell, venue}
use lufy.Majority.Engine.Read.{fresh_read_and_determine}
use lufy.Majority.Engine.Tick.{tick_cell, advance_open}

-- Passes over one window, one after the other.
unfoldable pub tick_cells : Setup → MajorityWindowConfig → List Pass → Cell → Cell
unfolding tick_cell
tick_cells e w [] c = c
tick_cells e w (p ∷ ps) c = tick_cells e w ps (tick_cell e w p c).cell

-- A window in READING_CLOB.
record IsReading (c : Cell) : Type 0 where
  reading : c.state.state ≡ MajorityState.reading_clob
  fired : has_triggered c.state ≡ true

tick_cell-reading :
    (e : Setup) (w : MajorityWindowConfig) (p : Pass) (c : Cell)
    → IsReading c
    → (tick_cell e w p c).cell ≡ c
unfolding tick_cell advance_open open_window
tick_cell-reading e w p c r = ground arith

tick_cells-reading :
    (e : Setup) (w : MajorityWindowConfig) (ps : List Pass) (c : Cell)
    → IsReading c
    → tick_cells e w ps c ≡ c
unfolding tick_cells
tick_cells-reading e w [] c r = refl
tick_cells-reading e w (p ∷ ps) c r =
    ap (tick_cells e w ps) (tick_cell-reading e w p c r) ∙ tick_cells-reading e w ps c r

-- A read of one of the two sides raises.
abbrev pub IsUnreadable : (Direction → Result VenueError (Option Decimal)) → VenueError → Type 0
IsUnreadable book x =
    (book Direction.up ≡ err x)
    ⊎ ((bid : Option Decimal) × (book Direction.up ≡ ok bid) × (book Direction.down ≡ err x))

-- A window whose entry condition has fired and whose book then cannot be read, once, is lost: the
-- tick raises, the window is left reading, and no later tick, whatever it brings, moves the window
-- or the tables again.
pub tick_cell-Unreadable :
    (e : Setup) (w : MajorityWindowConfig) (p : Pass) (c : Cell) (x : VenueError) (ps : List Pass)
    → c.state.state ≡ MajorityState.triggered
    → has_triggered c.state ≡ true
    → c.submitted ≡ false
    → ltb (p.now + w.execution_window_seconds * 1000) (p.market.close_ts * 1000) ≡ false
    → IsUnreadable p.book x
    → ((tick_cell e w p c).raised ≡ some (venue x))
      × ((tick_cell e w p c).cell.state.state ≡ MajorityState.reading_clob)
      × ((tick_cell e w p c).cell.db ≡ c.db)
      × (tick_cells e w ps (tick_cell e w p c).cell ≡ (tick_cell e w p c).cell)
unfolding tick_cell advance_open open_window fresh_read_and_determine mark_reading
tick_cell-Unreadable e w p c x ps at_trigger fired unsubmitted in_window (inl h) = (
  ground arith,
  ground arith,
  ground arith,
  tick_cells-reading e w ps (tick_cell e w p c).cell
      (record { reading = ground arith; fired = ground arith }),
)
tick_cell-Unreadable e w p c x ps at_trigger fired unsubmitted in_window (inr (bid, h, k)) = (
  ground arith,
  ground arith,
  ground arith,
  tick_cells-reading e w ps (tick_cell e w p c).cell
      (record { reading = ground arith; fired = ground arith }),
)
