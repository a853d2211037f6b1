-- ===== src/Majority/Engine.antt =====
-- arc/majority/engine.py: `MajorityEngine`. The engine's two collections are functions of a market
-- and a window's length; the tables of the store that it writes stand beside them. The answers of
-- the venue, a book's best bid or an exception, are parameters, and so is the hash of a trace id.
-- Logging and the prose of a refusal are left out, and so are the views for the dashboard.
pub mod Entry
pub mod Read
pub mod Gate
pub mod Intent
pub mod Submission
pub mod Tick
pub mod Event
pub mod Justified
pub mod Advance
pub mod Runs
pub mod Stuck
pub mod Lively
use lufy.Prelude.{
  ℕ, Bool, true, false, ◌&&◌, Option, none, some, List, Text, text_eq, Result, ok, err, ◌==◌,
  if◌then◌else◌,
}
use lufy.Domain.Enums.{Direction}
use lufy.Domain.Models.{Decimal}
use lufy.Domain.Health.{RuntimeHealth}
use lufy.Domain.Market.{MarketInstance}
use lufy.Execution.Venue.{VenueError}
use lufy.Execution.Store.{Store}
use lufy.Execution.Intents.{IntentRow}
use lufy.Execution.Submit.{Place, SubmitError}
use lufy.Majority.State.{MajorityMarketState, StateError}
use lufy.Majority.Config.{MajorityConfig}

-- What the constructor is given: the configuration, the venue's tick, the submitter's minimum and
-- step, and the hash.
pub record Setup : Type 0 where
  pub config : MajorityConfig
  pub tick_size : ℕ
  pub minimum : ℕ
  pub size_step : ℕ
  pub digest : Text → Text

-- The tables that the engine writes.
pub record Db : Type 0 where
  pub intents : List IntentRow
  pub store : Store

-- The executor's `best_price` for a market: an answer for each side.
abbrev pub Book : Type 0
Book = Direction → Result VenueError (Option Decimal)

-- What one pass of the runtime brings to a window: its market, the health snapshot, the instant,
-- and the venue's answers to what the engine asks it.
pub record Pass : Type 0 where
  pub market : MarketInstance
  pub health : RuntimeHealth
  pub now : ℕ
  pub book : Book
  pub place : Place

-- The exceptions that leave a tick.
pub data EngineError : Type 0 where
  venue : VenueError → EngineError
  window_state : StateError → EngineError
  submission : SubmitError → EngineError

-- A window's state after a step, and the exception that ended the step, if one did.
pub record After : Type 0 where
  pub state : MajorityMarketState
  pub raised : Option EngineError

abbrev pub done : MajorityMarketState → After
done s = record { state = s; raised = none }

-- One window as a tick sees it: its state, whether its key is in `_submitted`, and the tables.
pub record Cell : Type 0 where
  pub state : MajorityMarketState
  pub submitted : Bool
  pub db : Db

pub record CellAfter : Type 0 where
  pub cell : Cell
  pub raised : Option EngineError

-- A collection keyed by a market and a window.
abbrev pub Keyed : Type 0 → Type 0
Keyed A = Text → ℕ → A

abbrev pub same_key : Text → ℕ → Text → ℕ → Bool
same_key slug window slug' window' = text_eq slug slug' && (window == window')

-- `collection[key] = a`
abbrev pub put : {A : Type 0} → Text → ℕ → A → Keyed A → Keyed A
put slug window a m slug' window' =
    if same_key slug window slug' window' then a else m slug' window'

-- The engine with the tables.
pub record EngineState : Type 0 where
  pub states : Keyed (Option MajorityMarketState)
  pub submitted : Keyed Bool
  pub db : Db
