-- ===== src/Majority/Engine/Event.antt =====
-- What happens to an engine: markets that open and close, restorations, ticks, and restarts of the
-- process, which keep the tables only.
use lufy.Prelude.{ℕ, ◌≡◌, Text}
use lufy.Domain.Health.{RuntimeHealth}
use lufy.Domain.Market.{MarketInstance}
use lufy.Majority.Engine.Tick.{Answers}

pub data EngineEvent : Type 0 where
  open_event : Text → ℕ → EngineEvent
  drop_event restore_event : Text → EngineEvent
  tick_event : MarketInstance → RuntimeHealth → ℕ → Answers → EngineEvent
  restart_event : EngineEvent

-- The event is a tick of the market at the instant.
abbrev pub TicksAt : Text → ℕ → EngineEvent → Type 0
TicksAt slug t (open_event _ _) = ⊥
TicksAt slug t (drop_event _) = ⊥
TicksAt slug t (restore_event _) = ⊥
TicksAt slug t (tick_event m h now answers) = (m.slug ≡ slug) × (now ≡ t)
TicksAt slug t restart_event = ⊥
