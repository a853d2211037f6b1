-- ===== src/Majority/Engine/Runs.antt =====
-- The engine over any events, and what it promises of the tables.
pub mod Healthy
pub mod Events
pub mod Recorded
pub mod Once
use lufy.Prelude.{
  ℕ, ◌≡◌, List, [], ◌∷◌, ◌++◌, ◌⊎◌, Option, none, some, is_some, Text, if◌then◌else◌,
}
use lufy.Domain.Health.{RuntimeHealth}
use lufy.Domain.Market.{MarketInstance}
use lufy.Majority.Config.{MajorityWindowConfig, tradable_windows}
use lufy.Majority.Engine.{Setup, Pass, Db, EngineState}
use lufy.Majority.State.{MajorityMarketState}
use lufy.Majority.Engine.Event.{
  EngineEvent, open_event, drop_event, restore_event, tick_event, restart_event,
}
use lufy.Majority.Engine.Tick.{
  Answers, pass_of, tick_one, tick, open_market, drop_market, restore_from_intents, started,
}
use lufy.Majority.Engine.Advance.{Effect}

-- A tick that raises leaves the engine as it stands then.
unfoldable pub handle : Setup → EngineEvent → EngineState → EngineState
unfolding tick open_market drop_market restore_from_intents
handle e (open_event slug close_ts) es = open_market e slug close_ts es
handle e (drop_event slug) es = drop_market slug es
handle e (restore_event slug) es = restore_from_intents slug es
handle e (tick_event m h now answers) es = (tick e m h now answers es).0
handle e restart_event es = started es.db

unfoldable pub run_events : Setup → List EngineEvent → EngineState → EngineState
unfolding handle
run_events e [] es = es
run_events e (event ∷ events) es = run_events e events (handle e event es)

-- The instant at which a window's entry condition has fired.
abbrev pub triggered_of : Option MajorityMarketState → Option ℕ
triggered_of none = none
triggered_of (some s) = s.triggered_at

-- The pass of each window in a tick.
abbrev pub passes_of : MarketInstance → RuntimeHealth → ℕ → Answers → MajorityWindowConfig → Pass
passes_of m h now answers w = pass_of m h now (answers w.execution_window_seconds)

-- The windows that one tick passes over, until one raises: each changes the tables by a decision in
-- the window's own pass, or not at all.
unfoldable pub Passes :
    Setup
    → List EngineEvent
    → (MajorityWindowConfig → Pass)
    → List MajorityWindowConfig
    → EngineState
    → Type 0
Passes e past of [] es = Unit
Passes e past of (w ∷ ws) es =
    let (after, raised) = tick_one e w (of w) es in
    let rest : Type 0 = Passes e past of ws after in
    Effect e past w (of w) (triggered_of (es.states (of w).market.slug w.execution_window_seconds))
      es.db after.db
    × (if is_some raised then Unit else rest)

-- What one event does to the tables. Only a tick changes them.
unfoldable pub Moves : Setup → List EngineEvent → EngineEvent → EngineState → Type 0
unfolding handle Passes
Moves e past (open_event slug close_ts) es = (open_market e slug close_ts es).db ≡ es.db
Moves e past (drop_event slug) es = (drop_market slug es).db ≡ es.db
Moves e past (restore_event slug) es = (restore_from_intents slug es).db ≡ es.db
Moves e past (tick_event m h now answers) es =
    ((tick e m h now answers es).0 ≡ es)
    ⊎ Passes e (past ++ tick_event m h now answers ∷ []) (passes_of m h now answers)
        (tradable_windows e.config) es
Moves e past restart_event es = (started es.db).db ≡ es.db

-- What the engine promises of the tables over these very events, after some others.
unfoldable pub Advances : Setup → List EngineEvent → List EngineEvent → EngineState → Type 0
unfolding Moves handle
Advances e past [] es = Unit
Advances e past (event ∷ events) es =
    Moves e past event es × Advances e (past ++ event ∷ []) events (handle e event es)
