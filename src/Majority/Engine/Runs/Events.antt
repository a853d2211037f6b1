-- ===== src/Majority/Engine/Runs/Events.antt =====
-- Every event keeps the windows sound, and moves the tables by decisions that it justifies.
use lufy.Prelude.{
  ℕ, ◌≡◌, refl, sym, ◌⊎◌, inl, inr, Bool, true, false, not, Option, none, some, is_some, List, [],
  ◌∷◌, ◌++◌, Any, arith, if◌then◌else◌,
}
use mathlib.Core.Path.{subst}
use lufy.Domain.Models.{ExecutionIntent}
use lufy.Domain.Health.{RuntimeHealth}
use lufy.Domain.Market.{MarketInstance}
use lufy.Execution.Intents.{intents_for}
use lufy.Majority.State.{MajorityMarketState}
use lufy.Majority.Config.{MajorityWindowConfig, majority_engine, config_tradable, tradable_windows}
use lufy.Majority.Engine.{Setup, Pass, Db, Cell, EngineState}
use lufy.Majority.Engine.Tick.{
  Answers, tick_found, tick_one, tick_windows, tick, tick_cell, open_market, drop_market,
  restore_all, restore_from_intents, started,
}
use lufy.Majority.Engine.Advance.{Effect, IsStep}
use lufy.Majority.Engine.Advance.Windows.{tick_cell-IsStep}
use lufy.Majority.Engine.Event.{
  EngineEvent, TicksAt, open_event, drop_event, restore_event, tick_event, restart_event,
}
use lufy.Majority.Engine.Runs.{handle, triggered_of, Passes, passes_of, Moves, Advances}
use lufy.Majority.Engine.Runs.Healthy.{
  IsHealthy, IsHealthy-later, Any-last, put-AreSound, open_market-IsHealthy, open_market-db,
  drop_market-db, drop_market-IsHealthy, restore_all-IsHealthy,
}

module _ (e : Setup) (m : MarketInstance) (h : RuntimeHealth) (now : ℕ) (answers : Answers)
    (past : List EngineEvent) (ticking : Any (TicksAt m.slug now) past) where
  -- What the pass of one window does.
  record IsPassed (w : MajorityWindowConfig) (es after : EngineState) : Type 0 where
    healthy : IsHealthy past after
    effect :
        Effect e past w
          (passes_of m h now answers w)
          (triggered_of (es.states m.slug w.execution_window_seconds))
          es.db
          after.db

  tick_one-IsPassed :
      (w : MajorityWindowConfig) (es : EngineState)
      → IsHealthy past es
      → IsPassed w es (tick_one e w (passes_of m h now answers w) es).0
  unfolding tick_one
  tick_one-IsPassed w es healthy = found (es.states m.slug w.execution_window_seconds) refl
    where
      found :
          (o : Option MajorityMarketState)
          → es.states m.slug w.execution_window_seconds ≡ o
          → IsPassed w es (tick_found e w (passes_of m h now answers w) es o).0
      found none k = record { healthy = healthy; effect = inl refl }
      found (some s) k =
          let p : Pass = passes_of m h now answers w in
          let c : Cell = record {
            state = s;
            submitted = es.submitted m.slug w.execution_window_seconds;
            db = es.db;
          } in
          let step : IsStep e past w p c (tick_cell e w p c) =
            tick_cell-IsStep e w p past ticking c
              (λ u. healthy m.slug w.execution_window_seconds s k u) in
          record {
            healthy =
                put-AreSound past m.slug w.execution_window_seconds (tick_cell e w p c).cell.state
                  (tick_cell e w p c).cell.submitted es.states es.submitted step.sound healthy;
            effect =
                subst
                  (λ (o : Option MajorityMarketState).
                    Effect e past w p (triggered_of o) es.db (tick_cell e w p c).cell.db)
                  (sym k) step.effect;
          }

  -- What the rest of the windows does, from the state that a window leaves.
  abbrev ArePassed : List MajorityWindowConfig → EngineState → EngineState → Type 0
  ArePassed ws es after = IsHealthy past after × Passes e past (passes_of m h now answers) ws es

  tick_windows-ArePassed :
      (ws : List MajorityWindowConfig) (es : EngineState)
      → IsHealthy past es
      → ArePassed ws es (tick_windows e m h now answers ws es).0
  unfolding tick_windows Passes
  tick_windows-ArePassed [] es healthy = (healthy, tt)
  tick_windows-ArePassed (w ∷ ws) es healthy =
      by_raised (is_some (tick_one e w (passes_of m h now answers w) es).1)
        (tick_windows-ArePassed ws (tick_one e w (passes_of m h now answers w) es).0 first.healthy)
    where
      first : IsPassed w es (tick_one e w (passes_of m h now answers w) es).0
      first = tick_one-IsPassed w es healthy

      by_raised :
          (raised : Bool)
          → ArePassed ws
              (tick_one e w (passes_of m h now answers w) es).0
              (tick_windows e m h now answers ws
                (tick_one e w (passes_of m h now answers w) es).0).0
          → IsHealthy past
              (if raised
                then tick_one e w (passes_of m h now answers w) es
                else tick_windows e m h now answers ws
                    (tick_one e w (passes_of m h now answers w) es).0).0
            × (Effect e past w
                  (passes_of m h now answers w)
                  (triggered_of (es.states m.slug w.execution_window_seconds))
                  es.db
                  (tick_one e w (passes_of m h now answers w) es).0.db
                × (if raised
                    then Unit
                    else Passes e past
                        (passes_of m h now answers)
                        ws
                        (tick_one e w (passes_of m h now answers w) es).0))
      by_raised true rest = (first.healthy, (first.effect, tt))
      by_raised false rest = (rest.0, (first.effect, rest.1))

  -- A tick changes nothing, or passes over the windows.
  tick-Passes :
      (es : EngineState)
      → IsHealthy past es
      → IsHealthy past (tick e m h now answers es).0
        × (((tick e m h now answers es).0 ≡ es)
            ⊎ Passes e past (passes_of m h now answers) (tradable_windows e.config) es)
  unfolding tick
  tick-Passes es healthy = by_tradable (config_tradable e.config)
    where
      by_tradable :
          (tradable : Bool)
          → IsHealthy past
              (if not tradable
                then (es, none)
                else tick_windows e m h now answers (tradable_windows e.config) es).0
            × (((if not tradable
                    then (es, none)
                    else tick_windows e m h now answers (tradable_windows e.config) es).0
                  ≡ es)
                ⊎ Passes e past (passes_of m h now answers) (tradable_windows e.config) es)
      by_tradable false = (healthy, inl refl)
      by_tradable true =
          let r : ArePassed (tradable_windows e.config) es
              (tick_windows e m h now answers (tradable_windows e.config) es).0 =
            tick_windows-ArePassed (tradable_windows e.config) es healthy in
          (r.0, inr r.1)

-- An event, with what it does to the tables.
record IsMove (e : Setup) (past : List EngineEvent) (event : EngineEvent) (es after : EngineState)
    : Type 0 where
  healthy : IsHealthy (past ++ event ∷ []) after
  moves : Moves e past event es

handle-IsMove :
    (e : Setup) (past : List EngineEvent) (event : EngineEvent) (es : EngineState)
    → IsHealthy past es
    → IsMove e past event es (handle e event es)
unfolding handle restore_from_intents Moves
handle-IsMove e past (open_event slug close_ts) es healthy = record {
  healthy =
      IsHealthy-later past (open_event slug close_ts) (open_market e slug close_ts es)
        (open_market-IsHealthy past e slug close_ts es healthy);
  moves = open_market-db e slug close_ts es;
}
handle-IsMove e past (drop_event slug) es healthy = record {
  healthy =
      IsHealthy-later past (drop_event slug) (drop_market slug es)
        (drop_market-IsHealthy past slug es healthy);
  moves = drop_market-db slug es;
}
handle-IsMove e past (restore_event slug) es healthy =
    let intents : List ExecutionIntent = intents_for slug majority_engine es.db.intents in
    let (sound, same) = restore_all-IsHealthy past slug intents es healthy in
    record {
      healthy = IsHealthy-later past (restore_event slug) (restore_all slug intents es) sound;
      moves = same;
    }
handle-IsMove e past (tick_event m h now answers) es healthy =
    let event : EngineEvent = tick_event m h now answers in
    let (sound, moves) =
      tick-Passes e m h now answers (past ++ event ∷ [])
        (Any-last (TicksAt m.slug now) past event (refl, refl)) es
        (IsHealthy-later past event es healthy) in
    record { healthy = sound; moves = moves }
handle-IsMove e past restart_event es healthy = record {
  healthy = λ slug window s k u. ground arith;
  moves = refl;
}

run_events-from :
    (e : Setup) (past events : List EngineEvent) (es : EngineState)
    → IsHealthy past es
    → Advances e past events es
unfolding Advances
run_events-from e past [] es healthy = tt
run_events-from e past (event ∷ events) es healthy =
    let m : IsMove e past event es (handle e event es) = handle-IsMove e past event es healthy in
    (m.moves, run_events-from e (past ++ event ∷ []) events (handle e event es) m.healthy)

-- The engine refines its promise. A process starts on any tables, and any events follow: markets
-- open and close, are restored and tick, and the process restarts. Then event by event the engine
-- changes the tables in ticks only, and in a tick by decisions of the tradable windows, each the
-- first for its window. A decision is justified by its own tick: the venue's answers in it give the
-- intent's direction strictly the larger bid; the window's entry condition, by the state in which
-- the engine holds the window before it, fired at the instant of a tick of this market in this
-- run, at most two seconds ago; every gate of the risk layer admits it on the tick's market and
-- health and the intents table as it stood; its size is the window's; and its price is the window's
-- target or, with the combined switch off, the direction's bid floored to the tick grid. With it
-- come the orders that the submitter makes of that very intent in that tick, and none where the
-- submitter raises.
pub run_events-Advances :
    (e : Setup) (events : List EngineEvent) (db : Db) → Advances e [] events (started db)
run_events-Advances e events db =
    run_events-from e [] events (started db) (λ slug window s k u. ground arith)
