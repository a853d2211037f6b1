-- ===== src/Majority/Engine/Runs/Recorded.antt =====
-- The intents that a run of events records, each with the tick that explains it.
use lufy.Prelude.{
  ℕ, ◌≡◌, refl, sym, ap, ◌∙◌, inl, inr, ◌⊎◌, All, Bool, true, false, not, none, Option, is_some,
  if◌then◌else◌, List, [], ◌∷◌, ◌++◌, map, Any,
}
use mathlib.Core.Path.{subst}
use lufy.Domain.Models.{ExecutionIntent}
use lufy.Domain.Health.{RuntimeHealth}
use lufy.Domain.Market.{MarketInstance}
use lufy.Execution.Intents.{IntentRow, has_intent, new_row}
use lufy.Majority.Config.{MajorityWindowConfig, majority_engine, config_tradable, tradable_windows}
use lufy.Majority.Engine.{Setup, Db, EngineState}
use lufy.Majority.Engine.Tick.{Answers, tick_one, tick_windows, tick}
use lufy.Majority.Engine.Advance.{IsJustified, Effect}
use lufy.Majority.Engine.Event.{
  EngineEvent, open_event, drop_event, restore_event, tick_event, restart_event,
}
use lufy.Majority.Engine.Runs.{handle, run_events, triggered_of, Passes, passes_of, Moves, Advances}

abbrev pub rows_of : List ExecutionIntent → List IntentRow
rows_of = map (λ i. new_row i majority_engine)

-- The tick of the run that recorded an intent, and why: the run's events are those before the tick,
-- the tick and those after it, and the intent is justified by the tick's pass of a configured
-- window, on the intents table that it found.
pub record IsExplained (e : Setup) (events : List EngineEvent) (rows : List IntentRow)
    (i : ExecutionIntent) : Type 0 where
  pub earlier : List EngineEvent
  pub later : List EngineEvent
  pub market : MarketInstance
  pub health : RuntimeHealth
  pub now : ℕ
  pub answers : Answers
  pub window : MajorityWindowConfig
  pub within : events ≡ earlier ++ tick_event market health now answers ∷ later
  pub configured : Any (λ v. v ≡ window) (tradable_windows e.config)
  pub justified : IsJustified e window (passes_of market health now answers window) rows i
  pub first : has_intent i.market_slug i.offset_seconds majority_engine rows ≡ false

-- Each intent is explained on the table with the intents before it.
abbrev pub Explained : Setup → List EngineEvent → List IntentRow → List ExecutionIntent → Type 0
Explained e events rows [] = Unit
Explained e events rows (i ∷ intents) =
    IsExplained e events rows i
    × Explained e events (rows ++ new_row i majority_engine ∷ []) intents

-- The intents that a run of events recorded between two tables.
pub record Recorded (e : Setup) (events : List EngineEvent) (before after : List IntentRow)
    : Type 0 where
  pub intents : List ExecutionIntent
  pub appended : after ≡ before ++ rows_of intents
  pub explained : Explained e events before intents

pub append_nil : (rows : List IntentRow) → rows ++ [] ≡ rows
append_nil [] = refl
append_nil (r ∷ rows) = ap (λ (l : List IntentRow). r ∷ l) (append_nil rows)

pub append_assoc : (a b c : List IntentRow) → (a ++ b) ++ c ≡ a ++ (b ++ c)
append_assoc [] b c = refl
append_assoc (r ∷ a) b c = ap (λ (l : List IntentRow). r ∷ l) (append_assoc a b c)

append_events : (a b c : List EngineEvent) → (a ++ b) ++ c ≡ a ++ (b ++ c)
append_events [] b c = refl
append_events (x ∷ a) b c = ap (λ (l : List EngineEvent). x ∷ l) (append_events a b c)

-- A table that was not changed.
Recorded-same :
    (e : Setup) (events : List EngineEvent) (a b c : List IntentRow)
    → b ≡ a
    → Recorded e events b c
    → Recorded e events a c
Recorded-same e events a b c same = subst (λ (l : List IntentRow). Recorded e events l c) same

-- What is recorded after the pass of a window.
Effect-Recorded :
    (e : Setup) (events past earlier later : List EngineEvent) (m : MarketInstance)
    (h : RuntimeHealth) (now : ℕ) (answers : Answers) (w : MajorityWindowConfig) (fired : Option ℕ)
    (a b : Db) (c : List IntentRow)
    → events ≡ earlier ++ tick_event m h now answers ∷ later
    → Any (λ v. v ≡ w) (tradable_windows e.config)
    → Effect e past w (passes_of m h now answers w) fired a b
    → Recorded e events b.intents c
    → Recorded e events a.intents c
Effect-Recorded e events past earlier later m h now answers w fired a b c within conf (inl same) =
    Recorded-same e events a.intents b.intents c (ap (λ (x : Db). x.intents) same)
Effect-Recorded e events past earlier later m h now answers w fired a b c within conf
      (inr decision) =
    λ rest. record {
      intents = decision.intent ∷ rest.intents;
      appended =
          rest.appended
          ∙ ap (λ (l : List IntentRow). l ++ rows_of rest.intents) decision.recorded
          ∙ append_assoc a.intents (new_row decision.intent majority_engine ∷ [])
              (rows_of rest.intents);
      explained = (
        record {
          earlier = earlier;
          later = later;
          market = m;
          health = h;
          now = now;
          answers = answers;
          window = w;
          within = within;
          configured = conf;
          justified = decision.justified;
          first = decision.first;
        },
        subst (λ (l : List IntentRow). Explained e events l rest.intents) decision.recorded
            rest.explained,
      );
    }

Any-there :
    (ws vs : List MajorityWindowConfig) (x : MajorityWindowConfig)
    → All (λ w. Any (λ v. v ≡ w) vs) ws
    → All (λ w. Any (λ v. v ≡ w) (x ∷ vs)) ws
Any-there [] vs x h = tt
Any-there (w ∷ ws) vs x h = (inr h.0, Any-there ws vs x h.1)

All-itself : (ws : List MajorityWindowConfig) → All (λ w. Any (λ v. v ≡ w) ws) ws
All-itself [] = tt
All-itself (w ∷ ws) = (inl refl, Any-there ws ws w (All-itself ws))

module _ (e : Setup) (events past earlier later : List EngineEvent) (m : MarketInstance)
    (h : RuntimeHealth) (now : ℕ) (answers : Answers) (c : List IntentRow)
    (within : events ≡ earlier ++ tick_event m h now answers ∷ later) where
  -- The passes of one tick, and what is recorded after them.
  windows-Recorded :
      (ws : List MajorityWindowConfig) (es : EngineState)
      → All (λ w. Any (λ v. v ≡ w) (tradable_windows e.config)) ws
      → Passes e past (passes_of m h now answers) ws es
      → Recorded e events (tick_windows e m h now answers ws es).0.db.intents c
      → Recorded e events es.db.intents c
  unfolding tick_windows Passes
  windows-Recorded [] es confs passes r = r
  windows-Recorded (w ∷ ws) es confs passes r =
      Effect-Recorded e events past earlier later m h now answers w
        (triggered_of (es.states m.slug w.execution_window_seconds)) es.db
        (tick_one e w (passes_of m h now answers w) es).0.db c within confs.0 passes.0
        (by_raised (is_some (tick_one e w (passes_of m h now answers w) es).1) passes.1 r
          (λ more r'.
            windows-Recorded ws (tick_one e w (passes_of m h now answers w) es).0 confs.1 more r'))
    where
      by_raised :
          (raised : Bool)
          → (if raised
              then Unit
              else Passes e past
                  (passes_of m h now answers)
                  ws
                  (tick_one e w (passes_of m h now answers w) es).0)
          → Recorded e events
              (if raised
                then tick_one e w (passes_of m h now answers w) es
                else tick_windows e m h now answers ws
                    (tick_one e w (passes_of m h now answers w) es).0).0.db.intents
              c
          → (Passes e past
                (passes_of m h now answers)
                ws
                (tick_one e w (passes_of m h now answers w) es).0
              → Recorded e events
                  (tick_windows e m h now answers ws
                    (tick_one e w (passes_of m h now answers w) es).0).0.db.intents
                  c
              → Recorded e events (tick_one e w (passes_of m h now answers w) es).0.db.intents c)
          → Recorded e events (tick_one e w (passes_of m h now answers w) es).0.db.intents c
      by_raised true more r' rest = r'
      by_raised false more r' rest = rest more r'

  tick-Recorded :
      (es : EngineState)
      → ((tick e m h now answers es).0 ≡ es)
        ⊎ Passes e past (passes_of m h now answers) (tradable_windows e.config) es
      → Recorded e events (tick e m h now answers es).0.db.intents c
      → Recorded e events es.db.intents c
  unfolding tick
  tick-Recorded es (inl same) r =
      subst (λ (x : EngineState). Recorded e events x.db.intents c) same r
  tick-Recorded es (inr passes) r = by_tradable (config_tradable e.config) r
    where
      by_tradable :
          (tradable : Bool)
          → Recorded e events
              (if not tradable
                then (es, none)
                else tick_windows e m h now answers (tradable_windows e.config) es).0.db.intents
              c
          → Recorded e events es.db.intents c
      by_tradable false r' = r'
      by_tradable true r' =
          windows-Recorded (tradable_windows e.config) es (All-itself (tradable_windows e.config))
            passes r'

pub Advances-Recorded :
    (e : Setup) (events earlier later : List EngineEvent) (es : EngineState)
    → events ≡ earlier ++ later
    → Advances e earlier later es
    → Recorded e events es.db.intents (run_events e later es).db.intents
unfolding run_events Advances Moves handle
Advances-Recorded e events earlier [] es within h = record {
  intents = [];
  appended = sym (append_nil es.db.intents);
  explained = tt;
}
Advances-Recorded e events earlier (event ∷ later) es within (moves, more) =
    by_event event within moves (
      Advances-Recorded e events (earlier ++ event ∷ []) later (handle e event es)
        (within ∙ sym (append_events earlier (event ∷ []) later)) more)
  where
    by_event :
        (event : EngineEvent)
        → events ≡ earlier ++ event ∷ later
        → Moves e earlier event es
        → Recorded e events
            (handle e event es).db.intents
            (run_events e later (handle e event es)).db.intents
        → Recorded e events es.db.intents (run_events e later (handle e event es)).db.intents
    by_event (open_event slug close_ts) here same =
        Recorded-same e events es.db.intents _ _ (ap (λ (x : Db). x.intents) same)
    by_event (drop_event slug) here same =
        Recorded-same e events es.db.intents _ _ (ap (λ (x : Db). x.intents) same)
    by_event (restore_event slug) here same =
        Recorded-same e events es.db.intents _ _ (ap (λ (x : Db). x.intents) same)
    by_event (tick_event m h now answers) here passes =
        tick-Recorded e events (earlier ++ tick_event m h now answers ∷ []) earlier later m h now
          answers _ here es passes
    by_event restart_event here same = λ r. r
