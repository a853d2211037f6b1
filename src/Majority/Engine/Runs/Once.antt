-- ===== src/Majority/Engine/Runs/Once.antt =====
-- What the promise of the tables means for the intents: each is justified, and a window has one at
-- most.
use lufy.Prelude.{
  ℕ, ◌+◌, ◌≤◌, ◌≡◌, refl, sym, inl, inr, false, List, [], ◌∷◌, ◌++◌, keep, length, any, Text,
  text_eq→eq, ==_iff, arith, Bool-cases,
}
use mathlib.Core.Path.{subst}
use lufy.Domain.Models.{ExecutionIntent}
use lufy.Execution.Intents.{IntentRow, is_row, has_intent, new_row}
use lufy.Majority.Config.{majority_engine}
use lufy.Majority.Engine.{Setup, Db}
use lufy.Majority.Engine.Tick.{started}
use lufy.Majority.Engine.Event.{EngineEvent}
use lufy.Majority.Engine.Runs.{run_events}
use lufy.Majority.Engine.Runs.Events.{run_events-Advances}
use lufy.Majority.Engine.Runs.Recorded.{
  rows_of, Explained, Recorded, append_nil, append_assoc, Advances-Recorded,
}

-- Every intent that the engine records in a run has its tick among the run's events. The tick's
-- market is the intent's, and its window is configured; the venue's answers in that tick to the
-- read of both sides give the intent's direction strictly the larger bid; every gate of the risk
-- layer admits the intent on the tick's market and health and on the intents table with the
-- intents before it; the size is the window's; and the price, on the venue's tick grid, is the
-- window's target with the combined switch on and that tick's bid of the chosen side floored to
-- the grid with the switch off. The table with the intents before it has none of the engine for
-- its window.
pub run_events-Recorded :
    (e : Setup) (events : List EngineEvent) (db : Db)
    → Recorded e events db.intents (run_events e events (started db)).db.intents
run_events-Recorded e events db =
    Advances-Recorded e events [] events (started db) refl (run_events-Advances e events db)

-- The number of intents of the engine for a window.
abbrev pub times : Text → ℕ → List IntentRow → ℕ
times slug offset rows = length (keep (is_row slug offset majority_engine) rows)

times_append :
    (slug : Text) (offset : ℕ) (rows : List IntentRow) (r : IntentRow)
    → times slug offset (rows ++ r ∷ []) ≡ times slug offset rows + times slug offset (r ∷ [])
times_append slug offset [] r = ground arith
times_append slug offset (q ∷ rows) r = ground (arith, times_append slug offset rows r)

times_none :
    (slug : Text) (offset : ℕ) (rows : List IntentRow)
    → any (is_row slug offset majority_engine) rows ≡ false
    → times slug offset rows ≡ 0
times_none slug offset [] h = refl
times_none slug offset (q ∷ rows) h = ground (arith, times_none slug offset rows)

record_once :
    (slug : Text) (offset : ℕ) (rows : List IntentRow) (i : ExecutionIntent)
    → has_intent i.market_slug i.offset_seconds majority_engine rows ≡ false
    → times slug offset rows ≤ 1
    → times slug offset (rows ++ new_row i majority_engine ∷ []) ≤ 1
unfolding has_intent
record_once slug offset rows i new once =
    elim (Bool-cases (is_row slug offset majority_engine (new_row i majority_engine))) [
      | inr other ↦ ground (arith, times_append slug offset rows (new_row i majority_engine))
      | inl same ↦
          let m : i.market_slug ≡ slug = text_eq→eq i.market_slug slug (ground arith) in
          let o : i.offset_seconds ≡ offset = (==_iff i.offset_seconds offset).0 (ground arith) in
          let none : times slug offset rows ≡ 0 = times_none slug offset rows (
            subst (λ (n : ℕ). any (is_row slug n majority_engine) rows ≡ false) o
              (subst (λ (t : Text). any (is_row t i.offset_seconds majority_engine) rows ≡ false) m
                new)) in
          ground (arith, times_append slug offset rows (new_row i majority_engine))
    ]

-- A window has at most one intent of the engine: where the tables held at most one when the process
-- started, they hold at most one after any events, restarts included.
pub run_events-times :
    (e : Setup) (events : List EngineEvent) (db : Db) (slug : Text) (offset : ℕ)
    → times slug offset db.intents ≤ 1
    → times slug offset (run_events e events (started db)).db.intents ≤ 1
run_events-times e events db slug offset once =
    let r : Recorded e events db.intents (run_events e events (started db)).db.intents =
      run_events-Recorded e events db in
    subst (λ (l : List IntentRow). times slug offset l ≤ 1) (sym r.appended)
      (over_intents db.intents r.intents r.explained once)
  where
    over_intents :
        (rows : List IntentRow) (intents : List ExecutionIntent)
        → Explained e events rows intents
        → times slug offset rows ≤ 1
        → times slug offset (rows ++ rows_of intents) ≤ 1
    over_intents rows [] h so_far =
        subst (λ (l : List IntentRow). times slug offset l ≤ 1) (sym (append_nil rows)) so_far
    over_intents rows (i ∷ intents) (here, more) so_far =
        subst (λ (l : List IntentRow). times slug offset l ≤ 1)
          (append_assoc rows (new_row i majority_engine ∷ []) (rows_of intents))
          (over_intents (rows ++ new_row i majority_engine ∷ []) intents more
            (record_once slug offset rows i here.first so_far))
