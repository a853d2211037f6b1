-- ===== src/Majority/Engine/Submission.antt =====
-- arc/majority/engine.py: `_submit`, from the locked side to the submitter.
use lufy.Prelude.{
  Bool, true, false, Option, none, some, List, [], ◌∷◌, Result, ok, err, if◌then◌else◌,
}
use lufy.Domain.Enums.{Direction}
use lufy.Domain.Models.{Decimal, Order, ExecutionIntent}
use lufy.Execution.Store.{Store}
use lufy.Execution.Intents.{IntentRow, save_intent}
use lufy.Execution.Submit.{SubmitError, market_phase, submit}
use lufy.Execution.Submit
use lufy.Risk.Context.{RiskVerdict, denied}
use lufy.Risk.Engine.{evaluate}
use lufy.Majority.State.{MajorityState, mark_no_trade, mark_intent_created, mark_state}
use lufy.Majority.Config.{MajorityWindowConfig, majority_engine}
use lufy.Majority.Engine.{Setup, Pass, Cell, CellAfter, submission}
use lufy.Majority.Engine.Gate.{Failure, gate_direction}
use lufy.Majority.Engine.Intent.{entry_price, intent_of, risk_context}

abbrev pub ended : Cell → CellAfter
ended c = record { cell = c; raised = none }

-- A refusal: the window is done without a trade.
abbrev pub refused : Cell → CellAfter
refused c = ended (record c { state = mark_no_trade [] c.state })

-- What the submitter's answer makes of the window. Where the submitter raises it has written
-- nothing: it raises before the first order is saved.
abbrev pub after_submit : Cell → Result SubmitError (Store × List Order) → CellAfter
after_submit c (ok (s, [])) =
    ended (record c { state = mark_no_trade [] c.state; db = record c.db { store = s } })
after_submit c (ok (s, placed ∷ rest)) = ended (record c {
  state = mark_state MajorityState.submitted c.state;
  db = record c.db { store = s };
})
after_submit c (err market_phase) = refused c
after_submit c (err (Submit.split e)) = record {
  cell = c;
  raised = some (submission (Submit.split e));
}
after_submit c (err (Submit.transition_refused e)) = record {
  cell = c;
  raised = some (submission (Submit.transition_refused e));
}
after_submit c (err Submit.out_of_fuel) = record {
  cell = c;
  raised = some (submission Submit.out_of_fuel);
}

-- From `save_intent` on.
abbrev pub persist_and_submit :
    Setup → Pass → ExecutionIntent → Cell → List IntentRow × Bool → CellAfter
persist_and_submit e p i c (rows, false) =
    ended (record c { state = mark_intent_created c.state; submitted = true })
persist_and_submit e p i c (rows, true) =
    after_submit
      (record c {
        state = mark_intent_created c.state;
        submitted = true;
        db = record c.db { intents = rows };
      })
      (submit p.place i 1 p.market.phase p.now e.minimum e.size_step majority_engine c.db.store)

-- The direction gate, and what follows it.
abbrev pub gated : Setup → Pass → ExecutionIntent → Cell → Option Failure → CellAfter
gated e p i c (some failure) = refused c
gated e p i c none = persist_and_submit e p i c (save_intent i majority_engine c.db.intents)

-- The risk gates, and what follows them.
unfoldable pub judged : Setup → MajorityWindowConfig → Pass → ExecutionIntent → Cell → CellAfter
unfolding evaluate risk_context gate_direction save_intent submit mark_no_trade mark_intent_created
    mark_state
judged e w p i c =
    let verdict : RiskVerdict = evaluate (risk_context e w p i c.db.intents) in
    if denied verdict
    then refused c
    else gated e p i c (gate_direction e.tick_size c w p.market i verdict)

-- The price, and what follows it.
abbrev pub priced_order :
    Setup → MajorityWindowConfig → Pass → Cell → Direction → Option Decimal → CellAfter
priced_order e w p c d none = refused c
priced_order e w p c d (some price) = judged e w p (intent_of e w p c.state d price) c

abbrev pub directed : Setup → MajorityWindowConfig → Pass → Cell → Option Direction → CellAfter
directed e w p c none = refused c
directed e w p c (some d) = priced_order e w p c d (entry_price e w c.state d)

-- `_submit`
unfoldable pub submit_window : Setup → MajorityWindowConfig → Pass → Cell → CellAfter
unfolding judged intent_of entry_price
submit_window e w p c = if c.submitted then ended c else directed e w p c c.state.selected_side
