-- ===== src/Majority/Engine/Advance/Submitting.antt =====
-- The submission of a window that has the evidence for its side: a refusal, or one justified
-- decision.
use lufy.Prelude.{
  ℕ, ◌≡◌, refl, sym, ap, ◌∙◌, true≢false, inl, inr, Bool, true, false, Option, none, some, List, [],
  ◌∷◌, ◌++◌, Result, ok, err, arith, Bool-cases, Option-cases, if◌then◌else◌,
}
use lufy.Domain.Enums.{Direction}
use lufy.Domain.Models.{Decimal, Order, ExecutionIntent}
use lufy.Domain.Money.{quantize_price}
use lufy.Execution.Intents.{has_intent, new_row, conflicts, save_intent}
use lufy.Execution.Store.{Store}
use lufy.Execution.Submit
use lufy.Execution.Submit.{Place, SubmitError, submit}
use lufy.Risk.Context.{RiskContext}
use lufy.Risk.Engine.{evaluate}
use lufy.Risk.Admission.{evaluate-allowed_iff}
use lufy.Majority.Trigger.{BookSnapshot, determine_majority, outcome_direction}
use lufy.Majority.Trigger.{compare_bids}
use lufy.Majority.Trigger.Laws.{IsQuoted}
use lufy.Majority.State.{MajorityMarketState, mark_no_trade, mark_intent_created}
use lufy.Majority.Config.{MajorityWindowConfig, majority_engine, window_for}
use lufy.Majority.Engine.{Setup, Pass, Cell, EngineError}
use lufy.Majority.Engine.Gate.{side_bid, gate_direction}
use lufy.Majority.Engine.Gate.Passed.{IsPassed, gate_direction-IsPassed}
use lufy.Majority.Engine.Intent.{
  price_of_book, priced, live_entry_price, entry_price, intent_of, risk_context,
}
use lufy.Majority.Engine.Submission.{
  ended, after_submit, persist_and_submit, judged, priced_order, directed, submit_window,
}
use lufy.Majority.Engine.Event.{EngineEvent}
use lufy.Majority.Engine.Tick.{is_side_selected}
use lufy.Majority.Engine.Justified.{Evidence, FiredIn}
use lufy.Majority.Engine.Advance.{Leads, IsJustified, Orders, IsStep}

refused-IsStep :
    (e : Setup) (past : List EngineEvent) (w : MajorityWindowConfig) (p : Pass) (c : Cell)
    (raised : Option EngineError)
    → FiredIn past p.market.slug c.state
    → IsStep e past w p c
        (record { cell = record c { state = mark_no_trade [] c.state }; raised = raised })
unfolding mark_no_trade
refused-IsStep e past w p c raised fired = record {
  effect = inl refl;
  sound = λ unsubmitted. record { quiet = quiet; fired = λ t h. fired t (sym same ∙ h) };
}
  where
    quiet : is_side_selected (mark_no_trade [] c.state).state ≡ false
    quiet = ground arith

    same : (mark_no_trade [] c.state).triggered_at ≡ c.state.triggered_at
    same = ground arith

leading :
    (b : BookSnapshot) (d : Direction)
    → b.fresh ≡ true
    → some d ≡ outcome_direction (determine_majority b).outcome
    → (u : Decimal) × (v : Decimal) × IsQuoted b u v × Leads d u v
unfolding determine_majority
leading b d fresh side = read d b.best_bid_up b.best_bid_down refl refl (ground arith)
  where
    read :
        (d : Direction) (u v : Option Decimal)
        → b.best_bid_up ≡ u
        → b.best_bid_down ≡ v
        → some d ≡ outcome_direction (compare_bids u v)
        → (u : Decimal) × (v : Decimal) × IsQuoted b u v × Leads d u v
    read d none v eu ev h = ground arith
    read d (some u) none eu ev h = ground arith
    read Direction.up (some u) (some v) eu ev h = (u, v, ground arith, ground arith)
    read Direction.down (some u) (some v) eu ev h = (u, v, ground arith, ground arith)

-- The price with the combined switch off.
priced-at_bid :
    (tick : ℕ) (w : Option MajorityWindowConfig) (bid : Option Decimal) (price : Decimal)
    → priced tick w bid ≡ some price
    → (b : Decimal) × (bid ≡ some b) × (price ≡ quantize_price b tick)
priced-at_bid tick w none price h = ground arith
priced-at_bid tick none (some b) price h = ground arith
priced-at_bid tick (some w) (some b) price h = (b, refl, ground arith)

price_of_book-at_bid :
    (tick : ℕ) (w : Option MajorityWindowConfig) (d : Direction) (o : Option BookSnapshot)
    (b : BookSnapshot) (price : Decimal)
    → o ≡ some b
    → price_of_book tick w d o ≡ some price
    → (bid : Decimal) × (side_bid d b ≡ some bid) × (price ≡ quantize_price bid tick)
price_of_book-at_bid tick w d none b price e h = ground arith
price_of_book-at_bid tick w d (some b') b price e h =
    let (bid, here, same) = priced-at_bid tick w (side_bid d b') price (ground arith) in
    (bid, ground arith, same)

module _ (e : Setup) (s : MajorityMarketState) (w : MajorityWindowConfig) (d : Direction)
    (b : BookSnapshot) (price : Decimal) (priced_so : entry_price e w s d ≡ some price) where
  entry_price-at_target : e.config.trigger_limit_enabled ≡ true → price ≡ w.target_limit_price
  unfolding entry_price
  entry_price-at_target switch = ground arith

  entry_price-at_bid :
      s.decision_snapshot ≡ some b
      → e.config.trigger_limit_enabled ≡ false
      → (bid : Decimal) × (side_bid d b ≡ some bid) × (price ≡ quantize_price bid e.tick_size)
  unfolding entry_price live_entry_price
  entry_price-at_bid decision switch =
      price_of_book-at_bid e.tick_size (window_for s.execution_window_seconds e.config) d
        s.decision_snapshot b price decision (ground arith)

-- One window about to submit, with the evidence for its side and a price.
module _ (e : Setup) (w : MajorityWindowConfig) (p : Pass) (c : Cell) (d : Direction)
    (price : Decimal) (past : List EngineEvent) (fired : FiredIn past p.market.slug c.state)
    (evidence : Evidence p c.state) (side : c.state.selected_side ≡ some d)
    (priced_so : entry_price e w c.state d ≡ some price) where
  abbrev proposal : ExecutionIntent
  proposal = intent_of e w p c.state d price

  abbrev context : RiskContext
  context = risk_context e w p proposal c.db.intents

  side_bid-read :
      (d : Direction) (bid : Decimal)
      → side_bid d evidence.book ≡ some bid
      → p.book d ≡ ok (some bid)
  side_bid-read Direction.up bid h = evidence.read_up ∙ ap (λ (b : Option Decimal). ok b) h
  side_bid-read Direction.down bid h = evidence.read_down ∙ ap (λ (b : Option Decimal). ok b) h

  justify :
      (evaluate context).allowed ≡ true
      → IsPassed e.tick_size c w p.market proposal evidence.book
      → IsJustified e w p c.db.intents proposal
  unfolding intent_of
  justify allowed passed =
      let (u, v, quoted, leads) = leading evidence.book d passed.is_fresh (ground arith) in
      record {
        up_bid = u;
        down_bid = v;
        same_market = refl;
        same_window = refl;
        read_up = side_bid-read Direction.up u quoted.up_bid;
        read_down = side_bid-read Direction.down v quoted.down_bid;
        leads = leads;
        admitted = (evaluate-allowed_iff context).0 allowed;
        same_size = refl;
        on_grid = passed.on_grid;
        at_target = entry_price-at_target e c.state w d evidence.book price priced_so;
        at_bid = λ switch.
            let (bid, here, same) =
              entry_price-at_bid e c.state w d evidence.book price priced_so evidence.decision
                switch in
            (bid, side_bid-read d bid here, same);
      }

  abbrev recorded_cell : Cell
  recorded_cell = record c {
    state = mark_intent_created c.state;
    submitted = true;
    db = record c.db { intents = c.db.intents ++ new_row proposal majority_engine ∷ [] };
  }

  -- Whatever the submitter answers, the step is the decision.
  decided :
      IsJustified e w p c.db.intents proposal
      → evidence.book.fresh ≡ true
      → has_intent p.market.slug w.execution_window_seconds majority_engine c.db.intents ≡ false
      → (state : MajorityMarketState) (s : Store) (raised : Option EngineError)
      → Orders e p proposal c.db.store s
      → IsStep e past w p c (record {
        cell = record {
          state = state;
          submitted = true;
          db = record {
            intents = c.db.intents ++ new_row proposal majority_engine ∷ [];
            store = s;
          };
        };
        raised = raised;
      })
  unfolding intent_of
  decided j fresh new state s raised orders = record {
    effect = inr (record {
      intent = proposal;
      justified = j;
      fired_at = evidence.fired_at;
      fired = evidence.fired;
      ticked = fired evidence.fired_at evidence.fired;
      recent = evidence.recent fresh;
      first = new;
      recorded = refl;
      placed = orders;
    });
    sound = λ unsubmitted. ground arith;
  }

  after_submit-IsStep :
      IsJustified e w p c.db.intents proposal
      → evidence.book.fresh ≡ true
      → has_intent p.market.slug w.execution_window_seconds majority_engine c.db.intents ≡ false
      → (answer : Result SubmitError (Store × List Order))
      → submit p.place proposal 1 p.market.phase p.now e.minimum e.size_step majority_engine
          c.db.store
        ≡ answer
      → IsStep e past w p c (after_submit recorded_cell answer)
  after_submit-IsStep j fresh new (ok (s, [])) h = decided j fresh new _ s none (inr ([], h))
  after_submit-IsStep j fresh new (ok (s, o ∷ os)) h =
      decided j fresh new _ s none (inr (o ∷ os, h))
  after_submit-IsStep j fresh new (err Submit.market_phase) h =
      decided j fresh new _ c.db.store none (inl (_, h, refl))
  after_submit-IsStep j fresh new (err (Submit.split _)) h =
      decided j fresh new _ c.db.store _ (inl (_, h, refl))
  after_submit-IsStep j fresh new (err (Submit.transition_refused _)) h =
      decided j fresh new _ c.db.store _ (inl (_, h, refl))
  after_submit-IsStep j fresh new (err Submit.out_of_fuel) h =
      decided j fresh new _ c.db.store _ (inl (_, h, refl))

  -- The insert that conflicts leaves the tables; the one that does not is the decision.
  persist-IsStep :
      IsJustified e w p c.db.intents proposal
      → evidence.book.fresh ≡ true
      → has_intent p.market.slug w.execution_window_seconds majority_engine c.db.intents ≡ false
      → IsStep e past w p c
          (persist_and_submit e p proposal c (save_intent proposal majority_engine c.db.intents))
  unfolding save_intent
  persist-IsStep j fresh new = elim (Bool-cases (conflicts proposal majority_engine c.db.intents)) [
    | inl taken ↦ rw taken (record { effect = inl refl; sound = λ unsubmitted. ground arith })
    | inr free ↦ rw free (
        after_submit-IsStep j fresh new
          (submit p.place proposal 1 p.market.phase p.now e.minimum e.size_step majority_engine
            c.db.store)
          refl)
  ]

  judged-IsStep : IsStep e past w p c (judged e w p proposal c)
  unfolding judged
  judged-IsStep = elim (Bool-cases (evaluate context).allowed) [
    | inl allowed ↦
        rw allowed
          (elim (Option-cases
            (gate_direction e.tick_size c w p.market proposal (evaluate context))) [
              | inr (failure, e') ↦ rw e' (refused-IsStep e past w p c none fired)
              | inl passes ↦
                  let passed : IsPassed e.tick_size c w p.market proposal evidence.book =
                    gate_direction-IsPassed e.tick_size c w p.market proposal (evaluate context)
                      evidence.book evidence.decision passes in
                  rw passes
                    (persist-IsStep (justify allowed passed) passed.is_fresh passed.new_intent)
            ])
    | inr denied_here ↦ rw denied_here (refused-IsStep e past w p c none fired)
  ]

-- A submission of a window that has the evidence for its side is a refusal or one justified
-- decision.
pub submit_window-IsStep :
    (e : Setup) (w : MajorityWindowConfig) (p : Pass) (c : Cell) (past : List EngineEvent)
    → FiredIn past p.market.slug c.state
    → Evidence p c.state
    → IsStep e past w p c (submit_window e w p c)
unfolding submit_window
submit_window-IsStep e w p c past fired evidence = by_flag c.submitted refl
  where
    by_price :
        (d : Direction) (price : Option Decimal)
        → c.state.selected_side ≡ some d
        → entry_price e w c.state d ≡ price
        → IsStep e past w p c (priced_order e w p c d price)
    by_price d none side h = refused-IsStep e past w p c none fired
    by_price d (some price) side h = judged-IsStep e w p c d price past fired evidence side h

    by_side :
        (d : Option Direction)
        → c.state.selected_side ≡ d
        → IsStep e past w p c (directed e w p c d)
    by_side none h = refused-IsStep e past w p c none fired
    by_side (some d) h = by_price d (entry_price e w c.state d) h refl

    by_flag :
        (flag : Bool)
        → c.submitted ≡ flag
        → IsStep e past w p c (if flag then ended c else directed e w p c c.state.selected_side)
    by_flag true h = record {
      effect = inl refl;
      sound = λ unsubmitted. elim (true≢false (sym h ∙ unsubmitted)) [ ];
    }
    by_flag false h = by_side c.state.selected_side refl
