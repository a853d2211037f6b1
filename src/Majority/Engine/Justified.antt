-- ===== src/Majority/Engine/Justified.antt =====
-- What the engine knows of a window whose side is selected, and that no step before the submission
-- selects a side without it, from the very answers of its tick.
use lufy.Prelude.{
  ℕ, ◌+◌, ◌≤◌, ◌≡◌, refl, sym, ap, ◌∙◌, ◌⊎◌, inl, inr, true, false, ◌&&◌, not, true≢false, List,
  Any, Text, Option, none, some, is_some, Result, ok, err, if◌then◌else◌, arith, Bool-cases,
  Option-cases,
}
use lufy.Domain.Models.{Decimal}
use lufy.Domain.Market.{Mean, signal_twap}
use lufy.Majority.Trigger.{BookSnapshot, is_triggered, determine_majority, outcome_direction}
use lufy.Majority.State.{
  MajorityMarketState, has_triggered, await_trigger, mark_triggered, mark_reading, select_side,
  mark_determined, mark_no_trade,
}
use lufy.Majority.Config.{MajorityConfig, MajorityWindowConfig, EntryMode, for_window}
use lufy.Domain.Enums.{Direction}
use lufy.Execution.Venue.{VenueError}
use lufy.Majority.Engine.{Pass, After, done}
use lufy.Majority.Engine.Entry.{
  with_bid, fire, reaches_up, reaches_down, moved_by, compare_levels, capture, btc_gate, twap_gate,
  mode_gate, buffer_gate, evaluate_entry,
}
use lufy.Majority.Engine.Read.{is_fresh_at, determine, fresh_read_and_determine}
use lufy.Majority.Engine.Event.{EngineEvent, TicksAt}
use lufy.Majority.Engine.Tick.{is_side_selected, is_triggered_state}

-- The window does not stand before its submission.
abbrev pub IsQuiet : MajorityMarketState → Type 0
IsQuiet s = is_side_selected s.state ≡ false

-- The instant at which the window's entry condition fired is that of a tick of its market.
abbrev pub FiredIn : List EngineEvent → Text → MajorityMarketState → Type 0
FiredIn past slug s = (t : ℕ) → s.triggered_at ≡ some t → Any (TicksAt slug t) past

-- A window between two ticks that has no submission: it never stands before one.
pub record IsSound (past : List EngineEvent) (slug : Text) (s : MajorityMarketState) : Type 0 where
  pub quiet : IsQuiet s
  pub fired : FiredIn past slug s

-- The read in this pass that a locked side rests on.
pub record Evidence (p : Pass) (s : MajorityMarketState) : Type 0 where
  pub book : BookSnapshot
  pub fired_at : ℕ
  pub decision : s.decision_snapshot ≡ some book
  pub side : s.selected_side ≡ outcome_direction (determine_majority book).outcome
  pub fired : s.triggered_at ≡ some fired_at
  pub recent : book.fresh ≡ true → p.now ≤ fired_at + 2000
  pub read_up : p.book Direction.up ≡ ok book.best_bid_up
  pub read_down : p.book Direction.down ≡ ok book.best_bid_down

-- A step before the entry condition has fired: the window stays quiet, and if it fires now, the
-- instant is the step's.
pub record Waits (now : ℕ) (s s' : MajorityMarketState) : Type 0 where
  pub quiet : IsQuiet s'
  pub fires : (s'.triggered_at ≡ s.triggered_at) ⊎ (s'.triggered_at ≡ some now)

await_trigger-Waits :
    (now : ℕ) (s : MajorityMarketState) → IsQuiet s → Waits now s (await_trigger s)
unfolding await_trigger
await_trigger-Waits now s q = record { quiet = ground arith; fires = inl refl }

fire-Waits :
    (now : ℕ) (level spot : Option Decimal) (s : MajorityMarketState)
    → IsQuiet s
    → Waits now s (fire now level spot s).state
unfolding fire mark_triggered
fire-Waits now level spot s q = elim (Bool-cases (has_triggered s)) [
  | inl fired ↦ rw fired (record { quiet = q; fires = inl refl })
  | inr unfired ↦ rw unfired (record { quiet = refl; fires = inr refl })
]

compare_levels-Waits :
    (now : ℕ) (spot : Decimal) (s : MajorityMarketState)
    → IsQuiet s
    → Waits now s (compare_levels now spot s).state
compare_levels-Waits now spot s q = elim (Bool-cases (reaches_up spot s.btc_up_trigger)) [
  | inl above ↦ rw above (fire-Waits now s.btc_up_trigger (some spot) s q)
  | inr under ↦ elim (Bool-cases (reaches_down spot s.btc_down_trigger)) [
    | inl below ↦ rw (under, below) (fire-Waits now s.btc_down_trigger (some spot) s q)
    | inr between ↦ rw (under, between) (await_trigger-Waits now s q)
  ]
]

capture-Waits :
    (now : ℕ) (spot buffer : Decimal) (r : Option Decimal) (s : MajorityMarketState)
    → IsQuiet s
    → Waits now s (compare_levels now spot (capture spot buffer r s)).state
capture-Waits now spot buffer (some r) s q = compare_levels-Waits now spot s q
capture-Waits now spot buffer none s q =
    let w : Waits now (capture spot buffer none s)
        (compare_levels now spot (capture spot buffer none s)).state =
      compare_levels-Waits now spot (capture spot buffer none s) q in
    record { quiet = w.quiet; fires = w.fires }

btc_gate-Waits :
    (now : ℕ) (buffer : Decimal) (spot : Option Decimal) (s : MajorityMarketState)
    → IsQuiet s
    → Waits now s (btc_gate now buffer spot s).state
btc_gate-Waits now buffer none s q = await_trigger-Waits now s q
btc_gate-Waits now buffer (some spot) s q = capture-Waits now spot buffer s.btc_reference s q

twap_gate-Waits :
    (now : ℕ) (buffer : Decimal) (ptb : Option Decimal) (twap : Option Mean)
    (s : MajorityMarketState)
    → IsQuiet s
    → Waits now s (twap_gate now buffer ptb twap s).state
twap_gate-Waits now buffer none twap s q = await_trigger-Waits now s q
twap_gate-Waits now buffer (some ptb) none s q = await_trigger-Waits now s q
twap_gate-Waits now buffer (some ptb) (some twap) s q =
    elim (Bool-cases (moved_by buffer ptb twap)) [
      | inl moved ↦ rw moved (fire-Waits now none none s q)
      | inr near ↦ rw near (await_trigger-Waits now s q)
    ]

mode_gate-Waits :
    (m : EntryMode) (w : MajorityWindowConfig) (p : Pass) (s : MajorityMarketState)
    → IsQuiet s
    → Waits p.now s (mode_gate m w p s).state
mode_gate-Waits EntryMode.direct w p s q = fire-Waits p.now none none s q
mode_gate-Waits EntryMode.btc_trigger w p s q = btc_gate-Waits p.now w.buffer p.market.last_btc s q
mode_gate-Waits EntryMode.twap_support w p s q =
    twap_gate-Waits p.now w.buffer p.market.ptb (signal_twap p.market) s q

buffer_gate-Waits :
    (c : MajorityConfig) (w : MajorityWindowConfig) (p : Pass) (s : MajorityMarketState)
    → IsQuiet s
    → Waits p.now s (buffer_gate c w p s).state
unfolding buffer_gate
buffer_gate-Waits c w p s q = mode_gate-Waits (for_window w c.buffer_enabled) w p s q

trigger_gate-Waits :
    (c : MajorityConfig) (w : MajorityWindowConfig) (p : Pass) (s : MajorityMarketState)
    (up_answer down_answer : Result VenueError (Option Decimal))
    → IsQuiet s
    → Waits p.now s
        (with_bid up_answer s λ up_bid. with_bid down_answer s λ down_bid.
          if is_triggered
            (record {
              best_bid_up = up_bid;
              best_bid_down = down_bid;
              read_at = p.now;
              fresh = true;
            })
            w.trigger_price
          then buffer_gate c w p (record s { price_trigger_reached = true })
          else done (await_trigger s)).state
trigger_gate-Waits c w p s (err e) d q = record { quiet = q; fires = inl refl }
trigger_gate-Waits c w p s (ok u) (err e) q = record { quiet = q; fires = inl refl }
trigger_gate-Waits c w p s (ok u) (ok d) q =
    let reached : MajorityMarketState = record s { price_trigger_reached = true } in
    let gate : Waits p.now reached (buffer_gate c w p reached).state =
      buffer_gate-Waits c w p reached q in
    elim (Bool-cases (
      is_triggered (record { best_bid_up = u; best_bid_down = d; read_at = p.now; fresh = true })
        w.trigger_price)) [
          | inl triggered ↦ rw triggered (record { quiet = gate.quiet; fires = gate.fires })
          | inr quiet_book ↦ rw quiet_book (await_trigger-Waits p.now s q)
        ]

-- The entry condition never brings a window before its submission.
pub evaluate_entry-Waits :
    (c : MajorityConfig) (w : MajorityWindowConfig) (p : Pass) (s : MajorityMarketState)
    → IsQuiet s
    → Waits p.now s (evaluate_entry c w p s).state
unfolding evaluate_entry
evaluate_entry-Waits c w p s q =
    elim (Bool-cases (c.trigger_limit_enabled && not s.price_trigger_reached)) [
      | inl first ↦
          rw first (trigger_gate-Waits c w p s (p.book Direction.up) (p.book Direction.down) q)
      | inr passed ↦ rw passed (buffer_gate-Waits c w p s q)
    ]

-- A window after its read: it stands before its submission only with the evidence for its side, and
-- not where the read has raised.
pub record IsReady (p : Pass) (s : MajorityMarketState) (a : After) : Type 0 where
  pub same_trigger : a.state.triggered_at ≡ s.triggered_at
  pub ready : is_side_selected a.state.state ≡ true → Evidence p a.state
  pub calm : is_some a.raised ≡ true → IsQuiet a.state

-- From a fresh read the window comes out with the evidence for its side.
determine-IsReady :
    (p : Pass) (b : BookSnapshot) (t : ℕ) (s : MajorityMarketState)
    → s.triggered_at ≡ some t
    → (b.fresh ≡ true → p.now ≤ t + 2000)
    → p.book Direction.up ≡ ok b.best_bid_up
    → p.book Direction.down ≡ ok b.best_bid_down
    → IsReady p s (done (determine b p.now s))
unfolding determine select_side mark_determined mark_no_trade
determine-IsReady p b t s fired recent up_so down_so =
    elim (Option-cases (outcome_direction (determine_majority b).outcome)) [
      | inl undecided ↦ record {
        same_trigger = ground arith;
        ready = λ h. ground arith;
        calm = λ h. ground arith;
      }
      | inr (d, leads) ↦ elim (Bool-cases (is_some s.selected_side)) [
        | inl locked ↦ record {
          same_trigger = ground arith;
          ready = λ h. ground arith;
          calm = λ h. ground arith;
        }
        | inr unlocked ↦ record {
          same_trigger = rw (leads, unlocked) refl;
          ready = λ h. record {
            book = b;
            fired_at = t;
            decision = rw (leads, unlocked) refl;
            side = rw (leads, unlocked) refl;
            fired = rw (leads, unlocked) fired;
            recent = recent;
            read_up = up_so;
            read_down = down_so;
          };
          calm = λ h. ground arith;
        }
      ]
    ]

-- The read of the book, or its failure, leaves the window ready.
pub fresh_read-IsReady :
    (p : Pass) (s : MajorityMarketState)
    → is_triggered_state s.state ≡ true
    → has_triggered s ≡ true
    → IsReady p s (fresh_read_and_determine p s)
unfolding fresh_read_and_determine mark_reading
fresh_read-IsReady p s at_trigger fired = elim (Option-cases s.triggered_at) [
  | inl never ↦ elim (true≢false (sym fired ∙ ap is_some never)) [ ]
  | inr (t, at) ↦ with_answers (p.book Direction.up) (p.book Direction.down) refl refl t at
]
  where
    with_answers :
        (up_answer down_answer : Result VenueError (Option Decimal))
        → p.book Direction.up ≡ up_answer
        → p.book Direction.down ≡ down_answer
        → (t : ℕ) → s.triggered_at ≡ some t
        → IsReady p s (
            with_bid up_answer (mark_reading s) λ up_bid.
              with_bid down_answer (mark_reading s) λ down_bid. done (
                determine
                  (record {
                    best_bid_up = up_bid;
                    best_bid_down = down_bid;
                    read_at = p.now;
                    fresh = is_fresh_at p.now s.triggered_at;
                  })
                  p.now
                  (mark_reading s)))
    with_answers (err e) d eu ed t at = record {
      same_trigger = refl;
      ready = λ h. ground arith;
      calm = λ h. ground arith;
    }
    with_answers (ok u) (err e) eu ed t at = record {
      same_trigger = refl;
      ready = λ h. ground arith;
      calm = λ h. ground arith;
    }
    with_answers (ok u) (ok d) eu ed t at =
        let r : IsReady p (mark_reading s) (
            done (
              determine
                (record {
                  best_bid_up = u;
                  best_bid_down = d;
                  read_at = p.now;
                  fresh = is_fresh_at p.now s.triggered_at;
                })
                p.now (mark_reading s))) =
          determine-IsReady p
            (record {
              best_bid_up = u;
              best_bid_down = d;
              read_at = p.now;
              fresh = is_fresh_at p.now s.triggered_at;
            })
            t (mark_reading s) at (λ fresh. ground arith) eu ed in
        record { same_trigger = r.same_trigger; ready = r.ready; calm = r.calm }
