-- ===== src/Majority/Engine/Advance/Windows.antt =====
-- A tick of one window: `_tick_one` on its cell is a step.
use lufy.Prelude.{
  ◌≡◌, refl, inl, inr, Bool, true, false, not, true≢false, sym, ◌∙◌, ℕ, Option, none, is_some, List,
  Any, ltb, ◌+◌, ◌*◌, arith, if◌then◌else◌,
}
use mathlib.Core.Path.{subst}
use mathlib.Core.Option.{some-injective}
use lufy.Majority.State.{
  MajorityState, MajorityMarketState, open_window_state, is_terminal, has_triggered, open_window,
}
use lufy.Majority.Config.{MajorityWindowConfig}
use lufy.Majority.Engine.{Setup, Pass, Cell, After}
use lufy.Majority.Engine.Entry.{evaluate_entry}
use lufy.Majority.Engine.Read.{fresh_read_and_determine}
use lufy.Majority.Engine.Submission.{ended, submit_window}
use lufy.Majority.Engine.Tick.{
  is_side_selected, is_triggered_state, with_state, then_submit, advance_open, tick_cell,
}
use lufy.Majority.Engine.Event.{EngineEvent, TicksAt}
use lufy.Majority.Engine.Justified.{
  FiredIn, IsSound, Waits, IsReady, evaluate_entry-Waits, fresh_read-IsReady,
}
use lufy.Majority.Engine.Advance.{Effect, IsStep}
use lufy.Majority.Engine.Advance.Submitting.{submit_window-IsStep}

module _ (e : Setup) (w : MajorityWindowConfig) (p : Pass) (past : List EngineEvent)
    (ticking : Any (TicksAt p.market.slug p.now) past) where
  -- A step that moves the window's own state only.
  moved-IsStep :
      (c : Cell) (a : After)
      → IsSound past p.market.slug a.state
      → IsStep e past w p c (with_state c a)
  moved-IsStep c a sound = record { effect = inl refl; sound = λ unsubmitted. sound }

  -- A window that waits, or whose condition fires in this pass.
  Waits-IsSound :
      (s s' : MajorityMarketState)
      → FiredIn past p.market.slug s
      → Waits p.now s s'
      → IsSound past p.market.slug s'
  Waits-IsSound s s' fired waits = record {
    quiet = waits.quiet;
    fired = λ t h. elim waits.fires [
      | inl same ↦ fired t (sym same ∙ h)
      | inr now ↦
          subst (λ (u : ℕ). Any (TicksAt p.market.slug u) past)
            (some-injective p.now t (sym now ∙ h)) ticking
    ];
  }

  -- The submission after the read.
  then_submit-IsStep :
      (c : Cell) (s : MajorityMarketState) (a : After)
      → s.triggered_at ≡ c.state.triggered_at
      → FiredIn past p.market.slug s
      → IsReady p s a
      → IsStep e past w p c (then_submit e w p (with_state c a))
  then_submit-IsStep c s a same before r = by_raised (is_some a.raised) refl
    where
      fired : FiredIn past p.market.slug a.state
      fired t h = before t (sym r.same_trigger ∙ h)

      by_selected :
          (selected : Bool)
          → is_side_selected a.state.state ≡ selected
          → IsStep e past w p c (
              if selected
              then submit_window e w p (record c { state = a.state })
              else with_state c a)
      by_selected false h = moved-IsStep c a (record { quiet = h; fired = fired })
      by_selected true h =
          let step : IsStep e past w p (record c { state = a.state })
              (submit_window e w p (record c { state = a.state })) =
            submit_window-IsStep e w p (record c { state = a.state }) past fired (r.ready h) in
          record {
            effect =
                subst
                  (λ (o : Option ℕ).
                    Effect e past w p o c.db
                      (submit_window e w p (record c { state = a.state })).cell.db)
                  (r.same_trigger ∙ same) step.effect;
            sound = step.sound;
          }

      by_raised :
          (raised : Bool)
          → is_some a.raised ≡ raised
          → IsStep e past w p c (
              if raised
              then with_state c a
              else if is_side_selected a.state.state
              then submit_window e w p (record c { state = a.state })
              else with_state c a)
      by_raised true h = moved-IsStep c a (record { quiet = r.calm h; fired = fired })
      by_raised false h = by_selected (is_side_selected a.state.state) refl

  advance_open-IsStep :
      (c : Cell) → IsSound past p.market.slug c.state → IsStep e past w p c (advance_open e w p c)
  unfolding advance_open
  advance_open-IsStep c sound = by_fired (has_triggered c.state) refl
    where
      by_state :
          (at_trigger : Bool)
          → is_triggered_state c.state.state ≡ at_trigger
          → has_triggered c.state ≡ true
          → IsStep e past w p c (
              if at_trigger
              then then_submit e w p (with_state c (fresh_read_and_determine p c.state))
              else then_submit e w p (ended c))
      by_state true h fired =
          then_submit-IsStep c c.state (fresh_read_and_determine p c.state) refl sound.fired
            (fresh_read-IsReady p c.state h fired)
      by_state false h fired =
          then_submit-IsStep c c.state (record { state = c.state; raised = none }) refl sound.fired
            (record {
              same_trigger = refl;
              ready = λ selected. elim (true≢false (sym selected ∙ sound.quiet)) [ ];
              calm = λ raised. sound.quiet;
            })

      by_fired :
          (fired : Bool)
          → has_triggered c.state ≡ fired
          → IsStep e past w p c (
              if not fired
              then with_state c (evaluate_entry e.config w p c.state)
              else if is_triggered_state c.state.state
              then then_submit e w p (with_state c (fresh_read_and_determine p c.state))
              else then_submit e w p (ended c))
      by_fired false h = moved-IsStep c (evaluate_entry e.config w p c.state) (
          Waits-IsSound c.state (evaluate_entry e.config w p c.state).state sound.fired
            (evaluate_entry-Waits e.config w p c.state sound.quiet))
      by_fired true h = by_state (is_triggered_state c.state.state) refl h

  open_window-IsSound :
      (s : MajorityMarketState)
      → IsSound past p.market.slug s
      → IsSound past p.market.slug (open_window s)
  unfolding open_window
  open_window-IsSound s sound = record {
    quiet = still_quiet s.state sound.quiet;
    fired = sound.fired;
  }
    where
      still_quiet :
          (state : MajorityState)
          → is_side_selected state ≡ false
          → is_side_selected (open_window_state state) ≡ false
      still_quiet state h = ground arith

  -- A tick of a window, of which a submitted one is not looked at.
  pub tick_cell-IsStep :
      (c : Cell)
      → (c.submitted ≡ false → IsSound past p.market.slug c.state)
      → IsStep e past w p c (tick_cell e w p c)
  unfolding tick_cell
  tick_cell-IsStep c sound =
      by_flags (is_terminal c.state) c.submitted
        (ltb (p.now + w.execution_window_seconds * 1000) (p.market.close_ts * 1000)) refl
    where
      unmoved : IsStep e past w p c (ended c)
      unmoved = record { effect = inl refl; sound = sound }

      by_flags :
          (terminal submitted early : Bool)
          → c.submitted ≡ submitted
          → IsStep e past w p c (
              if terminal
              then ended c
              else if submitted
              then ended c
              else if early
              then ended c
              else advance_open e w p (record c { state = open_window c.state }))
      by_flags true submitted early h = unmoved
      by_flags false true early h = unmoved
      by_flags false false true h = unmoved
      by_flags false false false h =
          let opened : Cell = record c { state = open_window c.state } in
          let step : IsStep e past w p opened (advance_open e w p opened) =
            advance_open-IsStep opened (open_window-IsSound c.state (sound h)) in
          record { effect = step.effect; sound = step.sound }
