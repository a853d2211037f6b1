-- ===== src/Majority/State/Lock.antt =====
-- The write-once facts of a window's state: the side, the trigger, and the executed quantity.
use lufy.Prelude.{ℕ, ◌≡◌, inl, inr, Option-cases, none, some, List, [], ◌∷◌, Any, after_call, arith}
use lufy.Domain.Enums.{Direction}
use lufy.Majority.Trigger.{BookSnapshot, outcome_direction}
use lufy.Majority.State.{MajorityMarketState, Call, select_side_call, call, run_calls}

-- The locked side and the instant at which it was locked.
record IsLocked (d : Direction) (at : ℕ) (s : MajorityMarketState) : Type 0 where
  side : s.selected_side ≡ some d
  time : s.side_selected_at ≡ some at

-- The snapshot that fired the trigger and the instant at which it fired.
record IsFired (b : BookSnapshot) (at : ℕ) (s : MajorityMarketState) : Type 0 where
  snapshot : s.trigger_snapshot ≡ some b
  time : s.triggered_at ≡ some at

call-IsLocked :
    (c : Call) (s : MajorityMarketState) (d : Direction) (at : ℕ)
    → IsLocked d at s
    → IsLocked d at (after_call s (call c s))
unfolding call
call-IsLocked (select_side_call v b now) s d at h = ground arith
call-IsLocked _ s d at h = ground arith

call-side :
    (c : Call) (s : MajorityMarketState) (d : Direction)
    → s.selected_side ≡ some d
    → (after_call s (call c s)).selected_side ≡ some d
unfolding call
call-side (select_side_call v b now) s d h = ground arith
call-side _ s d h = ground arith

call-IsFired :
    (c : Call) (s : MajorityMarketState) (b : BookSnapshot) (at : ℕ)
    → IsFired b at s
    → IsFired b at (after_call s (call c s))
unfolding call
call-IsFired (select_side_call v b' now) s b at h = ground arith
call-IsFired _ s b at h = ground arith

-- A side once locked stays, with the instant of the lock, through any calls that the engine makes in
-- the life of a market.
pub run_calls-locked :
    (cs : List Call) (s : MajorityMarketState) (d : Direction) (at : ℕ)
    → s.selected_side ≡ some d
    → s.side_selected_at ≡ some at
    → ((run_calls cs s).selected_side ≡ some d) × ((run_calls cs s).side_selected_at ≡ some at)
unfolding run_calls
run_calls-locked [] s d at h k = (h, k)
run_calls-locked (c ∷ cs) s d at h k =
    let l : IsLocked d at (after_call s (call c s)) =
      call-IsLocked c s d at (record { side = h; time = k }) in
    run_calls-locked cs (after_call s (call c s)) d at l.side l.time

-- The trigger fires once: its snapshot and its instant stay through any calls that the engine makes
-- in the life of a market.
pub run_calls-fired :
    (cs : List Call) (s : MajorityMarketState) (b : BookSnapshot) (at : ℕ)
    → s.trigger_snapshot ≡ some b
    → s.triggered_at ≡ some at
    → ((run_calls cs s).trigger_snapshot ≡ some b) × ((run_calls cs s).triggered_at ≡ some at)
unfolding run_calls
run_calls-fired [] s b at h k = (h, k)
run_calls-fired (c ∷ cs) s b at h k =
    let l : IsFired b at (after_call s (call c s)) =
      call-IsFired c s b at (record { snapshot = h; time = k }) in
    run_calls-fired cs (after_call s (call c s)) b at l.snapshot l.time

-- The call locks a side: it is a selection with a verdict for that side.
abbrev pub Selects : Direction → Call → Type 0
Selects d (select_side_call v b now) = outcome_direction v.outcome ≡ some d
Selects d _ = ⊥

call_unlocked :
    (c : Call) (s : MajorityMarketState) (d : Direction)
    → s.selected_side ≡ none
    → (after_call s (call c s)).selected_side ≡ some d
    → Selects d c
unfolding call
call_unlocked (select_side_call v b now) s d h k = ground arith
call_unlocked _ s d h k = ground arith

run_calls-side :
    (cs : List Call) (s : MajorityMarketState) (d : Direction)
    → s.selected_side ≡ some d
    → (run_calls cs s).selected_side ≡ some d
unfolding run_calls
run_calls-side [] s d h = h
run_calls-side (c ∷ cs) s d h = run_calls-side cs (after_call s (call c s)) d (call-side c s d h)

-- A side that is locked after some calls on a state with none was locked by one of them: by a
-- selection whose verdict names that side.
pub run_calls-Selects :
    (cs : List Call) (s : MajorityMarketState) (d : Direction)
    → s.selected_side ≡ none
    → (run_calls cs s).selected_side ≡ some d
    → Any (Selects d) cs
unfolding run_calls
run_calls-Selects [] s d h k = ground arith
run_calls-Selects (c ∷ cs) s d h k = elim (Option-cases (after_call s (call c s)).selected_side) [
  | inl open_still ↦ inr (run_calls-Selects cs (after_call s (call c s)) d open_still k)
  | inr (d', locked) ↦ inl (
      call_unlocked c s d h (ground (arith, run_calls-side cs (after_call s (call c s)) d' locked)))
]
