-- ===== src/Domain/Window/Frozen.antt =====
-- When a window freezes, and that it stays frozen as it is.
use lufy.Prelude.{
  ℕ, ◌≡◌, ◌↔◌, Bool, true, false, some, List, [], ◌∷◌, All, ok, after_call, arith, if◌then◌else◌,
}
use lufy.Prelude.Int.{pos, ◌<ℤ◌, ltb_ℤ, eqb_ℤ}
use lufy.Domain.Enums.{Direction, WindowState}
use lufy.Domain.Models.{Decimal}
use lufy.Domain.Window.{
  ExecutionWindow, is_frozen, trigger_of, freeze, mark_fired, mark_expired, restore_frozen,
}

-- The calls on a window.
pub data Call : Type 0 where
  freeze_call : Decimal → Decimal → Decimal → ℕ → Call
  fire_call : ℕ → Call
  expire_call : Call
  restore_call : Decimal → Decimal → Decimal → Direction → Decimal → ℕ → WindowState → Call

unfoldable pub call : Call → ExecutionWindow → ExecutionWindow
unfolding freeze mark_fired mark_expired restore_frozen
call (freeze_call twap ptb buffer at) w = after_call w (freeze twap ptb buffer at w)
call (fire_call at) w = after_call w (mark_fired at w)
call expire_call w = mark_expired w
call (restore_call twap ptb buffer direction trigger at state) w =
    after_call w (restore_frozen twap ptb buffer direction trigger at state w)

unfoldable pub run : List Call → ExecutionWindow → ExecutionWindow
run [] w = w
run (c ∷ cs) w = run cs (call c w)

-- The calls that may end a freeze: the expiry of the window, and its restoration from a stored row,
-- which overwrites the values of any window.
abbrev pub may_thaw : Call → Bool
may_thaw expire_call = true
may_thaw (restore_call twap ptb buffer direction trigger at state) = true
may_thaw (fire_call at) = false
may_thaw (freeze_call twap ptb buffer at) = false

-- The five values that freeze together, and the instant.
pub record SameValues (w w' : ExecutionWindow) : Type 0 where
  pub opening_twap : w'.opening_twap ≡ w.opening_twap
  pub ptb : w'.ptb ≡ w.ptb
  pub buffer : w'.buffer ≡ w.buffer
  pub direction : w'.direction ≡ w.direction
  pub locked_trigger : w'.locked_trigger ≡ w.locked_trigger
  pub frozen_at : w'.frozen_at ≡ w.frozen_at

call_lem :
    (c : Call) (w : ExecutionWindow)
    → is_frozen w ≡ true
    → may_thaw c ≡ false
    → (is_frozen (call c w) ≡ true) × SameValues w (call c w)
unfolding call
call_lem c w h k = ground arith

SameValues-trans : (a b c : ExecutionWindow) → SameValues a b → SameValues b c → SameValues a c
SameValues-trans a b c h k = ground arith

-- A frozen window keeps its five values and the instant of the freeze, and stays frozen, through any
-- calls that freeze it again, with whatever values, or fire it. An expiry and a restoration from
-- the store are not among the calls: the first ends the freeze, and the second has no check.
pub run_frozen :
    (cs : List Call) (w : ExecutionWindow)
    → is_frozen w ≡ true
    → All (λ c. may_thaw c ≡ false) cs
    → (is_frozen (run cs w) ≡ true) × SameValues w (run cs w)
unfolding run
run_frozen [] w h ks = ground arith
run_frozen (c ∷ cs) w h ks =
    let (still, same) = call_lem c w h ks.0 in
    let (still', same') = run_frozen cs (call c w) still ks.1 in
    (still', SameValues-trans w (call c w) (run cs (call c w)) same same')

-- The window with the five values of a freeze, its instant and its state, and else as it was.
abbrev pub frozen_window : Decimal → Decimal → Decimal → ℕ → ExecutionWindow → ExecutionWindow
frozen_window twap ptb buffer at w =
    let direction : Direction = if ltb_ℤ ptb twap then Direction.up else Direction.down in
    record w {
      opening_twap = some twap;
      ptb = some ptb;
      buffer = some buffer;
      direction = some direction;
      locked_trigger = some (trigger_of direction twap buffer);
      frozen_at = some at;
      state = WindowState.frozen;
    }

-- A window freezes exactly where it is not frozen and has not fired, the three values are positive
-- and the opening value is not the price to beat. It then has these three values, the direction of
-- the opening value from the price to beat, the trigger and the instant in place of whatever it had
-- before, as an expired window has; the rest of it is as it was.
pub freeze_iff :
    (twap ptb buffer : Decimal) (at : ℕ) (w w' : ExecutionWindow)
    → (freeze twap ptb buffer at w ≡ ok w') ↔ (
        (is_frozen w ≡ false)
        × (pos 0 <ℤ buffer)
        × (pos 0 <ℤ ptb)
        × (pos 0 <ℤ twap)
        × (eqb_ℤ twap ptb ≡ false)
        × (w' ≡ frozen_window twap ptb buffer at w))
unfolding freeze
freeze_iff twap ptb buffer at w w' = (ground arith, ground arith)
