-- ===== src/Domain/Tests.antt =====
-- A window that freezes above the price to beat, and the theorems at its values.
use lufy.Prelude.{◌≡◌, ◌↔◌, refl, true, false, none, some, List, [], ◌∷◌, ok}
use lufy.Prelude.Int.{pos, ◌+ℤ◌, ◌<ℤ◌, eqb_ℤ}
use lufy.Domain.Enums.{Direction, WindowState}
use lufy.Domain.Window.{ExecutionWindow, is_frozen, freeze, is_window_triggered}
use lufy.Domain.Window.Trigger.{Reaches, freeze_triggers}
use lufy.Domain.Window.Frozen
use lufy.Domain.Window.Frozen.{
  Call, freeze_call, fire_call, run, SameValues, run_frozen, freeze_iff,
}

abbrev pending_window : ExecutionWindow
pending_window = record {
  offset_seconds = 15;
  state = WindowState.pending;
  opening_twap = none;
  ptb = none;
  buffer = none;
  direction = none;
  locked_trigger = none;
  frozen_at = none;
  fired_at = none;
}

abbrev frozen_window : ExecutionWindow
frozen_window = record {
  offset_seconds = 15;
  state = WindowState.frozen;
  opening_twap = some (pos 60010000000);
  ptb = some (pos 60000000000);
  buffer = some (pos 5000000);
  direction = some Direction.up;
  locked_trigger = some (pos 60015000000);
  frozen_at = some 1700000285000;
  fired_at = none;
}

freezes :
    freeze (pos 60010000000) (pos 60000000000) (pos 5000000) 1700000285000 pending_window
    ≡ ok frozen_window
unfolding freeze ◌+ℤ◌
freezes = refl

freeze_triggers_example :
    ((is_window_triggered frozen_window (some (pos 60015000000)) ≡ true)
      ↔ Reaches (pos 60010000000) (pos 60000000000) (pos 5000000) (pos 60015000000))
    × (is_window_triggered frozen_window (some (pos 60010000000)) ≡ false)
freeze_triggers_example =
    freeze_triggers (pos 60010000000) (pos 60000000000) (pos 5000000) (pos 60015000000)
      1700000285000 pending_window frozen_window freezes

-- Another freeze with another value, and then the fire.
abbrev calls : List Call
calls =
    freeze_call (pos 59000000000) (pos 60000000000) (pos 5000000) 1700000286000
    ∷ fire_call 1700000287000
    ∷ []

run_frozen_example :
    (is_frozen (run calls frozen_window) ≡ true)
    × SameValues frozen_window (run calls frozen_window)
run_frozen_example = run_frozen calls frozen_window refl (refl, (refl, tt))

abbrev expired_window : ExecutionWindow
expired_window = record frozen_window { state = WindowState.expired }

abbrev again_frozen : ExecutionWindow
again_frozen =
    Frozen.frozen_window (pos 59000000000) (pos 60000000000) (pos 5000000) 1700000299000
      expired_window

freeze_iff_example :
    (freeze (pos 59000000000) (pos 60000000000) (pos 5000000) 1700000299000 expired_window
      ≡ ok again_frozen)
    ↔ ((is_frozen expired_window ≡ false)
        × (pos 0 <ℤ pos 5000000)
        × (pos 0 <ℤ pos 60000000000)
        × (pos 0 <ℤ pos 59000000000)
        × (eqb_ℤ (pos 59000000000) (pos 60000000000) ≡ false)
        × (again_frozen ≡ again_frozen))
freeze_iff_example =
    freeze_iff (pos 59000000000) (pos 60000000000) (pos 5000000) 1700000299000 expired_window
      again_frozen
