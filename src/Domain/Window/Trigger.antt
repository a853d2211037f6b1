-- ===== src/Domain/Window/Trigger.antt =====
-- What a frozen window waits for.
use lufy.Prelude.{ℕ, ◌≡◌, ◌↔◌, ◌⊎◌, inl, inr, true, false, some, ok, arith}
use lufy.Prelude.Int.{pos, ◌+ℤ◌, ◌-ℤ◌, ◌≤ℤ◌, ◌<ℤ◌, int_laws}
use lufy.Domain.Enums.{Direction}
use lufy.Domain.Models.{Decimal}
use lufy.Domain.Window.{ExecutionWindow, is_frozen, freeze, is_window_triggered}

-- A side that the opening value names, and a value that has moved by the buffer to that side.
abbrev pub Reaches : Decimal → Decimal → Decimal → Decimal → Type 0
Reaches twap ptb buffer x =
    ((ptb <ℤ twap) × (twap +ℤ buffer ≤ℤ x)) ⊎ ((twap <ℤ ptb) × (x ≤ℤ twap -ℤ buffer))

-- The direction and the trigger of a window that froze.
record Aims (twap ptb buffer : Decimal) (w : ExecutionWindow) : Type 0 where
  pub frozen : is_frozen w ≡ true
  pub positive : pos 0 <ℤ buffer
  pub aim :
      ((ptb <ℤ twap)
        × (w.direction ≡ some Direction.up)
        × (w.locked_trigger ≡ some (twap +ℤ buffer)))
      ⊎ ((twap <ℤ ptb)
          × (w.direction ≡ some Direction.down)
          × (w.locked_trigger ≡ some (twap -ℤ buffer)))

freeze-Aims :
    (twap ptb buffer : Decimal) (at : ℕ) (w w' : ExecutionWindow)
    → freeze twap ptb buffer at w ≡ ok w'
    → Aims twap ptb buffer w'
unfolding freeze
freeze-Aims twap ptb buffer at w w' e = record {
  frozen = ground arith;
  positive = ground arith;
  aim = ground arith;
}

-- A window that froze fires exactly on a value that has moved by at least the buffer from the
-- opening value, upwards where that was above the price to beat, downwards where it was below; so
-- it does not fire on the opening value itself.
pub freeze_triggers :
    (twap ptb buffer x : Decimal) (at : ℕ) (w w' : ExecutionWindow)
    → freeze twap ptb buffer at w ≡ ok w'
    → ((is_window_triggered w' (some x) ≡ true) ↔ Reaches twap ptb buffer x)
      × (is_window_triggered w' (some twap) ≡ false)
unfolding is_window_triggered
freeze_triggers twap ptb buffer x at w w' e =
    let a = freeze-Aims twap ptb buffer at w w' e in
    elim a.aim [
      | inl (above, up_side, trigger) ↦ grind (arith, int_laws)
      | inr (below, down_side, trigger) ↦ grind (arith, int_laws)
    ]
