-- ===== src/Majority/Trigger/Laws.antt =====
-- What the trigger and the determination decide, stated on the two bids.
use lufy.Prelude.{◌≡◌, refl, ◌↔◌, ◌⊎◌, true, Option, none, some, arith}
use lufy.Prelude.Int.{◌≤ℤ◌, ◌<ℤ◌}
use lufy.Domain.Models.{Decimal}
use lufy.Majority.Trigger.{MajorityOutcome, BookSnapshot, is_triggered, determine_majority}

-- A fresh book with a bid on both sides.
pub record IsQuoted (s : BookSnapshot) (u d : Decimal) : Type 0 where
  pub is_fresh : s.fresh ≡ true
  pub up_bid : s.best_bid_up ≡ some u
  pub down_bid : s.best_bid_down ≡ some d

-- The trigger fires exactly when the book is fresh, both sides have a bid and one of the bids is
-- at least the trigger price.
pub is_triggered_iff :
    (s : BookSnapshot) (p : Decimal)
    → (is_triggered s p ≡ true)
      ↔ ((u : Decimal) × (d : Decimal) × IsQuoted s u d × ((p ≤ℤ u) ⊎ (p ≤ℤ d)))
unfolding is_triggered
is_triggered_iff s p = (triggered→, →triggered)
  where
    read :
        (u d : Option Decimal)
        → s.best_bid_up ≡ u
        → s.best_bid_down ≡ d
        → is_triggered s p ≡ true
        → (u : Decimal) × (d : Decimal) × IsQuoted s u d × ((p ≤ℤ u) ⊎ (p ≤ℤ d))
    read none d eu ed h = ground arith
    read (some u) none eu ed h = ground arith
    read (some u) (some d) eu ed h = (u, d, ground arith, ground arith)

    triggered→ :
        is_triggered s p ≡ true
        → (u : Decimal) × (d : Decimal) × IsQuoted s u d × ((p ≤ℤ u) ⊎ (p ≤ℤ d))
    triggered→ h = read s.best_bid_up s.best_bid_down refl refl h

    →triggered :
        ((u : Decimal) × (d : Decimal) × IsQuoted s u d × ((p ≤ℤ u) ⊎ (p ≤ℤ d)))
        → is_triggered s p ≡ true
    →triggered (u, d, q, reached) = ground arith

-- What each outcome says of the book.
abbrev pub Decides : BookSnapshot → MajorityOutcome → Type 0
Decides s MajorityOutcome.up = (u : Decimal) × (d : Decimal) × IsQuoted s u d × (d <ℤ u)
Decides s MajorityOutcome.down = (u : Decimal) × (d : Decimal) × IsQuoted s u d × (u <ℤ d)
Decides s MajorityOutcome.indeterminate = (u d : Decimal) → IsQuoted s u d → u ≡ d

-- The determination is right: a side is named only on a fresh book on which that side's bid is
-- strictly the larger, and no side is named only where no fresh pair of different bids stands.
pub determine_majority-Decides : (s : BookSnapshot) → Decides s (determine_majority s).outcome
unfolding determine_majority
determine_majority-Decides s =
    read s.best_bid_up s.best_bid_down (determine_majority s).outcome refl refl refl
  where
    read :
        (u d : Option Decimal) (o : MajorityOutcome)
        → s.best_bid_up ≡ u
        → s.best_bid_down ≡ d
        → (determine_majority s).outcome ≡ o
        → Decides s o
    read none d MajorityOutcome.up eu ed eo = ground arith
    read none d MajorityOutcome.down eu ed eo = ground arith
    read (some u) none MajorityOutcome.up eu ed eo = ground arith
    read (some u) none MajorityOutcome.down eu ed eo = ground arith
    read (some u) (some d) MajorityOutcome.up eu ed eo = (u, d, ground arith, ground arith)
    read (some u) (some d) MajorityOutcome.down eu ed eo = (u, d, ground arith, ground arith)
    read u d MajorityOutcome.indeterminate eu ed eo = λ u' d' q. ground arith

-- The book with its two sides exchanged.
abbrev pub exchange : BookSnapshot → BookSnapshot
exchange s = record s { best_bid_up = s.best_bid_down; best_bid_down = s.best_bid_up }

abbrev pub other_outcome : MajorityOutcome → MajorityOutcome
other_outcome MajorityOutcome.up = MajorityOutcome.down
other_outcome MajorityOutcome.down = MajorityOutcome.up
other_outcome MajorityOutcome.indeterminate = MajorityOutcome.indeterminate

-- Neither side is favoured: exchanging the two sides of the book exchanges the outcome, and leaves
-- the trigger as it is.
exchange-determine_majority :
    (s : BookSnapshot) (p : Decimal)
    → ((determine_majority (exchange s)).outcome ≡ other_outcome (determine_majority s).outcome)
      × (is_triggered (exchange s) p ≡ is_triggered s p)
unfolding determine_majority is_triggered
exchange-determine_majority s p = (ground arith, ground arith)
