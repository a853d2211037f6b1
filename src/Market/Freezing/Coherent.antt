-- ===== src/Market/Freezing/Coherent.antt =====
-- What holds between the live markets and their rows, and that opening a market keeps it.
use lufy.Prelude.{
  ℕ, ◌≡◌, ◌≢◌, refl, sym, ap, ◌∙◌, inl, inr, Bool, true, false, Option, none, some, [], ◌∷◌, ◌++◌,
  Text, codes, text_eq, text_eq→eq, is_some, arith, Bool-cases, true≢false,
}
use lufy.Domain.Enums.{MarketPhase}
use lufy.Domain.Timing.{slug_for}
use lufy.Domain.Market.{MarketInstance, restore_ptb}
use lufy.Execution.Ids.{print}
use lufy.Execution.Ids.Decimals.{print_injective}
use lufy.Market.Table.{
  MarketRow, MarketTable, load_market_row, create_market, load_ptb, ptb_of, save_phase,
}
use lufy.Market.Table.Rows.{has_row}
use lufy.Market.Table.Kept.{
  Keeps, Keeps-refl, Keeps-trans, save_phase-Keeps, Creates, create_market-Creates,
}
use lufy.Market.Rotation.{
  MarketRotator, create, activate, reloaded, restore_phase, restore_row, restore, opened_as,
  open_window,
}

-- A live market has the slug of its window, and a row with its opening reference.
abbrev pub Agrees : MarketTable → Option MarketInstance → Type 0
Agrees t none = Unit
Agrees t (some m) =
    (m.slug ≡ slug_for m.window_ts) × (m.ptb ≡ load_ptb m.slug t) × (has_row m.slug t ≡ true)

-- The two live markets are of different windows, and none closes before one was opened.
abbrev pub Apart : Option MarketInstance → Option MarketInstance → Type 0
Apart none none = Unit
Apart none (some m) = ⊥
Apart (some m) none = Unit
Apart (some m) (some n) = m.window_ts ≢ n.window_ts

pub record Coherent (current closing : Option MarketInstance) (t : MarketTable) : Type 0 where
  pub current_agrees : Agrees t current
  pub closing_agrees : Agrees t closing
  pub apart : Apart current closing

append_cancel : (p a b : Text) → p ++ a ≡ p ++ b → a ≡ b
append_cancel [] a b h = h
append_cancel (c ∷ p) a b h = append_cancel p a b cc

pub slug_for_injective : (m n : ℕ) → slug_for m ≡ slug_for n → m ≡ n
unfolding slug_for
slug_for_injective m n h =
    print_injective m n (append_cancel (codes "btc-updown-5m-") (print m) (print n) h)

pub slugs_differ :
    (m n : MarketInstance)
    → m.slug ≡ slug_for m.window_ts
    → n.slug ≡ slug_for n.window_ts
    → m.window_ts ≢ n.window_ts
    → text_eq m.slug n.slug ≡ false
slugs_differ m n p q apart = elim (Bool-cases (text_eq m.slug n.slug)) [
  | inl same ↦
      elim (apart (
        slug_for_injective m.window_ts n.window_ts (sym p ∙ text_eq→eq m.slug n.slug same ∙ q))) [ ]
  | inr differs ↦ differs
]

pub Agrees-Keeps :
    (a b : MarketTable) (m : Option MarketInstance) → Keeps a b → Agrees a m → Agrees b m
Agrees-Keeps a b none k h = tt
Agrees-Keeps a b (some m) k (p, q, r) = (p, q ∙ sym (k.ptbs m.slug), k.rows m.slug r)

-- A market that was opened or restored on a table.
pub record Restored (window_ts : ℕ) (old : MarketTable) (res : MarketInstance × MarketTable)
    : Type 0 where
  pub window : res.0.window_ts ≡ window_ts
  pub agrees : Agrees res.1 (some res.0)
  pub keeps : Keeps old res.1

activate-Restored :
    (m : MarketInstance) (t : MarketTable)
    → Agrees t (some m)
    → Restored m.window_ts t (activate m t)
activate-Restored m t h =
    let k : Keeps t (save_phase m.slug MarketPhase.active t) =
      save_phase-Keeps m.slug MarketPhase.active t in
    record {
      window = refl;
      agrees = Agrees-Keeps t (save_phase m.slug MarketPhase.active t) (some m) k h;
      keeps = k;
    }

restore_phase-Restored :
    (phase : MarketPhase) (m : MarketInstance) (t : MarketTable)
    → Agrees t (some m)
    → Restored m.window_ts t (restore_phase phase m t)
restore_phase-Restored MarketPhase.dead m t h = record {
  window = refl;
  agrees = h;
  keeps = Keeps-refl t;
}
restore_phase-Restored MarketPhase.discovered m t h = activate-Restored m t h
restore_phase-Restored MarketPhase.active m t h = activate-Restored m t h
restore_phase-Restored MarketPhase.cancelling m t h = activate-Restored m t h
restore_phase-Restored MarketPhase.settling m t h = activate-Restored m t h
restore_phase-Restored MarketPhase.settled m t h = activate-Restored m t h

-- The reference of a market that was reloaded is the row's.
record Reloaded (window_ts : ℕ) (row : MarketRow) (m : MarketInstance) : Type 0 where
  slug : m.slug ≡ slug_for window_ts
  window : m.window_ts ≡ window_ts
  ptb : m.ptb ≡ row.ptb

reloaded-Reloaded :
    (window_ts : ℕ) (row : MarketRow) → Reloaded window_ts row (reloaded row (create window_ts))
unfolding create restore_ptb
reloaded-Reloaded window_ts row = record {
  slug = ground arith;
  window = ground arith;
  ptb = ground arith;
}

restore_row-Restored :
    (window_ts : ℕ) (t : MarketTable) (found : Option MarketRow)
    → load_market_row (slug_for window_ts) t ≡ found
    → is_some found ≡ true
    → Restored window_ts t (restore_row found (create window_ts) t)
unfolding load_ptb
restore_row-Restored window_ts t none p h = elim (true≢false (sym h)) [ ]
restore_row-Restored window_ts t (some row) p h =
    let l : Reloaded window_ts row (reloaded row (create window_ts)) =
      reloaded-Reloaded window_ts row in
    let s : MarketInstance = reloaded row (create window_ts) in
    let res : Restored s.window_ts t (restore_phase row.phase s t) =
      restore_phase-Restored row.phase s t (
        l.slug ∙ ap slug_for (sym l.window),
        l.ptb ∙ sym (ap (λ x. load_ptb x t) l.slug ∙ ap ptb_of p),
        ap (λ x. has_row x t) l.slug ∙ ap is_some p,
      ) in
    record { window = res.window ∙ l.window; agrees = res.agrees; keeps = res.keeps }

opened_as-Restored :
    (window_ts : ℕ) (created : Bool) (t : MarketTable)
    → has_row (slug_for window_ts) t ≡ true
    → (created ≡ true → load_ptb (slug_for window_ts) t ≡ none)
    → Restored window_ts t (opened_as created (create window_ts) t)
unfolding create restore
opened_as-Restored window_ts true t h fresh =
    activate-Restored (create window_ts) t (refl, sym (fresh refl), h)
opened_as-Restored window_ts false t h fresh =
    restore_row-Restored window_ts t (load_market_row (slug_for window_ts) t) refl h

-- Opening the market of a window other than the closing one's keeps the table coherent.
pub record Opens (window_ts : ℕ) (r r' : MarketRotator) : Type 0 where
  pub market : MarketInstance
  pub is_current : r'.current ≡ some market
  pub window : market.window_ts ≡ window_ts
  pub same_closing : r'.closing ≡ r.closing
  pub agrees : Agrees r'.table (some market)
  pub keeps : Keeps r.table r'.table

pub open_window-Opens :
    (window_ts : ℕ) (r : MarketRotator) → Opens window_ts r (open_window window_ts r)
unfolding open_window create
open_window-Opens window_ts r =
    let c : Creates (create window_ts) r.table (create_market (create window_ts) r.table) =
      create_market-Creates (create window_ts) r.table in
    let made : Bool × MarketTable = create_market (create window_ts) r.table in
    let o : Restored window_ts made.1 (opened_as made.0 (create window_ts) made.1) =
      opened_as-Restored window_ts made.0 made.1 c.present c.fresh in
    record {
      market = (opened_as made.0 (create window_ts) made.1).0;
      is_current = refl;
      window = o.window;
      same_closing = refl;
      agrees = o.agrees;
      keeps =
          Keeps-trans r.table made.1 (opened_as made.0 (create window_ts) made.1).1 c.keeps o.keeps;
    }
