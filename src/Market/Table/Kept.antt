-- ===== src/Market/Table/Kept.antt =====
-- What the writes to the table keep of the opening references in it.
use lufy.Prelude.{
  ◌≡◌, refl, sym, ap, ◌∙◌, inl, inr, Bool, true, false, Option, none, some, [], ◌∷◌, ◌++◌, Text,
  text_eq, text_eq→eq, text_eq_self, is_some, arith, Bool-cases, true≢false, if◌then◌else◌,
}
use lufy.Domain.Enums.{MarketPhase}
use lufy.Domain.Models.{Decimal}
use lufy.Domain.Market.{TwapAccumulator, MarketInstance}
use lufy.Market.Table.{
  MarketRow, MarketTable, load_market_row, update, ptb_of, load_ptb, write_ptb, save_ptb,
  save_phase, save_accumulator, archive_market, create_market, insert, new_row,
}
use lufy.Market.Table.Rows.{mapped, has_row, load-update_same, load-update_other, load-append}

-- No opening reference differs, and no row is lost.
pub record Keeps (old new : MarketTable) : Type 0 where
  pub ptbs : (slug : Text) → load_ptb slug new ≡ load_ptb slug old
  pub rows : (slug : Text) → has_row slug old ≡ true → has_row slug new ≡ true

pub Keeps-refl : (t : MarketTable) → Keeps t t
Keeps-refl t = record { ptbs = λ slug. refl; rows = λ slug h. h }

pub Keeps-trans : (a b c : MarketTable) → Keeps a b → Keeps b c → Keeps a c
Keeps-trans a b c p q = record {
  ptbs = λ slug. q.ptbs slug ∙ p.ptbs slug;
  rows = λ slug h. q.rows slug (p.rows slug h);
}

has_row-mapped :
    (f : MarketRow → MarketRow) (m : Option MarketRow) → is_some (mapped f m) ≡ is_some m
has_row-mapped f none = refl
has_row-mapped f (some m) = refl

ptb_of-mapped :
    (f : MarketRow → MarketRow)
    → ((m : MarketRow) → (f m).ptb ≡ m.ptb)
    → (m : Option MarketRow) → ptb_of (mapped f m) ≡ ptb_of m
ptb_of-mapped f keeps none = refl
ptb_of-mapped f keeps (some m) = keeps m

-- An update loses no row.
pub has_row-update :
    (slug other : Text) (f : MarketRow → MarketRow) (keeps : (m : MarketRow) → (f m).slug ≡ m.slug)
    (t : MarketTable)
    → has_row other (update slug f t) ≡ has_row other t
has_row-update slug other f keeps t = elim (Bool-cases (text_eq slug other)) [
  | inl same ↦
      ap (λ s. has_row s (update slug f t)) (sym (text_eq→eq slug other same))
      ∙ ap is_some (load-update_same slug f keeps t)
      ∙ has_row-mapped f (load_market_row slug t)
      ∙ ap (λ s. has_row s t) (text_eq→eq slug other same)
  | inr apart ↦ ap is_some (load-update_other slug other f keeps t apart)
]

update-Keeps :
    (slug : Text) (f : MarketRow → MarketRow)
    → ((m : MarketRow) → (f m).slug ≡ m.slug)
    → ((m : MarketRow) → (f m).ptb ≡ m.ptb)
    → (t : MarketTable) → Keeps t (update slug f t)
unfolding load_ptb
update-Keeps slug f keeps ptbs t = record {
  ptbs = λ other. elim (Bool-cases (text_eq slug other)) [
    | inl same ↦
        ap (λ s. load_ptb s (update slug f t)) (sym (text_eq→eq slug other same))
        ∙ ap ptb_of (load-update_same slug f keeps t)
        ∙ ptb_of-mapped f ptbs (load_market_row slug t)
        ∙ ap (λ s. load_ptb s t) (text_eq→eq slug other same)
    | inr apart ↦ ap ptb_of (load-update_other slug other f keeps t apart)
  ];
  rows = λ other h. has_row-update slug other f keeps t ∙ h;
}

pub save_phase-Keeps :
    (slug : Text) (phase : MarketPhase) (t : MarketTable) → Keeps t (save_phase slug phase t)
unfolding save_phase
save_phase-Keeps slug phase t =
    update-Keeps slug (λ m. record m { phase = phase }) (λ m. refl) (λ m. refl) t

pub save_accumulator-Keeps :
    (slug : Text) (a : TwapAccumulator) (t : MarketTable) → Keeps t (save_accumulator slug a t)
unfolding save_accumulator
save_accumulator-Keeps slug a t =
    update-Keeps slug (λ m. record m { accumulator = a }) (λ m. refl) (λ m. refl) t

pub archive_market-Keeps : (slug : Text) (t : MarketTable) → Keeps t (archive_market slug t)
unfolding archive_market
archive_market-Keeps slug t =
    update-Keeps slug (λ m. record m { archived = true }) (λ m. refl) (λ m. refl) t

-- Creating a market keeps the table's references, and its slug has a row after it.
pub record Creates (m : MarketInstance) (t : MarketTable) (res : Bool × MarketTable) : Type 0 where
  pub keeps : Keeps t res.1
  pub present : has_row m.slug res.1 ≡ true
  pub fresh : res.0 ≡ true → load_ptb m.slug res.1 ≡ none

append-Keeps : (m : MarketInstance) (t : MarketTable) → Keeps t (t ++ (new_row m ∷ []))
unfolding load_ptb
append-Keeps m t = record {
  ptbs = λ slug. rw (load-append slug (new_row m) t) (appended slug (load_market_row slug t));
  rows = λ slug h. rw (load-append slug (new_row m) t) (rw h h);
}
  where
    appended :
        (slug : Text) (found : Option MarketRow)
        → ptb_of (
            if is_some found then found else if text_eq m.slug slug then some (new_row m) else none)
          ≡ ptb_of found
    appended slug found = ground arith

pub create_market-Creates : (m : MarketInstance) (t : MarketTable) → Creates m t (create_market m t)
unfolding create_market load_ptb
create_market-Creates m t = by_row (load_market_row m.slug t) refl
  where
    by_row :
        (found : Option MarketRow)
        → load_market_row m.slug t ≡ found
        → Creates m t (insert m found t)
    by_row none p = record {
      keeps = append-Keeps m t;
      present = rw (load-append m.slug (new_row m) t, p, text_eq_self m.slug) refl;
      fresh = λ _. (append-Keeps m t).ptbs m.slug ∙ ap ptb_of p;
    }
    by_row (some row) p = record {
      keeps = Keeps-refl t;
      present = ap is_some p;
      fresh = λ h. elim (true≢false (sym h)) [ ];
    }

write_ptb_slug : (value : Decimal) (m : MarketRow) → (write_ptb value m).slug ≡ m.slug
write_ptb_slug value m = ground arith

-- A reference that is written is never overwritten.
pub save_ptb-keeps :
    (slug other : Text) (value old : Decimal) (t : MarketTable)
    → load_ptb other t ≡ some old
    → load_ptb other (save_ptb slug value t) ≡ some old
unfolding load_ptb save_ptb
save_ptb-keeps slug other value old t h = elim (Bool-cases (text_eq slug other)) [
  | inl same ↦
      let e : slug ≡ other = text_eq→eq slug other same in
      rw⁻¹ e (
        rw (load-update_same slug (write_ptb value) (write_ptb_slug value) t)
          (held (load_market_row slug t) (ap (λ s. load_ptb s t) e ∙ h)))
  | inr apart ↦
      ap ptb_of (load-update_other slug other (write_ptb value) (write_ptb_slug value) t apart) ∙ h
]
  where
    held :
        (found : Option MarketRow)
        → ptb_of found ≡ some old
        → ptb_of (mapped (write_ptb value) found) ≡ some old
    held found h = ground arith

pub save_ptb-writes :
    (slug : Text) (value : Decimal) (t : MarketTable)
    → has_row slug t ≡ true
    → load_ptb slug t ≡ none
    → load_ptb slug (save_ptb slug value t) ≡ some value
unfolding load_ptb save_ptb
save_ptb-writes slug value t h p =
    ap ptb_of (load-update_same slug (write_ptb value) (write_ptb_slug value) t)
    ∙ written (load_market_row slug t) h p
  where
    written :
        (found : Option MarketRow)
        → is_some found ≡ true
        → ptb_of found ≡ none
        → ptb_of (mapped (write_ptb value) found) ≡ some value
    written found h p = ground arith

pub save_ptb-other :
    (slug other : Text) (value : Decimal) (t : MarketTable)
    → text_eq slug other ≡ false
    → load_ptb other (save_ptb slug value t) ≡ load_ptb other t
unfolding load_ptb save_ptb
save_ptb-other slug other value t h =
    ap ptb_of (load-update_other slug other (write_ptb value) (write_ptb_slug value) t h)

pub has_row-save_ptb :
    (slug other : Text) (value : Decimal) (t : MarketTable)
    → has_row other (save_ptb slug value t) ≡ has_row other t
unfolding save_ptb
has_row-save_ptb slug other value t =
    has_row-update slug other (write_ptb value) (write_ptb_slug value) t
