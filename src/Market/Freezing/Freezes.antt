-- ===== src/Market/Freezing/Freezes.antt =====
-- That the paths which freeze an opening reference keep the live markets coherent with their rows.
use lufy.Prelude.{
  Bool, true, if◌then◌else◌, ◌≡◌, ◌≢◌, refl, sym, ◌∙◌, inl, inr, false, ◌||◌, not, Option, none,
  some, Text, text_eq, is_some, arith, Bool-cases,
}
use lufy.Prelude.Int.{pos, leb_ℤ}
use lufy.Domain.Models.{Decimal}
use lufy.Domain.Timing.{slug_for}
use lufy.Domain.Market.{MarketInstance, freeze_ptb}
use lufy.Market.Ptb.{PtbResolution, PtbSource, freeze_value, freeze_ptb_for}
use lufy.Market.Table.{MarketTable, load_ptb, save_ptb}
use lufy.Market.Table.Rows.{has_row}
use lufy.Market.Table.Kept.{
  Keeps, save_ptb-keeps, save_ptb-writes, save_ptb-other, has_row-save_ptb,
}
use lufy.Market.Rotation.{MarketRotator}
use lufy.Market.Freezing.{
  after_freezing, freeze_and_save, freeze_open, freeze_current, freeze_settling, freeze_late,
  is_dead, is_settling,
}
use lufy.Market.Freezing.Coherent.{Agrees, Apart, Coherent, slugs_differ}

-- A reference of the old table is the new one's.
abbrev pub Holds : MarketTable → MarketTable → Type 0
Holds old new =
    (slug : Text) (value : Decimal)
    → load_ptb slug old ≡ some value
    → load_ptb slug new ≡ some value

pub Holds-Keeps : (a b : MarketTable) → Keeps a b → Holds a b
Holds-Keeps a b k slug value h = k.ptbs slug ∙ h

-- A coherent rotator, and no reference lost on the way.
pub record Next (t : MarketTable) (r : MarketRotator) : Type 0 where
  pub coherent : Coherent r.current r.closing r.table
  pub holds : Holds t r.table

-- A market whose reference was frozen, with its table.
record Freezes (m : MarketInstance) (t : MarketTable) (res : MarketInstance × MarketTable)
    : Type 0 where
  same_slug : res.0.slug ≡ m.slug
  same_window : res.0.window_ts ≡ m.window_ts
  agrees : Agrees res.1 (some res.0)
  holds : Holds t res.1
  others : (slug : Text) → text_eq m.slug slug ≡ false → load_ptb slug res.1 ≡ load_ptb slug t
  rows : (slug : Text) → has_row slug res.1 ≡ has_row slug t

unchanged : (m : MarketInstance) (t : MarketTable) → Agrees t (some m) → Freezes m t (m, t)
unchanged m t h = record {
  same_slug = refl;
  same_window = refl;
  agrees = h;
  holds = λ slug value p. p;
  others = λ slug p. refl;
  rows = λ slug. refl;
}

written :
    (m : MarketInstance) (t : MarketTable) (value : Decimal)
    → Agrees t (some m)
    → is_some m.ptb ≡ false
    → Freezes m t (record m { ptb = some value }, save_ptb m.slug value t)
written m t value (p, q, r) h = record {
  same_slug = refl;
  same_window = refl;
  agrees = (
    p,
    sym (save_ptb-writes m.slug value t r (sym q ∙ is_none m.ptb h)),
    has_row-save_ptb m.slug m.slug value t ∙ r,
  );
  holds = λ slug old. save_ptb-keeps m.slug slug value old t;
  others = λ slug. save_ptb-other m.slug slug value t;
  rows = λ slug. has_row-save_ptb m.slug slug value t;
}
  where
    is_none : (o : Option Decimal) → is_some o ≡ false → o ≡ none
    is_none o h = ground arith

freeze_value-Freezes :
    (value : Decimal) (source : PtbSource) (m : MarketInstance) (t : MarketTable)
    → Agrees t (some m)
    → Freezes m t (
        after_freezing
          (record { value = some value; source = source })
          m
          t
          (freeze_value (some value) m))
unfolding freeze_ptb
freeze_value-Freezes value source m t h = elim (Bool-cases (is_some m.ptb)) [
  | inl frozen ↦ rw frozen (unchanged m t h)
  | inr free ↦ elim (Bool-cases (leb_ℤ value (pos 0))) [
    | inl negative ↦ rw (free, negative) (unchanged m t h)
    | inr positive ↦ rw (free, positive) (written m t value h free)
  ]
]

freeze_and_save-Freezes :
    (resolution : PtbResolution) (m : MarketInstance) (t : MarketTable)
    → Agrees t (some m)
    → Freezes m t (freeze_and_save resolution m t)
unfolding freeze_and_save freeze_ptb_for
freeze_and_save-Freezes resolution m t h = by_value resolution.value resolution.source
  where
    by_value :
        (value : Option Decimal) (source : PtbSource)
        → Freezes m t
            (after_freezing (record { value = value; source = source }) m t (freeze_value value m))
    by_value none source = unchanged m t h
    by_value (some value) source = freeze_value-Freezes value source m t h

-- The other live market is not touched.
other-Agrees :
    (m : MarketInstance) (other : Option MarketInstance) (t : MarketTable)
    (res : MarketInstance × MarketTable)
    → m.slug ≡ slug_for m.window_ts
    → Apart (some m) other
    → Freezes m t res
    → Agrees t other
    → Agrees res.1 other
other-Agrees m none t res p apart f h = tt
other-Agrees m (some n) t res p apart f (q, ptb, row) =
    (q, ptb ∙ sym (f.others n.slug (slugs_differ m n p q apart)), f.rows n.slug ∙ row)

apart_sym : (m n : MarketInstance) → m.window_ts ≢ n.window_ts → n.window_ts ≢ m.window_ts
apart_sym m n apart h = apart (sym h)

current_frozen :
    (m : MarketInstance) (closing : Option MarketInstance) (t : MarketTable)
    (res : MarketInstance × MarketTable)
    → Coherent (some m) closing t
    → Freezes m t res
    → Coherent (some res.0) closing res.1
current_frozen m closing t res c f = record {
  current_agrees = f.agrees;
  closing_agrees = other-Agrees m closing t res c.current_agrees.0 c.apart f c.closing_agrees;
  apart = still_apart closing c.apart;
}
  where
    still_apart : (n : Option MarketInstance) → Apart (some m) n → Apart (some res.0) n
    still_apart none a = tt
    still_apart (some n) a = λ h. a (sym f.same_window ∙ h)

closing_frozen :
    (m : MarketInstance) (current : Option MarketInstance) (t : MarketTable)
    (res : MarketInstance × MarketTable)
    → Coherent current (some m) t
    → Freezes m t res
    → Coherent current (some res.0) res.1
closing_frozen m none t res c f = elim c.apart [ ]
closing_frozen m (some n) t res c f = record {
  current_agrees =
      other-Agrees m (some n) t res c.closing_agrees.0 (apart_sym n m c.apart) f c.current_agrees;
  closing_agrees = f.agrees;
  apart = λ h. c.apart (h ∙ f.same_window);
}

-- The pair of live markets and the table, after one of the markets was looked at.
record NextOf (t : MarketTable) (current closing : Option MarketInstance) (t' : MarketTable)
    : Type 0 where
  coherent : Coherent current closing t'
  holds : Holds t t'

-- A market that a guard skips, or whose reference is frozen.
abbrev guarded :
    Bool → PtbResolution → MarketInstance → MarketTable → Option MarketInstance × MarketTable
guarded skip resolution m t =
    if skip then (some m, t) else let (m', t') = freeze_and_save resolution m t in (some m', t')

current_guarded :
    (skip : Bool) (resolution : PtbResolution) (m : MarketInstance)
    (closing : Option MarketInstance) (t : MarketTable)
    → Coherent (some m) closing t
    → NextOf t (guarded skip resolution m t).0 closing (guarded skip resolution m t).1
current_guarded true resolution m closing t c = record { coherent = c; holds = λ slug value p. p }
current_guarded false resolution m closing t c =
    let f : Freezes m t (freeze_and_save resolution m t) =
      freeze_and_save-Freezes resolution m t c.current_agrees in
    record {
      coherent = current_frozen m closing t (freeze_and_save resolution m t) c f;
      holds = f.holds;
    }

closing_guarded :
    (skip : Bool) (resolution : PtbResolution) (m : MarketInstance)
    (current : Option MarketInstance) (t : MarketTable)
    → Coherent current (some m) t
    → NextOf t current (guarded skip resolution m t).0 (guarded skip resolution m t).1
closing_guarded true resolution m current t c = record { coherent = c; holds = λ slug value p. p }
closing_guarded false resolution m current t c =
    let f : Freezes m t (freeze_and_save resolution m t) =
      freeze_and_save-Freezes resolution m t c.closing_agrees in
    record {
      coherent = closing_frozen m current t (freeze_and_save resolution m t) c f;
      holds = f.holds;
    }

open_current :
    (resolution : PtbResolution) (current closing : Option MarketInstance) (t : MarketTable)
    → Coherent current closing t
    → NextOf t (freeze_open resolution current t).0 closing (freeze_open resolution current t).1
open_current resolution none closing t c = record { coherent = c; holds = λ slug value p. p }
open_current resolution (some m) closing t c =
    current_guarded (is_some m.ptb || is_dead m.phase) resolution m closing t c

late_current :
    (resolution : PtbResolution) (current closing : Option MarketInstance) (t : MarketTable)
    → Coherent current closing t
    → NextOf t
        (freeze_settling resolution current t).0
        closing
        (freeze_settling resolution current t).1
late_current resolution none closing t c = record { coherent = c; holds = λ slug value p. p }
late_current resolution (some m) closing t c =
    current_guarded (not (is_settling m.phase) || is_some m.ptb) resolution m closing t c

late_closing :
    (resolution : PtbResolution) (current closing : Option MarketInstance) (t : MarketTable)
    → Coherent current closing t
    → NextOf t current
        (freeze_settling resolution closing t).0
        (freeze_settling resolution closing t).1
late_closing resolution current none t c = record { coherent = c; holds = λ slug value p. p }
late_closing resolution current (some m) t c =
    closing_guarded (not (is_settling m.phase) || is_some m.ptb) resolution m current t c

pub freeze_current-Next :
    (resolution : PtbResolution) (r : MarketRotator)
    → Coherent r.current r.closing r.table
    → Next r.table (freeze_current resolution r)
unfolding freeze_current
freeze_current-Next resolution r c =
    let n : NextOf r.table (freeze_open resolution r.current r.table).0 r.closing
        (freeze_open resolution r.current r.table).1 =
      open_current resolution r.current r.closing r.table c in
    record { coherent = n.coherent; holds = n.holds }

pub freeze_late-Next :
    (one two : PtbResolution) (r : MarketRotator)
    → Coherent r.current r.closing r.table
    → Next r.table (freeze_late one two r)
unfolding freeze_late
freeze_late-Next one two r c =
    let first : Option MarketInstance × MarketTable = freeze_settling one r.current r.table in
    let p : NextOf r.table first.0 r.closing first.1 =
      late_current one r.current r.closing r.table c in
    let q : NextOf first.1 first.0 (freeze_settling two r.closing first.1).0
        (freeze_settling two r.closing first.1).1 =
      late_closing two first.0 r.closing first.1 p.coherent in
    record {
      coherent = q.coherent;
      holds = λ slug value h. q.holds slug value (p.holds slug value h);
    }
