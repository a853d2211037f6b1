-- ===== src/Market/Freezing/Frozen.antt =====
-- That the opening reference of a market is frozen once, over all events of its life.
use lufy.Prelude.{
  ℕ, ◌≡◌, ◌≢◌, refl, sym, ap, ◌∙◌, ◌⊎◌, inl, inr, false, ◌||◌, not, Option, none, some, List, [],
  ◌∷◌, Text, text_eq, text_eq→eq, text_eq_self, arith, Bool-cases, true≢false, ◌==◌,
}
use lufy.Domain.Enums.{MarketPhase}
use lufy.Domain.Models.{Decimal}
use lufy.Domain.Timing.{window_ts_for}
use lufy.Domain.Market.{MarketInstance}
use lufy.Market.Ptb.{PtbResolution}
use lufy.Market.Table.{MarketTable, load_market_row, load_ptb, save_phase, save_accumulator}
use lufy.Market.Table.Kept.{
  Keeps, Keeps-refl, Keeps-trans, save_phase-Keeps, save_accumulator-Keeps, save_ptb-keeps,
  save_ptb-other, has_row-save_ptb,
}
use lufy.Market.Rotation.{
  MarketRotator, new_rotator, open_window, archive_closing, close, rotate, close_current,
  holds_window, advance, has_slug,
}
use lufy.Market.Freezing.{
  Event, advances, observes, settles, freezes, freezes_late, freezes_archived, restarts,
  save_resolved, freeze_archived, is_late, step, run_events,
}
use lufy.Market.Freezing.Coherent.{Agrees, Apart, Coherent, Agrees-Keeps, Opens, open_window-Opens}
use lufy.Market.Freezing.Freezes.{Holds, Holds-Keeps, Next, freeze_current-Next, freeze_late-Next}
use lufy.Market.Freezing.Moves.{archive-Keeps, reap-Next, settled-Next, route-Next}

text_eq_differs : (s u : Text) → text_eq s u ≡ false → text_eq u s ≡ false
text_eq_differs s u h = elim (Bool-cases (text_eq u s)) [
  | inl same ↦
      elim (true≢false (sym (text_eq_self s) ∙ ap (text_eq s) (sym (text_eq→eq u s same)) ∙ h)) [ ]
  | inr differs ↦ differs
]

-- A write to the row of another slug.
save_resolved-Agrees :
    (slug : Text) (value : Option Decimal) (t : MarketTable) (m : Option MarketInstance)
    → has_slug slug m ≡ false
    → Agrees t m
    → Agrees (save_resolved value slug t) m
save_resolved-Agrees slug none t m h a = a
save_resolved-Agrees slug (some value) t none h a = tt
save_resolved-Agrees slug (some value) t (some m) h (p, q, r) = (
  p,
  q ∙ sym (save_ptb-other slug m.slug value t (text_eq_differs m.slug slug h)),
  has_row-save_ptb slug m.slug value t ∙ r,
)

save_resolved-Holds :
    (slug : Text) (value : Option Decimal) (t : MarketTable) → Holds t (save_resolved value slug t)
save_resolved-Holds slug none t = λ s old h. h
save_resolved-Holds slug (some value) t = λ s old. save_ptb-keeps slug s value old t

freeze_archived-Next :
    (slug : Text) (resolution : PtbResolution) (r : MarketRotator)
    → Coherent r.current r.closing r.table
    → Next r.table (freeze_archived slug resolution r)
unfolding freeze_archived
freeze_archived-Next slug resolution r c =
    elim (Bool-cases (
      has_slug slug r.closing
      || has_slug slug r.current
      || not (is_late (load_market_row slug r.table)))) [
        | inl skipped ↦ rw skipped (record { coherent = c; holds = λ s value h. h })
        | inr due ↦ rw due (record {
          coherent = record {
            current_agrees =
                save_resolved-Agrees slug resolution.value r.table r.current (ground arith)
                  c.current_agrees;
            closing_agrees =
                save_resolved-Agrees slug resolution.value r.table r.closing (ground arith)
                  c.closing_agrees;
            apart = c.apart;
          };
          holds = save_resolved-Holds slug resolution.value r.table;
        })
      ]

-- Opening the next market when none is current and the closing one is of another window.
open_window-Next :
    (window_ts : ℕ) (t : MarketTable) (r : MarketRotator)
    → Keeps t r.table
    → Agrees r.table r.closing
    → ((n : MarketInstance) → r.closing ≡ some n → window_ts ≢ n.window_ts)
    → Next t (open_window window_ts r)
open_window-Next window_ts t r k a apart =
    let o : Opens window_ts r (open_window window_ts r) = open_window-Opens window_ts r in
    let r' : MarketRotator = open_window window_ts r in
    record {
      coherent =
          rw (o.is_current, o.same_closing)
            (record {
              current_agrees = o.agrees;
              closing_agrees = Agrees-Keeps r.table r'.table r.closing o.keeps a;
              apart = far o.market o.window r.closing apart;
            });
      holds = Holds-Keeps t r'.table (Keeps-trans t r.table r'.table k o.keeps);
    }
  where
    far :
        (m : MarketInstance)
        → m.window_ts ≡ window_ts
        → (closing : Option MarketInstance)
        → ((n : MarketInstance) → closing ≡ some n → window_ts ≢ n.window_ts)
        → Apart (some m) closing
    far m p none h = tt
    far m p (some n) h = λ q. h n refl (sym p ∙ q)

close-Keeps : (m : MarketInstance) (r : MarketRotator) → Keeps r.table (close m r).table
unfolding close
close-Keeps m r =
    Keeps-trans r.table (save_accumulator m.slug m.accumulator r.table)
      (save_phase m.slug MarketPhase.settling (save_accumulator m.slug m.accumulator r.table))
      (save_accumulator-Keeps m.slug m.accumulator r.table)
      (save_phase-Keeps m.slug MarketPhase.settling (save_accumulator m.slug m.accumulator r.table))

archive_closing-Keeps :
    (closing : Option MarketInstance) (r : MarketRotator)
    → Keeps r.table (archive_closing closing r).1.table
archive_closing-Keeps none r = Keeps-refl r.table
archive_closing-Keeps (some m) r = archive-Keeps m r

window_of : Option MarketInstance → ℕ
window_of none = 0
window_of (some m) = m.window_ts

differ : (m n : ℕ) → (m == n) ≡ false → m ≢ n
differ m n h = ground arith

rotate-Next :
    (window_ts : ℕ) (r : MarketRotator)
    → holds_window window_ts r.current ≡ false
    → Coherent r.current r.closing r.table
    → Next r.table (rotate window_ts r).1
unfolding close window_of
rotate-Next window_ts r = by_current r.current
  where
    none_closing : (closing : Option MarketInstance) → Apart none closing → closing ≡ none
    none_closing none h = refl
    none_closing (some n) h = elim h [ ]

    by_current :
        (current : Option MarketInstance)
        → holds_window window_ts current ≡ false
        → Coherent current r.closing r.table
        → Next r.table (open_window window_ts (close_current current r).2)
    by_current none w c =
        open_window-Next window_ts r.table r (Keeps-refl r.table) c.closing_agrees
          (λ n p. cc (none_closing r.closing c.apart))
    by_current (some m) w c =
        let r' : MarketRotator = (archive_closing r.closing r).1 in
        let k : Keeps r.table (close m r').table =
          Keeps-trans r.table r'.table (close m r').table (archive_closing-Keeps r.closing r)
            (close-Keeps m r') in
        open_window-Next window_ts r.table (close m r') k
          (Agrees-Keeps r.table (close m r').table (some m) k c.current_agrees)
          (λ n p q. differ m.window_ts window_ts w (ap window_of p ∙ sym q))

advance-Next :
    (now : ℕ) (r : MarketRotator)
    → Coherent r.current r.closing r.table
    → Next r.table (advance now r).1
unfolding advance
advance-Next now r c = elim (Bool-cases (holds_window (window_ts_for now) r.current)) [
  | inl within ↦ rw within (reap-Next r c)
  | inr past ↦ rw past (rotate-Next (window_ts_for now) r past c)
]

step-Next :
    (e : Event) (r : MarketRotator) → Coherent r.current r.closing r.table → Next r.table (step e r)
unfolding step
step-Next (advances now) r c = advance-Next now r c
step-Next (observes price) r c = route-Next price r c
step-Next (settles slug) r c = settled-Next slug r c
step-Next (freezes resolution) r c = freeze_current-Next resolution r c
step-Next (freezes_late one two) r c = freeze_late-Next one two r c
step-Next (freezes_archived slug resolution) r c = freeze_archived-Next slug resolution r c
step-Next restarts r c = record {
  coherent = record { current_agrees = tt; closing_agrees = tt; apart = tt };
  holds = λ slug value h. h;
}

run_events-Next :
    (events : List Event) (r : MarketRotator)
    → Coherent r.current r.closing r.table
    → Next r.table (run_events events r)
unfolding run_events
run_events-Next [] r c = record { coherent = c; holds = λ slug value h. h }
run_events-Next (e ∷ events) r c =
    let n : Next r.table (step e r) = step-Next e r c in
    let more : Next (step e r).table (run_events events (step e r)) =
      run_events-Next events (step e r) n.coherent in
    record {
      coherent = more.coherent;
      holds = λ slug value h. more.holds slug value (n.holds slug value h);
    }

-- A live market of another slug, or with this reference.
abbrev pub HasPtb : Text → Decimal → Option MarketInstance → Type 0
HasPtb slug value none = Unit
HasPtb slug value (some m) = (text_eq m.slug slug ≡ false) ⊎ (m.ptb ≡ some value)

Agrees-HasPtb :
    (slug : Text) (value : Decimal) (t : MarketTable) (m : Option MarketInstance)
    → load_ptb slug t ≡ some value
    → Agrees t m
    → HasPtb slug value m
Agrees-HasPtb slug value t none h a = tt
Agrees-HasPtb slug value t (some m) h (_, p, _) = elim (Bool-cases (text_eq m.slug slug)) [
  | inl same ↦ inr (p ∙ ap (λ s. load_ptb s t) (text_eq→eq m.slug slug same) ∙ h)
  | inr other ↦ inl other
]

-- A process starts on a table, and any events follow: boundaries, observations, settlements,
-- resolved opening references in time, late or after the archive, and restarts. Once a market's
-- row has an opening reference, whatever further events follow, the row keeps that value, and the
-- market has that value whenever it is live, the market that is restored after a restart included.
pub run_events_frozen :
    (table : MarketTable) (before after : List Event) (slug : Text) (value : Decimal)
    → load_ptb slug (run_events before (new_rotator table)).table ≡ some value
    → (load_ptb slug (run_events after (run_events before (new_rotator table))).table ≡ some value)
      × HasPtb slug value (run_events after (run_events before (new_rotator table))).current
      × HasPtb slug value (run_events after (run_events before (new_rotator table))).closing
run_events_frozen table before after slug value h =
    let first : Next table (run_events before (new_rotator table)) =
      run_events-Next before (new_rotator table)
        (record { current_agrees = tt; closing_agrees = tt; apart = tt }) in
    let r : MarketRotator = run_events before (new_rotator table) in
    let r' : MarketRotator = run_events after r in
    let more : Next r.table r' = run_events-Next after r first.coherent in
    let held : load_ptb slug r'.table ≡ some value = more.holds slug value h in
    (
      held,
      Agrees-HasPtb slug value r'.table r'.current held more.coherent.current_agrees,
      Agrees-HasPtb slug value r'.table r'.closing held more.coherent.closing_agrees,
    )
