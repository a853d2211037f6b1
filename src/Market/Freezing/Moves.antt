-- ===== src/Market/Freezing/Moves.antt =====
-- That settling, reaping and routing keep the live markets coherent with their rows.
use lufy.Prelude.{
  ◌≡◌, refl, sym, ap, ◌∙◌, inl, inr, ◌||◌, Option, none, some, Text, text_eq, Bool-cases,
  if◌then◌else◌,
}
use lufy.Domain.Enums.{MarketPhase}
use lufy.Domain.Models.{Decimal}
use lufy.Domain.Timing.{slug_for}
use lufy.Domain.Market.{MarketInstance, add_observation, accepts_observations}
use lufy.Market.Table.{MarketTable, load_ptb, save_phase, save_accumulator, archive_market}
use lufy.Market.Table.Rows.{has_row}
use lufy.Market.Table.Kept.{
  Keeps, Keeps-refl, Keeps-trans, save_phase-Keeps, save_accumulator-Keeps, archive_market-Keeps,
}
use lufy.Market.Rotation.{
  MarketRotator, archive, reap_closing, reap, is_over, settle_market, has_slug, settled, deliver,
  route,
}
use lufy.Market.Freezing.Coherent.{Agrees, Apart, Coherent, Agrees-Keeps}
use lufy.Market.Freezing.Freezes.{Holds-Keeps, Next}

-- The same market, its phase and its observations aside.
abbrev Same : Option MarketInstance → Option MarketInstance → Type 0
Same none none = Unit
Same none (some m) = ⊥
Same (some m) none = ⊥
Same (some m) (some n) = (n.slug ≡ m.slug) × (n.window_ts ≡ m.window_ts) × (n.ptb ≡ m.ptb)

Agrees-Same : (t : MarketTable) (a b : Option MarketInstance) → Same a b → Agrees t a → Agrees t b
Agrees-Same t none none s h = tt
Agrees-Same t none (some n) s h = elim s [ ]
Agrees-Same t (some m) none s h = tt
Agrees-Same t (some m) (some n) (s, w, p) (q, ptb, row) = (
  s ∙ q ∙ ap slug_for (sym w),
  p ∙ ptb ∙ ap (λ x. load_ptb x t) (sym s),
  ap (λ x. has_row x t) s ∙ row,
)

Apart-Same : (a a' b b' : Option MarketInstance) → Same a a' → Same b b' → Apart a b → Apart a' b'
Apart-Same none none none none s u h = tt
Apart-Same none none (some n) (some n') s u h = h
Apart-Same none none none (some n') s u h = elim u [ ]
Apart-Same none none (some n) none s u h = elim u [ ]
Apart-Same none (some m') b _ s u h = elim s [ ]
Apart-Same (some m) none b _ s u h = elim s [ ]
Apart-Same (some m) (some m') none (some n') s u h = elim u [ ]
Apart-Same (some m) (some m') (some n) none s u h = elim u [ ]
Apart-Same (some m) (some m') none none s u h = tt
Apart-Same (some m) (some m') (some n) (some n') (_, w, _) (_, v, _) h = λ p. h (sym w ∙ p ∙ v)

Coherent-Same :
    (a a' b b' : Option MarketInstance) (t t' : MarketTable)
    → Same a a'
    → Same b b'
    → Keeps t t'
    → Coherent a b t
    → Coherent a' b' t'
Coherent-Same a a' b b' t t' s u k c = record {
  current_agrees = Agrees-Keeps t t' a' k (Agrees-Same t a a' s c.current_agrees);
  closing_agrees = Agrees-Keeps t t' b' k (Agrees-Same t b b' u c.closing_agrees);
  apart = Apart-Same a a' b b' s u c.apart;
}

Same-refl : (a : Option MarketInstance) → Same a a
Same-refl none = tt
Same-refl (some m) = (refl, refl, refl)

settle_market-Same : (slug : Text) (a : Option MarketInstance) → Same a (settle_market slug a)
settle_market-Same slug none = tt
settle_market-Same slug (some m) = elim (Bool-cases (text_eq m.slug slug)) [
  | inl same ↦ rw same (refl, refl, refl)
  | inr other ↦ rw other (refl, refl, refl)
]

deliver-Same : (price : Decimal) (a : Option MarketInstance) → Same a (deliver price a).1
unfolding add_observation
deliver-Same price none = tt
deliver-Same price (some m) = elim (Bool-cases (accepts_observations m.phase)) [
  | inl accepts ↦ rw accepts (refl, refl, refl)
  | inr rejects ↦ rw rejects (refl, refl, refl)
]

Apart-none : (a b : Option MarketInstance) → Apart a b → Apart a none
Apart-none none b h = tt
Apart-none (some m) b h = tt

pub archive-Keeps : (m : MarketInstance) (r : MarketRotator) → Keeps r.table (archive m r).table
unfolding archive
archive-Keeps m r =
    Keeps-trans r.table (save_accumulator m.slug m.accumulator r.table)
      (archive_market m.slug (save_accumulator m.slug m.accumulator r.table))
      (save_accumulator-Keeps m.slug m.accumulator r.table)
      (archive_market-Keeps m.slug (save_accumulator m.slug m.accumulator r.table))

pub reap-Next : (r : MarketRotator) → Coherent r.current r.closing r.table → Next r.table (reap r).1
unfolding reap archive
reap-Next r c = by_market r.closing refl
  where
    by_market :
        (closing : Option MarketInstance)
        → r.closing ≡ closing
        → Next r.table (reap_closing closing r).1
    by_market none p = record { coherent = c; holds = λ slug value h. h }
    by_market (some m) p = elim (Bool-cases (is_over m.phase)) [
      | inl terminal ↦ rw terminal (record {
        coherent = record {
          current_agrees =
              Agrees-Keeps r.table (archive m r).table r.current (archive-Keeps m r)
                c.current_agrees;
          closing_agrees = tt;
          apart = Apart-none r.current r.closing c.apart;
        };
        holds = Holds-Keeps r.table (archive m r).table (archive-Keeps m r);
      })
      | inr waits ↦ rw waits (record { coherent = c; holds = λ slug value h. h })
    ]

pub settled-Next :
    (slug : Text) (r : MarketRotator)
    → Coherent r.current r.closing r.table
    → Next r.table (settled slug r).1
unfolding settled
settled-Next slug r c =
    let t : MarketTable =
      if has_slug slug r.closing || has_slug slug r.current
      then save_phase slug MarketPhase.settled r.table
      else r.table in
    let k : Keeps r.table t =
      elim (Bool-cases (has_slug slug r.closing || has_slug slug r.current)) [
        | inl live ↦ rw live (save_phase-Keeps slug MarketPhase.settled r.table)
        | inr gone ↦ rw gone (Keeps-refl r.table)
      ] in
    let after : MarketRotator = record r {
      current = settle_market slug r.current;
      closing = settle_market slug r.closing;
      table = t;
    } in
    let n : Next t (reap after).1 = reap-Next after (
      Coherent-Same r.current after.current r.closing after.closing r.table t
        (settle_market-Same slug r.current) (settle_market-Same slug r.closing) k c) in
    record {
      coherent = n.coherent;
      holds = λ s value h. n.holds s value (Holds-Keeps r.table t k s value h);
    }

pub route-Next :
    (price : Decimal) (r : MarketRotator)
    → Coherent r.current r.closing r.table
    → Next r.table (route price r)
unfolding route
route-Next price r c =
    let d : Coherent (deliver price r.current).1 (deliver price r.closing).1 r.table =
      Coherent-Same r.current (deliver price r.current).1 r.closing (deliver price r.closing).1
        r.table r.table (deliver-Same price r.current) (deliver-Same price r.closing)
        (Keeps-refl r.table) c in
    elim (Bool-cases ((deliver price r.closing).0 || (deliver price r.current).0)) [
      | inl some_accepted ↦ rw some_accepted (record { coherent = d; holds = λ slug value h. h })
      | inr dropped ↦ rw dropped (record { coherent = d; holds = λ slug value h. h })
    ]
