-- ===== src/Market/Ptb/Official.antt =====
-- That an opening reference is a number the venue has published for that window.
use lufy.Prelude.{
  ℕ, ◌+◌, ◌≤◌, ◌<◌, ◌≢◌, ◌≡◌, refl, ◌⊎◌, inl, inr, sym, ap, ◌∙◌, true, false, Option, none, some,
  List, [], ◌∷◌, All, Any, Text, ltb, ◌==◌, arith, Bool-cases,
}
use lufy.Domain.Models.{Decimal}
use lufy.Market.Ptb.{
  Parse, MarketMetadata, PreviousClosePtb, PtbSource, PtbResolution, Cache, usable_for,
  official_text_to_decimal, offer, offer_read, offer_price, entry_for, for_window, resolve_ptb,
  metadata_ptb, offer_text, resolve_previous, resolve_official,
}

-- Metadata offered for the market of a window.
pub record Offer : Type 0 where
  pub metadata : MarketMetadata
  pub settled_window_ts : ℕ

-- Offers in the order of their arrival, the latest first.
unfoldable pub offer_all : Parse → List Offer → Cache
unfolding offer
offer_all parse [] = none
offer_all parse (o ∷ offers) =
    (offer parse o.metadata o.settled_window_ts (offer_all parse offers)).1

-- The offer publishes the number: its text reads as it, and it is positive.
pub record Publishes (parse : Parse) (window_ts : ℕ) (price : Decimal) (o : Offer) : Type 0 where
  pub window : o.settled_window_ts ≡ window_ts
  pub published : metadata_ptb parse o.metadata.final_price_raw ≡ some price

-- The cache holds nothing and no offer published a number, or it holds what an offer published
-- for the newest of their windows.
pub data IsNewest (parse : Parse) (offers : List Offer) : Cache → Type 0 where
  nothing_yet :
      All (λ o. metadata_ptb parse o.metadata.final_price_raw ≡ none) offers
      → IsNewest parse offers none
  newest :
      (e : PreviousClosePtb)
      → (e.opens_window_ts ≡ e.settled_window_ts + 300)
      → Any (Publishes parse e.settled_window_ts e.price) offers
      → All
          (λ o.
            (metadata_ptb parse o.metadata.final_price_raw ≡ none)
            ⊎ (o.settled_window_ts ≤ e.settled_window_ts))
          offers
      → IsNewest parse offers (some e)

kept :
    (parse : Parse) (o : Offer) (offers : List Offer) (cache : Cache)
    → metadata_ptb parse o.metadata.final_price_raw ≡ none
    → IsNewest parse offers cache
    → IsNewest parse (o ∷ offers) cache
kept parse o offers none p (nothing_yet all) = nothing_yet (p, all)
kept parse o offers (some _) p (newest e opens any all) = newest e opens (inr any) (inl p, all)

weaken :
    (parse : Parse) (t u : ℕ) (offers : List Offer)
    → t ≤ u
    → All
        (λ o. (metadata_ptb parse o.metadata.final_price_raw ≡ none) ⊎ (o.settled_window_ts ≤ t))
        offers
    → All
        (λ o. (metadata_ptb parse o.metadata.final_price_raw ≡ none) ⊎ (o.settled_window_ts ≤ u))
        offers
weaken parse t u [] le h = tt
weaken parse t u (o ∷ offers) le (inl p, h) = (inl p, weaken parse t u offers le h)
weaken parse t u (o ∷ offers) le (inr p, h) = (inr (omega arith), weaken parse t u offers le h)

unpublished :
    (parse : Parse) (u : ℕ) (offers : List Offer)
    → All (λ o. metadata_ptb parse o.metadata.final_price_raw ≡ none) offers
    → All
        (λ o. (metadata_ptb parse o.metadata.final_price_raw ≡ none) ⊎ (o.settled_window_ts ≤ u))
        offers
unpublished parse u [] h = tt
unpublished parse u (o ∷ offers) (p, h) = (inl p, unpublished parse u offers h)

offered :
    (parse : Parse) (o : Offer) (offers : List Offer) (raw : Text) (price : Decimal) (cache : Cache)
    → metadata_ptb parse o.metadata.final_price_raw ≡ some price
    → IsNewest parse offers cache
    → IsNewest parse (o ∷ offers) (offer_price o.settled_window_ts price raw cache).1
offered parse o offers raw price none p (nothing_yet all) =
    newest (entry_for o.settled_window_ts price raw) refl
      (inl (record { window = refl; published = p }))
      (inr (omega arith), unpublished parse o.settled_window_ts offers all)
offered parse o offers raw price (some _) p (newest held opens any all) =
    elim (Bool-cases (ltb o.settled_window_ts held.settled_window_ts)) [
      | inl older ↦ rw older (newest held opens (inr any) (inr (ground arith), all))
      | inr fresh ↦ elim (Bool-cases (held.settled_window_ts == o.settled_window_ts)) [
        | inl same ↦ rw (fresh, same) (newest held opens (inr any) (inr (ground arith), all))
        | inr other ↦
            rw (fresh, other)
              (newest (entry_for o.settled_window_ts price raw) refl
                (inl (record { window = refl; published = p }))
                (
                  inr (omega arith),
                  weaken parse held.settled_window_ts o.settled_window_ts offers (ground arith) all,
                ))
      ]
    ]

offer_read-IsNewest :
    (parse : Parse) (o : Offer) (offers : List Offer) (cache : Cache) (raw : Text)
    (found : Option Decimal)
    → metadata_ptb parse o.metadata.final_price_raw ≡ found
    → IsNewest parse offers cache
    → IsNewest parse (o ∷ offers) (offer_read o.settled_window_ts raw found cache).1
offer_read-IsNewest parse o offers cache raw none p h = kept parse o offers cache p h
offer_read-IsNewest parse o offers cache raw (some price) p h =
    offered parse o offers raw price cache p h

offer_text-IsNewest :
    (parse : Parse) (o : Offer) (offers : List Offer) (cache : Cache) (text : Option Text)
    → o.metadata.final_price_raw ≡ text
    → IsNewest parse offers cache
    → IsNewest parse (o ∷ offers) (offer_text parse o.settled_window_ts text cache).1
offer_text-IsNewest parse o offers cache none p h =
    kept parse o offers cache (ap (metadata_ptb parse) p) h
offer_text-IsNewest parse o offers cache (some raw) p h =
    offer_read-IsNewest parse o offers cache raw (official_text_to_decimal parse raw)
      (ap (metadata_ptb parse) p) h

offer-IsNewest :
    (parse : Parse) (o : Offer) (offers : List Offer) (cache : Cache)
    → IsNewest parse offers cache
    → IsNewest parse (o ∷ offers) (offer parse o.metadata o.settled_window_ts cache).1
unfolding offer
offer-IsNewest parse o offers cache h =
    offer_text-IsNewest parse o offers cache o.metadata.final_price_raw refl h

-- Whatever metadata is offered to the cache, for whichever markets and in whichever order it
-- arrives: the cache is empty and nothing offered carries a published price, or it holds the
-- price that one offer published for its window, it opens the window 300 seconds later, and no
-- offer with a published price is of a newer window.
pub offer_all-IsNewest :
    (parse : Parse) (offers : List Offer) → IsNewest parse offers (offer_all parse offers)
unfolding offer_all
offer_all-IsNewest parse [] = nothing_yet tt
offer_all-IsNewest parse (o ∷ offers) =
    offer-IsNewest parse o offers (offer_all parse offers) (offer_all-IsNewest parse offers)

-- Where a resolution's value comes from: the market's own metadata, or what was offered for the
-- market that closes where this one opens.
pub data IsOfficial (parse : Parse) (own : MarketMetadata) (window_ts : ℕ) (offers : List Offer)
    : PtbResolution → Type 0 where
  own_metadata :
      (value : Decimal)
      → (metadata_ptb parse own.ptb_raw ≡ some value)
      → IsOfficial parse own window_ts offers
          (record { value = some value; source = PtbSource.official_metadata })
  previous_close :
      (value : Decimal) (settled : ℕ)
      → (metadata_ptb parse own.ptb_raw ≡ none)
      → (settled + 300 ≡ window_ts)
      → Any (Publishes parse settled value) offers
      → IsOfficial parse own window_ts offers
          (record { value = some value; source = PtbSource.official_previous_close })
  no_source :
      (metadata_ptb parse own.ptb_raw ≡ none)
      → (All
            (λ o.
              (metadata_ptb parse o.metadata.final_price_raw ≡ none)
              ⊎ (o.settled_window_ts + 300 ≢ window_ts))
            offers
          ⊎ ((value : Decimal) × (settled : ℕ) × (window_ts < settled + 300)
              × Any (Publishes parse settled value) offers))
      → IsOfficial parse own window_ts offers
          (record { value = none; source = PtbSource.unavailable })

none_fits :
    (parse : Parse) (window_ts t : ℕ) (offers : List Offer)
    → t + 300 < window_ts
    → All
        (λ o. (metadata_ptb parse o.metadata.final_price_raw ≡ none) ⊎ (o.settled_window_ts ≤ t))
        offers
    → All
        (λ o.
          (metadata_ptb parse o.metadata.final_price_raw ≡ none)
          ⊎ (o.settled_window_ts + 300 ≢ window_ts))
        offers
none_fits parse window_ts t [] lt h = tt
none_fits parse window_ts t (o ∷ offers) lt (inl p, h) =
    (inl p, none_fits parse window_ts t offers lt h)
none_fits parse window_ts t (o ∷ offers) lt (inr p, h) =
    (inr (λ q. omega arith), none_fits parse window_ts t offers lt h)

none_published :
    (parse : Parse) (window_ts : ℕ) (offers : List Offer)
    → All (λ o. metadata_ptb parse o.metadata.final_price_raw ≡ none) offers
    → All
        (λ o.
          (metadata_ptb parse o.metadata.final_price_raw ≡ none)
          ⊎ (o.settled_window_ts + 300 ≢ window_ts))
        offers
none_published parse window_ts [] h = tt
none_published parse window_ts (o ∷ offers) (p, h) =
    (inl p, none_published parse window_ts offers h)

resolve_previous-IsOfficial :
    (parse : Parse) (own : MarketMetadata) (window_ts : ℕ) (offers : List Offer) (cache : Cache)
    → metadata_ptb parse own.ptb_raw ≡ none
    → IsNewest parse offers cache
    → IsOfficial parse own window_ts offers
        (resolve_previous window_ts (for_window window_ts cache))
unfolding for_window
resolve_previous-IsOfficial parse own window_ts offers none p (nothing_yet all) =
    no_source p (inl (none_published parse window_ts offers all))
resolve_previous-IsOfficial parse own window_ts offers (some _) p (newest e opens any all) =
    elim (Bool-cases (usable_for window_ts e)) [
      | inl fits ↦ rw fits (
          rw fits (
            previous_close e.price e.settled_window_ts p
              (sym opens ∙ same_number e.opens_window_ts window_ts fits) any))
      | inr other ↦ rw other (
          no_source p (elim (Bool-cases (ltb window_ts (e.settled_window_ts + 300))) [
            | inl newer ↦ inr (e.price, e.settled_window_ts, ground arith, any)
            | inr older ↦ inl (
                none_fits parse window_ts e.settled_window_ts offers
                  (before e.opens_window_ts (e.settled_window_ts + 300) opens other older) all)
          ]))
    ]
  where
    same_number : (m n : ℕ) → (m == n) ≡ true → m ≡ n
    same_number m n h = ground arith

    before : (m n : ℕ) → m ≡ n → (m == window_ts) ≡ false → ltb window_ts n ≡ false → n < window_ts
    before m n p q r = ground arith

resolve_official-IsOfficial :
    (parse : Parse) (own : MarketMetadata) (window_ts : ℕ) (offers : List Offer) (cache : Cache)
    (found : Option Decimal)
    → metadata_ptb parse own.ptb_raw ≡ found
    → IsNewest parse offers cache
    → IsOfficial parse own window_ts offers
        (resolve_official window_ts (for_window window_ts cache) found)
resolve_official-IsOfficial parse own window_ts offers cache none p h =
    resolve_previous-IsOfficial parse own window_ts offers cache p h
resolve_official-IsOfficial parse own window_ts offers cache (some value) p h = own_metadata value p

-- The opening reference that is resolved for a window, whatever the cache was offered before, is
-- never computed. Either the market's own metadata reads as it; or that has no positive number,
-- and an offer for the market that closes at this window's start publishes it; or there is none,
-- and then no offer for that market publishes a number, or one for a later market does.
pub resolve_ptb-IsOfficial :
    (parse : Parse) (own : MarketMetadata) (window_ts : ℕ) (offers : List Offer)
    → IsOfficial parse own window_ts offers
        (resolve_ptb parse own window_ts (for_window window_ts (offer_all parse offers)))
unfolding resolve_ptb
resolve_ptb-IsOfficial parse own window_ts offers =
    resolve_official-IsOfficial parse own window_ts offers (offer_all parse offers)
      (metadata_ptb parse own.ptb_raw) refl (offer_all-IsNewest parse offers)
