-- ===== src/Market/Table/Rows.antt =====
-- The row of a slug after the table was written to.
use lufy.Prelude.{
  ◌≡◌, refl, ap, ◌∙◌, inl, inr, Bool, false, Option, none, some, [], ◌∷◌, ◌++◌, Text, text_eq,
  text_eq→eq, is_some, Bool-cases, if◌then◌else◌,
}
use lufy.Market.Table.{MarketRow, MarketTable, load_market_row, update}

abbrev pub mapped : (MarketRow → MarketRow) → Option MarketRow → Option MarketRow
mapped f none = none
mapped f (some m) = some (f m)

-- Whether the table has a row of the slug.
abbrev pub has_row : Text → MarketTable → Bool
has_row slug rows = is_some (load_market_row slug rows)

-- The update of one slug changes the row of that slug.
pub load-update_same :
    (slug : Text) (f : MarketRow → MarketRow) (keeps : (m : MarketRow) → (f m).slug ≡ m.slug)
    (rows : MarketTable)
    → load_market_row slug (update slug f rows) ≡ mapped f (load_market_row slug rows)
unfolding load_market_row update
load-update_same slug f keeps [] = refl
load-update_same slug f keeps (m ∷ rows) = elim (Bool-cases (text_eq m.slug slug)) [
  | inl same ↦ rw (same, keeps m, same) refl
  | inr differs ↦ rw (differs, differs) (load-update_same slug f keeps rows)
]

-- It changes the row of no other slug.
pub load-update_other :
    (slug other : Text) (f : MarketRow → MarketRow) (keeps : (m : MarketRow) → (f m).slug ≡ m.slug)
    (rows : MarketTable)
    → text_eq slug other ≡ false
    → load_market_row other (update slug f rows) ≡ load_market_row other rows
unfolding load_market_row update
load-update_other slug other f keeps [] h = refl
load-update_other slug other f keeps (m ∷ rows) h = elim (Bool-cases (text_eq m.slug slug)) [
  | inl same ↦
      let apart : text_eq m.slug other ≡ false =
        ap (λ s. text_eq s other) (text_eq→eq m.slug slug same) ∙ h in
      rw (same, keeps m, apart) (load-update_other slug other f keeps rows h)
  | inr differs ↦ rw differs (
      ap (λ found. if text_eq m.slug other then some m else found)
        (load-update_other slug other f keeps rows h))
]

-- A row at the end is found where no row was.
pub load-append :
    (slug : Text) (x : MarketRow) (rows : MarketTable)
    → load_market_row slug (rows ++ (x ∷ [])) ≡ (
        if has_row slug rows
        then load_market_row slug rows
        else if text_eq x.slug slug
        then some x
        else none)
unfolding load_market_row
load-append slug x [] = refl
load-append slug x (m ∷ rows) = elim (Bool-cases (text_eq m.slug slug)) [
  | inl same ↦ rw same refl
  | inr differs ↦ rw differs (load-append slug x rows)
]
