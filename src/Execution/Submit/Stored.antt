-- ===== src/Execution/Submit/Stored.antt =====
-- The stored rows of a ladder: what a save keeps of them, and that the query by market finds them.
use lufy.Prelude.{
  ◌≡◌, refl, sym, ◌∙◌, ap, ◌⊎◌, inl, inr, Bool, true, false, ◌&&◌, ◌||◌, some, List, [], ◌∷◌, ◌++◌,
  Text, text_eq, text_eq_self, text_eq→eq, All, any, find, true≢false, keep, map, arith, Bool-cases,
}
use lufy.Domain.Models.{Order}
use lufy.Execution.Store.{
  Store, save_order, upsert, overwrite, has_order, in_market, by_created_at, insert_by_time,
}
use lufy.Execution.Store.Rows.{upsert-All}

-- The row of an order, under its id and in its market.
abbrev pub row_of : Text → Text → Order → Bool
row_of slug id r = in_market slug r && has_order id r

abbrev pub IsStored : Text → Text → Store → Type 0
IsStored slug id s = any (row_of slug id) s.orders ≡ true

module _ (slug id : Text) where
  -- The rows under the id are all of the market.
  abbrev pub IsHomed : Store → Type 0
  IsHomed s = All (λ r. has_order id r ≡ true → in_market slug r ≡ true) s.orders

  pub save_order-IsHomed :
      (o : Order) (s : Store) → o.market_slug ≡ slug → IsHomed s → IsHomed (save_order o s)
  unfolding save_order
  save_order-IsHomed o s here homed =
      upsert-All (λ r. has_order id r ≡ true → in_market slug r ≡ true) o s.orders
        (λ h. ap (λ (m : Text). text_eq m slug) here ∙ text_eq_self slug) (each s.orders homed)
    where
      each :
          (rows : List Order)
          → All (λ r. has_order id r ≡ true → in_market slug r ≡ true) rows
          → All
              (λ r. has_order id (overwrite o r) ≡ true → in_market slug (overwrite o r) ≡ true)
              rows
      each [] hs = tt
      each (r ∷ rows) hs = elim (Bool-cases (has_order o.order_id r)) [
        | inl hit ↦ rw hit (hs.0, each rows hs.1)
        | inr miss ↦ rw miss (hs.0, each rows hs.1)
      ]

  overwrite-any :
      (o : Order) (rows : List Order)
      → any (row_of slug id) (map (overwrite o) rows) ≡ any (row_of slug id) rows
  overwrite-any o [] = refl
  overwrite-any o (r ∷ rows) = elim (Bool-cases (has_order o.order_id r)) [
    | inl hit ↦ rw hit (ap (λ b. row_of slug id r || b) (overwrite-any o rows))
    | inr miss ↦ rw miss (ap (λ b. row_of slug id r || b) (overwrite-any o rows))
  ]

  append-any :
      (o : Order) (rows : List Order)
      → (any (row_of slug id) rows ≡ true) ⊎ (row_of slug id o ≡ true)
      → any (row_of slug id) (rows ++ o ∷ []) ≡ true
  append-any o [] h = ground arith
  append-any o (r ∷ rows) h = ground (arith, append-any o rows)

  -- A stored row stays stored, and a saved order is stored.
  pub save_order-IsStored :
      (o : Order) (s : Store) → IsStored slug id s → IsStored slug id (save_order o s)
  unfolding save_order
  save_order-IsStored o s h = elim (Bool-cases (any (has_order o.order_id) s.orders)) [
    | inl known ↦ rw (upsert, known) (overwrite-any o s.orders ∙ h)
    | inr new ↦ rw (upsert, new) (append-any o s.orders (inl h))
  ]

  homed-any :
      (rows : List Order)
      → All (λ r. has_order id r ≡ true → in_market slug r ≡ true) rows
      → any (has_order id) rows ≡ true
      → any (row_of slug id) rows ≡ true
  homed-any [] hs h = h
  homed-any (r ∷ rows) hs h = elim (Bool-cases (has_order id r)) [
    | inl hit ↦ let here : in_market slug r ≡ true = hs.0 hit in rw (here, hit)
    | inr miss ↦ ground (arith, homed-any rows hs.1)
  ]

  pub saved-IsStored :
      (o : Order) (s : Store)
      → o.order_id ≡ id
      → o.market_slug ≡ slug
      → IsHomed s
      → IsStored slug id (save_order o s)
  unfolding save_order
  saved-IsStored o s same here homed = elim (Bool-cases (any (has_order id) s.orders)) [
    | inl known ↦
        let k : any (has_order o.order_id) s.orders ≡ true =
          ap (λ (i : Text). any (has_order i) s.orders) same ∙ known in
        rw (upsert, k) (overwrite-any o s.orders ∙ homed-any s.orders homed known)
    | inr new ↦
        let m : text_eq o.market_slug slug ≡ true =
          ap (λ (t : Text). text_eq t slug) here ∙ text_eq_self slug in
        let i : text_eq o.order_id id ≡ true =
          ap (λ (t : Text). text_eq t id) same ∙ text_eq_self id in
        let k : any (has_order o.order_id) s.orders ≡ false =
          ap (λ (i : Text). any (has_order i) s.orders) same ∙ new in
        rw (upsert, k) (append-any o s.orders (inr (ground arith)))
  ]

  -- A row is stored where the query by market finds it.
  insert_by_time-any :
      (r : Order) (rows : List Order)
      → any (has_order id) (insert_by_time r rows) ≡ any (has_order id) (r ∷ rows)
  insert_by_time-any r [] = refl
  insert_by_time-any r (q ∷ rows) = ground (arith, insert_by_time-any r rows)

  pub query-any :
      (rows : List Order)
      → any (has_order id) (by_created_at (keep (in_market slug) rows)) ≡ any (row_of slug id) rows
  query-any [] = refl
  query-any (r ∷ rows) = elim (Bool-cases (in_market slug r)) [
    | inl here ↦ rw here (
        insert_by_time-any r (by_created_at (keep (in_market slug) rows))
        ∙ ap (λ b. has_order id r || b) (query-any rows))
    | inr other ↦ rw other (query-any rows)
  ]

pub any-find :
    (id : Text) (rows : List Order)
    → any (has_order id) rows ≡ true
    → (row : Order) × (find (has_order id) rows ≡ some row) × (row.order_id ≡ id)
any-find id [] h = elim (true≢false (sym h)) [ ]
any-find id (r ∷ rows) h = elim (Bool-cases (has_order id r)) [
  | inl hit ↦ rw hit (r, refl, text_eq→eq r.order_id id hit)
  | inr miss ↦ rw miss (any-find id rows (ground arith))
]
