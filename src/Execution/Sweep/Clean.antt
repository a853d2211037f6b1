-- ===== src/Execution/Sweep/Clean.antt =====
-- What a sweep leaves behind: nothing live but what it reports as unknown.
use lufy.Prelude.{
  ℕ, ◌≡◌, refl, sym, ◌∙◌, ap, ◌⊎◌, inl, inr, Bool, true, false, ◌&&◌, Option, some, List, [], ◌∷◌,
  ◌++◌, keep, any, All, Any, Text, text_eq, text_eq_self, text_eq→eq, Result, ok, ◌>>=◌, arith,
  Bool-cases, true≢false,
}
use mathlib.Core.Path.{subst}
use lufy.Domain.Enums.{OrderState}
use lufy.Domain.Models.{Order, is_live}
use lufy.Execution.Ids.{OrderError}
use lufy.Execution.Venue.{VenueError}
use lufy.Execution.Store.{
  Store, save_order, live_orders, in_market, has_order, overwrite, by_created_at, in_market?,
}
use lufy.Execution.Store.Rows.{upsert-All, by_created_at-All}
use lufy.Execution.Store.Query.{past_head, selected-Any, keep-All, All-self, All-map}
use lufy.Execution.Sweep.{
  SweepResult, cancel_one, owned_by, sweep_one, sweep_from, sweep, record_one,
}
use lufy.Execution.Sweep.Moves.{Swept, gone, doubt, still, cancel_one-Swept}

-- The rows that a sweep is about: those of its market and of its engine.
abbrev pub Concerns : Text → Option Text → Order → Type 0
Concerns slug engine r = (in_market slug r ≡ true) × (owned_by engine r ≡ true)

-- A live row is still to be visited, or it is of unknown state and has been reported.
abbrev Accounted : Text → Option Text → List Order → List Text → Order → Type 0
Accounted slug engine rest unknown r =
    Concerns slug engine r
    → is_live r ≡ true
    → Any (λ q. q ≡ r) rest
      ⊎ ((r.state ≡ OrderState.indeterminate) × (any (text_eq r.order_id) unknown ≡ true))

any-last : (id : Text) (ids : List Text) → any (text_eq id) (ids ++ id ∷ []) ≡ true
any-last id [] = rw (text_eq_self id)
any-last id (x ∷ ids) = ground (arith, any-last id ids)

any-left :
    (id j : Text) (ids : List Text)
    → any (text_eq id) ids ≡ true
    → any (text_eq id) (ids ++ j ∷ []) ≡ true
any-left id j [] h = cc
any-left id j (x ∷ ids) h = ground (arith, any-left id j ids)

module _ (slug : Text) (engine : Option Text) where
  abbrev Fine : List Order → List Text → List Order → Type 0
  Fine rest unknown rows = All (Accounted slug engine rest unknown) rows

  -- A row after a visit that ended the order, and after one that left it in doubt.
  row_gone :
      (o o' r : Order) (rest : List Order) (unknown : List Text)
      → o'.order_id ≡ o.order_id
      → is_live o' ≡ false
      → Accounted slug engine (o ∷ rest) unknown r
      → Accounted slug engine rest unknown (overwrite o' r)
  row_gone o o' r rest unknown same dead acc = elim (Bool-cases (has_order o'.order_id r)) [
    | inl hit ↦ rw hit (λ c live. ground arith)
    | inr miss ↦ rw miss (λ c live. elim (acc c live) [
      | inl later ↦ inl (past_head o o' r rest same miss later)
      | inr reported ↦ inr reported
    ])
  ]

  row_doubt :
      (o o' r : Order) (rest : List Order) (unknown : List Text)
      → o'.order_id ≡ o.order_id
      → o'.state ≡ OrderState.indeterminate
      → Accounted slug engine (o ∷ rest) unknown r
      → Accounted slug engine rest (unknown ++ o.order_id ∷ []) (overwrite o' r)
  row_doubt o o' r rest unknown same state acc = elim (Bool-cases (has_order o'.order_id r)) [
    | inl hit ↦ rw hit (λ c live. inr (
      state,
      subst (λ (id : Text). any (text_eq id) (unknown ++ o.order_id ∷ []) ≡ true)
          (sym (text_eq→eq r.order_id o'.order_id hit ∙ same)) (any-last o.order_id unknown),
    ))
    | inr miss ↦ rw miss (λ c live. elim (acc c live) [
      | inl later ↦ inl (past_head o o' r rest same miss later)
      | inr reported ↦ inr (reported.0, any-left r.order_id o.order_id unknown reported.1)
    ])
  ]

  -- A row after a visit that changed nothing.
  row_still :
      (o r : Order) (rest : List Order) (unknown : List Text)
      → o.state ≡ OrderState.indeterminate
      → Accounted slug engine (o ∷ rest) unknown r
      → Accounted slug engine rest (unknown ++ o.order_id ∷ []) r
  row_still o r rest unknown state acc c live = elim (acc c live) [
    | inl (inl e) ↦ inr (
        subst
          (λ (q : Order).
            (q.state ≡ OrderState.indeterminate)
            × (any (text_eq q.order_id) (unknown ++ o.order_id ∷ []) ≡ true))
          e (state, any-last o.order_id unknown))
    | inl (inr later) ↦ inl later
    | inr reported ↦ inr (reported.0, any-left r.order_id o.order_id unknown reported.1)
  ]

  row_passed :
      (o r : Order) (rest : List Order) (unknown : List Text)
      → owned_by engine o ≡ false
      → Accounted slug engine (o ∷ rest) unknown r
      → Accounted slug engine rest unknown r
  row_passed o r rest unknown other acc c live = elim (acc c live) [
    | inl (inl e) ↦ elim (true≢false (sym c.1 ∙ ap (owned_by engine) (sym e) ∙ other)) [ ]
    | inl (inr later) ↦ inl later
    | inr reported ↦ inr reported
  ]

  -- A round that returns, with every row accounted for among those still to be visited.
  abbrev Visit : List Order → Result OrderError (Store × SweepResult) → Type 0
  Visit rest res =
      (s : Store) × (r : SweepResult) × (res ≡ ok (s, r)) × Fine rest r.unknown s.orders

  after :
      Order
      → SweepResult
      → Result OrderError (Store × Bool)
      → Result OrderError (Store × SweepResult)
  after o r res = res >>= λ p. ok (p.0, record_one p.1 o.order_id r)

  Swept-Visit :
      (o : Order) (rest : List Order) (s : Store) (r : SweepResult)
      (res : Result OrderError (Store × Bool))
      → Fine (o ∷ rest) r.unknown s.orders
      → Swept o s res
      → Visit rest (after o r res)
  unfolding after save_order
  Swept-Visit o rest s r res fine (gone o' same dead e) = (
    save_order o' s,
    record_one true o.order_id r,
    rw e,
    upsert-All (Accounted slug engine rest r.unknown) o' s.orders (λ c live. ground arith)
        (All-map s.orders (λ q. row_gone o o' q rest r.unknown same dead) fine),
  )
  Swept-Visit o rest s r res fine (doubt o' same state e) = (
    save_order o' s,
    record_one false o.order_id r,
    rw e,
    upsert-All (Accounted slug engine rest (r.unknown ++ o.order_id ∷ [])) o' s.orders
        (λ c live. inr (
          state,
          subst (λ (id : Text). any (text_eq id) (r.unknown ++ o.order_id ∷ []) ≡ true) (sym same)
              (any-last o.order_id r.unknown),
        ))
        (All-map s.orders (λ q. row_doubt o o' q rest r.unknown same state) fine),
  )
  Swept-Visit o rest s r res fine (still state e) = (
    s,
    record_one false o.order_id r,
    rw e,
    All-map s.orders (λ q. row_still o q rest r.unknown state) fine,
  )

  sweep_one-Visit :
      (cancel : Order → Option VenueError) (now : ℕ) (o : Order) (rest : List Order) (s : Store)
      (r : SweepResult)
      → is_live o ≡ true
      → Fine (o ∷ rest) r.unknown s.orders
      → Visit rest (sweep_one cancel engine now o s r)
  unfolding sweep_one after
  sweep_one-Visit cancel now o rest s r live fine = elim (Bool-cases (owned_by engine o)) [
    | inl mine ↦ rw mine (
        Swept-Visit o rest s r (cancel_one cancel o now s) fine
          (cancel_one-Swept cancel o now s live))
    | inr other ↦
        rw other (s, r, refl, All-map s.orders (λ q. row_passed o q rest r.unknown other) fine)
  ]

  sweep_from-Visit :
      (cancel : Order → Option VenueError) (now : ℕ) (orders : List Order) (s : Store)
      (r : SweepResult)
      → All (λ o. is_live o ≡ true) orders
      → Fine orders r.unknown s.orders
      → Visit [] (sweep_from cancel engine now orders s r)
  unfolding sweep_from
  sweep_from-Visit cancel now [] s r live fine = (s, r, refl, fine)
  sweep_from-Visit cancel now (o ∷ orders) s r live fine =
      let (s', r', e, fine') = sweep_one-Visit cancel now o orders s r live.0 fine in
      rw e (sweep_from-Visit cancel now orders s' r' live.1 fine')

-- A sweep always returns, and in the store that it leaves, every order of the market, and of the
-- engine where one is given, that is still live is indeterminate and is listed in the result as
-- unknown, whatever the venue answers to each cancel.
pub sweep_accounts :
    (cancel : Order → Option VenueError) (market_slug : Text) (now : ℕ) (engine : Option Text)
    (s : Store)
    → (s' : Store) × (r : SweepResult) × (sweep cancel market_slug now engine s ≡ ok (s', r))
      × All
          (λ o.
            Concerns market_slug engine o
            → is_live o ≡ true
            → (o.state ≡ OrderState.indeterminate) × (any (text_eq o.order_id) r.unknown ≡ true))
          s'.orders
unfolding sweep live_orders
sweep_accounts cancel market_slug now engine s =
    let p : Order → Bool = λ o. is_live o && in_market? (some market_slug) o in
    let (s', r, e, fine) =
      sweep_from-Visit market_slug engine cancel now (by_created_at (keep p s.orders)) s
        (record { market_slug = market_slug; cancelled = []; unknown = [] })
        (All-map (by_created_at (keep p s.orders)) (λ q h. ground arith)
          (by_created_at-All (λ o. p o ≡ true) (keep p s.orders) (keep-All p s.orders)))
        (All-map s.orders (λ q there c live. inl (selected-Any p q s.orders (ground arith) there))
          (All-self s.orders)) in
    (
      s',
      r,
      e,
      All-map s'.orders
          (λ q acc c live. elim (acc c live) [
            | inl later ↦ elim later [ ]
            | inr reported ↦ reported
          ])
          fine,
    )
