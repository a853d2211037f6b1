-- ===== src/Runtime/Recovery/Dead.antt =====
-- A reconciliation that leaves nothing unresolved: no order of its market is live after it, and no
-- other row becomes live.
use lufy.Prelude.{
  ℕ, ◌≡◌, refl, sym, ◌∙◌, ap, inl, inr, true, false, none, List, [], ◌∷◌, ◌++◌, keep, All, Any,
  Text, Result, ok, is_list_empty, arith, Bool-cases, true≢false,
}
use lufy.Domain.Models.{Order, is_live}
use lufy.Execution.Ids.{OrderError}
use lufy.Execution.Store.{
  Store, save_order, orders_for, in_market, has_order, overwrite, by_created_at,
}
use lufy.Execution.Store.Rows.{upsert-All}
use lufy.Execution.Store.Query.{past_head, selected-Any, All-self, All-map}
use lufy.Execution.Sweep.{owned_by}
use lufy.Execution.Reconcile.{
  VenueOrder, ReconcileResult, by_client, note, note_live, reconcile_one, reconcile_from, reconcile,
  orphans_of,
}
use lufy.Execution.Reconcile.Settle.{resolve-Settled, rests}
use lufy.Execution.Reconcile.Clean.{is_unknown, is_unknown-state, kept-Any}

-- No live row of the market.
abbrev pub IsDead : Text → Order → Type 0
IsDead slug r = in_market slug r ≡ true → is_live r ≡ false

-- A dead order written over a row leaves it dead, or the row is not touched.
pub overwrite-IsDead :
    (slug : Text) (o r : Order) → is_live o ≡ false → IsDead slug r → IsDead slug (overwrite o r)
overwrite-IsDead slug o r dead h = elim (Bool-cases (has_order o.order_id r)) [
  | inl hit ↦ rw hit (λ here. dead)
  | inr miss ↦ rw miss h
]

pub save_order-IsDead :
    (slug : Text) (o : Order) (s : Store)
    → is_live o ≡ false
    → All (IsDead slug) s.orders
    → All (IsDead slug) (save_order o s).orders
unfolding save_order
save_order-IsDead slug o s dead h =
    upsert-All (IsDead slug) o s.orders (λ here. dead)
      (All-map s.orders (λ r. overwrite-IsDead slug o r dead) h)

-- Nothing is live yet in the list of a result.
abbrev IsSilent : ReconcileResult → Type 0
IsSilent r = is_list_empty r.still_live ≡ true

never_silent : (id : Text) (r : ReconcileResult) → IsSilent (note_live id r) → ⊥
never_silent id r h = elim (true≢false (sym h ∙ nonempty r.still_live)) [ ]
  where
    nonempty : (ids : List Text) → is_list_empty (ids ++ id ∷ []) ≡ false
    nonempty [] = refl
    nonempty (x ∷ ids) = refl

module _ (slug : Text) where
  -- A live row of the market is still to be visited.
  abbrev Waits : List Order → Order → Type 0
  Waits rest r = in_market slug r ≡ true → is_live r ≡ true → Any (λ q. q ≡ r) rest

  row_ended :
      (o o' r : Order) (rest : List Order)
      → o'.order_id ≡ o.order_id
      → is_live o' ≡ false
      → Waits (o ∷ rest) r
      → Waits rest (overwrite o' r)
  row_ended o o' r rest same dead w = elim (Bool-cases (has_order o'.order_id r)) [
    | inl hit ↦ rw hit (λ c live. ground arith)
    | inr miss ↦ rw miss (λ c live. past_head o o' r rest same miss (w c live))
  ]

  row_passed :
      (o r : Order) (rest : List Order) → is_live o ≡ false → Waits (o ∷ rest) r → Waits rest r
  row_passed o r rest dead w c live = elim (w c live) [
    | inl e ↦ elim (true≢false (sym live ∙ ap is_live (sym e) ∙ dead)) [ ]
    | inr later ↦ later
  ]

  -- A round that returns. Where its result is silent, so was the one before it, the live rows are
  -- still to be visited, and what was dead in any market stays dead.
  record Visit (rest : List Order) (s : Store) (r : ReconcileResult)
      (res : Result OrderError (Store × ReconcileResult)) : Type 0 where
    store : Store
    result : ReconcileResult
    returned : res ≡ ok (store, result)
    silent : IsSilent result → IsSilent r
    waits : IsSilent result → All (Waits rest) store.orders
    keeps :
        IsSilent result
        → (slug' : Text) → All (IsDead slug') s.orders
        → All (IsDead slug') store.orders

  reconcile_one-Visit :
      (venue : List VenueOrder) (now : ℕ) (o : Order) (rest : List Order) (s : Store)
      (r : ReconcileResult)
      → (IsSilent r → All (Waits (o ∷ rest)) s.orders)
      → Visit rest s r (reconcile_one venue now o s r)
  unfolding reconcile_one save_order
  reconcile_one-Visit venue now o rest s r waits = elim (Bool-cases (is_unknown o)) [
    | inl unknown ↦
        let v = by_client o.order_id venue in
        let settled = resolve-Settled o v now s (is_unknown-state o.state unknown) in
        elim (Bool-cases (rests v)) [
          | inl resting ↦ record {
            store = save_order settled.order s;
            result = note_live o.order_id r;
            returned = rw (unknown, settled.returned, resting) refl;
            silent = λ h. elim (never_silent o.order_id r h) [ ];
            waits = λ h. elim (never_silent o.order_id r h) [ ];
            keeps = λ h. elim (never_silent o.order_id r h) [ ];
          }
          | inr gone ↦ record {
            store = save_order settled.order s;
            result = note true o.order_id r;
            returned = rw (unknown, settled.returned, gone) refl;
            silent = λ h. h;
            waits = λ h.
                upsert-All (Waits rest) settled.order s.orders
                  (λ c live. elim (true≢false (sym live ∙ settled.live ∙ gone)) [ ])
                  (All-map s.orders
                    (λ q. row_ended o settled.order q rest settled.same_id (settled.live ∙ gone))
                    (waits h));
            keeps =
                λ h slug' dead. save_order-IsDead slug' settled.order s (settled.live ∙ gone) dead;
          }
        ]
    | inr known ↦ elim (Bool-cases (is_live o)) [
      | inl live ↦ record {
        store = s;
        result = note_live o.order_id r;
        returned = rw (known, live) refl;
        silent = λ h. elim (never_silent o.order_id r h) [ ];
        waits = λ h. elim (never_silent o.order_id r h) [ ];
        keeps = λ h. elim (never_silent o.order_id r h) [ ];
      }
      | inr dead ↦ record {
        store = s;
        result = r;
        returned = rw (known, dead) refl;
        silent = λ h. h;
        waits = λ h. All-map s.orders (λ q. row_passed o q rest dead) (waits h);
        keeps = λ h slug' there. there;
      }
    ]
  ]

  reconcile_from-Visit :
      (venue : List VenueOrder) (now : ℕ) (orders : List Order) (s : Store) (r : ReconcileResult)
      → (IsSilent r → All (Waits orders) s.orders)
      → Visit [] s r (reconcile_from venue now orders s r)
  unfolding reconcile_from
  reconcile_from-Visit venue now [] s r waits = record {
    store = s;
    result = r;
    returned = refl;
    silent = λ h. h;
    waits = waits;
    keeps = λ h slug' there. there;
  }
  reconcile_from-Visit venue now (o ∷ orders) s r waits =
      let one : Visit orders s r (reconcile_one venue now o s r) =
        reconcile_one-Visit venue now o orders s r waits in
      let more : Visit [] one.store one.result
          (reconcile_from venue now orders one.store one.result) =
        reconcile_from-Visit venue now orders one.store one.result one.waits in
      record {
        store = more.store;
        result = more.result;
        returned = rw one.returned more.returned;
        silent = λ h. one.silent (more.silent h);
        waits = more.waits;
        keeps = λ h slug' there. more.keeps h slug' (one.keeps (more.silent h) slug' there);
      }

-- What a reconciliation of a market says where it leaves nothing unresolved.
pub record Reconciled (slug : Text) (s : Store) (res : Result OrderError (Store × ReconcileResult))
    : Type 0 where
  pub store : Store
  pub result : ReconcileResult
  pub returned : res ≡ ok (store, result)
  pub ended : is_list_empty result.still_live ≡ true → All (IsDead slug) store.orders
  pub keeps :
      is_list_empty result.still_live ≡ true
      → (slug' : Text) → All (IsDead slug') s.orders
      → All (IsDead slug') store.orders

pub reconcile-Reconciled :
    (venue : List VenueOrder) (slug : Text) (now : ℕ) (s : Store)
    → Reconciled slug s (reconcile venue slug now none s)
unfolding reconcile orders_for
reconcile-Reconciled venue slug now s =
    let rows : List Order = by_created_at (keep (in_market slug) s.orders) in
    let start : ReconcileResult = record {
      market_slug = slug;
      resolved = [];
      still_live = [];
      orphans = [];
    } in
    let v : Visit slug [] s start (reconcile_from venue now (keep (owned_by none) rows) s start) =
      reconcile_from-Visit slug venue now (keep (owned_by none) rows) s start (λ h.
        All-map s.orders
          (λ q there c live.
            kept-Any (owned_by none) q rows refl (selected-Any (in_market slug) q s.orders c there))
          (All-self s.orders)) in
    record {
      store = v.store;
      result = record v.result { orphans = orphans_of venue rows };
      returned = rw v.returned refl;
      ended = λ h.
          All-map v.store.orders
            (λ q w c. elim (Bool-cases (is_live q)) [
              | inl live ↦ elim (w c live) [ ]
              | inr dead ↦ dead
            ])
            (v.waits h);
      keeps = v.keeps;
    }
