-- ===== src/Runtime/Recovery/Loop.antt =====
-- What the loop of a recovery over the unsettled markets leaves.
use lufy.Prelude.{
  ℕ, ◌≡◌, refl, sym, inl, inr, true, false, none, some, Any, List, [], ◌∷◌, ◌++◌, All, Text, Result,
  ok, err, is_list_empty, true≢false,
}
use lufy.Execution.Store.{Store}
use lufy.Execution.Reconcile.{VenueOrder, reconcile}
use lufy.Runtime.Recovery.{
  Raised, caught, uncaught, Gathered, GatheredOrLeft, OpenOrders, unreconciled, answered,
  then_market, recover_orders_from,
}
use lufy.Runtime.Recovery.Dead.{IsDead, Reconciled, reconcile-Reconciled}

-- Every market was reconciled, and left nothing unresolved.
pub record IsClear (g : Gathered) : Type 0 where
  pub resolved : is_list_empty g.unresolved ≡ true
  pub answered_all : g.failed ≡ false

append_empty :
    (a b : List Text)
    → is_list_empty (a ++ b) ≡ true
    → (is_list_empty a ≡ true) × (is_list_empty b ≡ true)
append_empty [] b h = (refl, h)
append_empty (x ∷ a) b h = elim (true≢false (sym h)) [ ]

-- The loop: where it ends clear it was clear before, the orders of its markets are dead, and what
-- was dead stays dead.
pub record Ended (slugs : List Text) (s : Store) (g : Gathered) (res : Store × Gathered)
    : Type 0 where
  pub before : IsClear res.1 → IsClear g
  pub ended : IsClear res.1 → All (λ slug. All (IsDead slug) res.0.orders) slugs
  pub keeps :
      IsClear res.1 → (slug : Text) → All (IsDead slug) s.orders → All (IsDead slug) res.0.orders

never_clear :
    {A : Type 0} (slug : Text) (s : Store) (g : Gathered) → IsClear (unreconciled slug s g) → A
never_clear slug s g c = elim (true≢false c.answered_all) [ ]

-- The loop ends, or an exception of the venue that the runner does not catch leaves it.
pub data Outcome (venue : OpenOrders) (slugs : List Text) (s : Store) (g : Gathered)
    : GatheredOrLeft → Type 0 where
  leaves :
      (s' : Store)
      → Any (λ slug. venue slug ≡ err uncaught) slugs
      → Outcome venue slugs s g (s', none)
  ends :
      (s' : Store) (g' : Gathered)
      → Ended slugs s g (s', g')
      → Outcome venue slugs s g (s', some g')

answered-Outcome :
    (venue : OpenOrders) (slug : Text) (now : ℕ) (s : Store) (g : Gathered)
    (a : Result Raised (List VenueOrder))
    → venue slug ≡ a
    → Outcome venue (slug ∷ []) s g (answered slug now s g a)
answered-Outcome venue slug now s g (err caught) same = ends s (unreconciled slug s g) (record {
  before = λ c. never_clear slug s g c;
  ended = λ c. never_clear slug s g c;
  keeps = λ c. never_clear slug s g c;
})
answered-Outcome venue slug now s g (err uncaught) same = leaves s (inl same)
answered-Outcome venue slug now s g (ok orders) same =
    let r : Reconciled slug s (reconcile orders slug now none s) =
      reconcile-Reconciled orders slug now s in
    rw r.returned (
      ends r.store _ (record {
        before = λ c. record {
          resolved = (append_empty g.unresolved r.result.still_live c.resolved).0;
          answered_all = c.answered_all;
        };
        ended = λ c. (r.ended (append_empty g.unresolved r.result.still_live c.resolved).1, tt);
        keeps = λ c. r.keeps (append_empty g.unresolved r.result.still_live c.resolved).1;
      }))

-- The other markets, after the first.
joined-Outcome :
    (venue : OpenOrders) (slug : Text) (slugs : List Text) (s : Store) (g : Gathered)
    (first : GatheredOrLeft) (rest : Store → Gathered → GatheredOrLeft)
    → Outcome venue (slug ∷ []) s g first
    → ((s' : Store) (g' : Gathered) → Outcome venue slugs s' g' (rest s' g'))
    → Outcome venue (slug ∷ slugs) s g (then_market first rest)
joined-Outcome venue slug slugs s g _ rest (leaves s' (inl h)) more = leaves s' (inl h)
joined-Outcome venue slug slugs s g _ rest (leaves s' (inr h)) more = elim h [ ]
joined-Outcome venue slug slugs s g _ rest (ends s' g' one) more = both (rest s' g') (more s' g')
  where
    both :
        (res : GatheredOrLeft)
        → Outcome venue slugs s' g' res
        → Outcome venue (slug ∷ slugs) s g res
    both _ (leaves s'' h) = leaves s'' (inr h)
    both _ (ends s'' g'' e) = ends s'' g'' (record {
      before = λ c. one.before (e.before c);
      ended = λ c. (e.keeps c slug (one.ended (e.before c)).0, e.ended c);
      keeps = λ c slug' h. e.keeps c slug' (one.keeps (e.before c) slug' h);
    })

pub recover_orders_from-Outcome :
    (venue : OpenOrders) (now : ℕ) (slugs : List Text) (s : Store) (g : Gathered)
    → Outcome venue slugs s g (recover_orders_from venue now slugs s g)
unfolding recover_orders_from
recover_orders_from-Outcome venue now [] s g =
    ends s g (record { before = λ c. c; ended = λ c. tt; keeps = λ c slug h. h })
recover_orders_from-Outcome venue now (slug ∷ slugs) s g =
    joined-Outcome venue slug slugs s g (answered slug now s g (venue slug))
      (recover_orders_from venue now slugs) (answered-Outcome venue slug now s g (venue slug) refl)
      (λ s' g'. recover_orders_from-Outcome venue now slugs s' g')
