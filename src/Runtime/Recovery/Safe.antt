-- ===== src/Runtime/Recovery/Safe.antt =====
-- What it means that a recovery is safe to trade after.
use lufy.Prelude.{
  ℕ, ◌≡◌, refl, ◌⊎◌, inl, inr, true, false, Option, none, some, Bool, Any, List, [], ◌∷◌, All, Text,
  codes, Result, ok, err, is_list_empty, arith, Bool-cases,
}
use lufy.Domain.Enums.{OrderState, same_state}
use lufy.Domain.Models.{Order}
use lufy.Execution.Ids.{OrderError}
use lufy.Execution.Orders.{is_legal}
use lufy.Execution.Store.{Store, save_order, orders_for}
use lufy.Execution.Sweep.Moves.{moved, save_transition_legal}
use lufy.Market.Table.{MarketRow}
use lufy.Runtime.Recovery.{
  RecoveryStep, StepResult, RecoveryReport, Raised, caught, uncaught, Hook, Gathered,
  GatheredOrLeft, OpenOrders, Hooks, RunError, left_with, safe_to_trade, unsettled_markets,
  recover_orders, expire_pending, recover_pending, recover_windows, external, then_step,
  external_steps, report_of, finished, after_orders, after_external, run,
}
use lufy.Runtime.Recovery.Dead.{IsDead, save_order-IsDead}
use lufy.Runtime.Recovery.Loop.{IsClear, Outcome, leaves, ends, recover_orders_from-Outcome}

-- A pass that returns, and keeps what is dead.
record Expires (s : Store) (res : Result OrderError Store) : Type 0 where
  store : Store
  returned : res ≡ ok store
  keeps : (slug : Text) → All (IsDead slug) s.orders → All (IsDead slug) store.orders

expire_pending-Expires :
    (now : ℕ) (orders : List Order) (s : Store) → Expires s (expire_pending now orders s)
unfolding expire_pending
expire_pending-Expires now [] s = record { store = s; returned = refl; keeps = λ slug h. h }
expire_pending-Expires now (o ∷ orders) s =
    elim (Bool-cases (same_state o.state OrderState.pending)) [
      | inr other ↦ rw other (expire_pending-Expires now orders s)
      | inl pending ↦
          let reason : Text = codes "unsubmitted at restart" in
          let o' : Order = moved o OrderState.expired now reason in
          let legal : (is_legal o.state OrderState.expired ≡ true)
              × (same_state OrderState.expired o.state ≡ false) =
            legal_expiry o.state pending in
          let more : Expires (save_order o' s) (expire_pending now orders (save_order o' s)) =
            expire_pending-Expires now orders (save_order o' s) in
          record {
            store = more.store;
            returned =
                rw
                  (pending, save_transition_legal o OrderState.expired now reason s legal.0 legal.1)
                  more.returned;
            keeps = λ slug h. more.keeps slug (save_order-IsDead slug o' s refl h);
          }
    ]
  where
    legal_expiry :
        (state : OrderState)
        → same_state state OrderState.pending ≡ true
        → (is_legal state OrderState.expired ≡ true) × (same_state OrderState.expired state ≡ false)
    legal_expiry state h = ground arith

recover_pending-Expires :
    (now : ℕ) (slugs : List Text) (s : Store) → Expires s (recover_pending now slugs s)
unfolding recover_pending
recover_pending-Expires now [] s = record { store = s; returned = refl; keeps = λ slug h. h }
recover_pending-Expires now (slug ∷ slugs) s =
    let one : Expires s (expire_pending now (orders_for slug s) s) =
      expire_pending-Expires now (orders_for slug s) s in
    let more : Expires one.store (recover_pending now slugs one.store) =
      recover_pending-Expires now slugs one.store in
    record {
      store = more.store;
      returned = rw one.returned more.returned;
      keeps = λ slug' h. more.keeps slug' (one.keeps slug' h);
    }

all_dead :
    (slugs : List Text) (s s' : Store)
    → ((slug : Text) → All (IsDead slug) s.orders → All (IsDead slug) s'.orders)
    → All (λ slug. All (IsDead slug) s.orders) slugs
    → All (λ slug. All (IsDead slug) s'.orders) slugs
all_dead [] s s' keeps h = tt
all_dead (slug ∷ slugs) s s' keeps h = (keeps slug h.0, all_dead slugs s s' keeps h.1)

safe-IsClear :
    (before : List StepResult) (g : Gathered) (resumed : Bool × List Text)
    → safe_to_trade (report_of before g resumed) ≡ true
    → IsClear g
safe-IsClear [] g resumed h = record { resolved = ground arith; answered_all = ground arith }
safe-IsClear (step ∷ before) g resumed h = safe-IsClear before g resumed (ground arith)

safe-no_orphans :
    (before : List StepResult) (g : Gathered) (resumed : Bool × List Text)
    → safe_to_trade (report_of before g resumed) ≡ true
    → is_list_empty g.orphans ≡ true
safe-no_orphans before g resumed h = ground arith

-- A hook that raises an exception other than an `ArcError` and an `OSError`, or a venue that answers
-- so for an unsettled market.
abbrev pub SomeUncaught : Hooks → OpenOrders → List Text → Type 0
SomeUncaught hooks venue slugs =
    (hooks.reconnect ≡ some (some uncaught))
    ⊎ ((hooks.feeds ≡ some (some uncaught))
        ⊎ ((hooks.websocket ≡ some (some uncaught))
            ⊎ ((hooks.wallet ≡ some (some uncaught))
                ⊎ ((hooks.windows ≡ some (err uncaught))
                    ⊎ Any (λ slug. venue slug ≡ err uncaught) slugs))))

-- What a run comes to: such an exception leaves it, or it returns; and where its report is safe to
-- trade after, every order of an unsettled market is dead.
pub data Recovers (hooks : Hooks) (venue : OpenOrders) (slugs : List Text)
    : Result RunError (Store × RecoveryReport) → Type 0 where
  left :
      (s' : Store)
      → SomeUncaught hooks venue slugs
      → Recovers hooks venue slugs (err (left_with s'))
  returned :
      (s' : Store) (report : RecoveryReport)
      → ((safe_to_trade report ≡ false)
          ⊎ ((is_list_empty report.orphans ≡ true)
              × All (λ slug. All (IsDead slug) s'.orders) slugs))
      → Recovers hooks venue slugs (ok (s', report))

external-uncaught :
    (step : RecoveryStep) (h : Hook) → external step h ≡ none → h ≡ some (some uncaught)
external-uncaught step none e = ground arith
external-uncaught step (some none) e = ground arith
external-uncaught step (some (some caught)) e = ground arith
external-uncaught step (some (some uncaught)) e = refl

windows-uncaught :
    (h : Option (Result Raised (List Text))) → recover_windows h ≡ none → h ≡ some (err uncaught)
windows-uncaught none e = ground arith
windows-uncaught (some (ok resumed)) e = ground arith
windows-uncaught (some (err caught)) e = ground arith
windows-uncaught (some (err uncaught)) e = refl

then_step-none :
    (step : Option StepResult) (steps : Option (List StepResult))
    → then_step step steps ≡ none
    → (step ≡ none) ⊎ (steps ≡ none)
then_step-none none steps h = inl refl
then_step-none (some step) none h = inr refl
then_step-none (some step) (some steps) h = ground arith

external_steps-none :
    (hooks : Hooks) (venue : OpenOrders) (slugs : List Text)
    → external_steps hooks ≡ none
    → SomeUncaught hooks venue slugs
external_steps-none hooks venue slugs h =
    elim (then_step-none (external RecoveryStep.reconnect hooks.reconnect) _ h) [
      | inl e ↦ inl (external-uncaught RecoveryStep.reconnect hooks.reconnect e)
      | inr j ↦ inr (elim (then_step-none (external RecoveryStep.feeds hooks.feeds) _ j) [
        | inl e ↦ inl (external-uncaught RecoveryStep.feeds hooks.feeds e)
        | inr k ↦ inr (elim (then_step-none (external RecoveryStep.websocket hooks.websocket) _ k) [
          | inl e ↦ inl (external-uncaught RecoveryStep.websocket hooks.websocket e)
          | inr l ↦ inr (inl (wallet_left (external RecoveryStep.wallet hooks.wallet) refl l))
        ])
      ])
    ]
  where
    wallet_left :
        (o : Option StepResult)
        → external RecoveryStep.wallet hooks.wallet ≡ o
        → then_step o (some []) ≡ none
        → hooks.wallet ≡ some (some uncaught)
    wallet_left none e l = external-uncaught RecoveryStep.wallet hooks.wallet e
    wallet_left (some step) e l = ground arith

-- The end of a run, after the loop over the markets.
after_orders-Recovers :
    (hooks : Hooks) (venue : OpenOrders) (now : ℕ) (slugs : List Text) (before : List StepResult)
    (s : Store) (g : Gathered) (res : GatheredOrLeft)
    → Outcome venue slugs s g res
    → Recovers hooks venue slugs (after_orders hooks now slugs before res)
unfolding after_orders
after_orders-Recovers hooks venue now slugs before s g _ (leaves s' h) =
    left s' (inr (inr (inr (inr (inr h)))))
after_orders-Recovers hooks venue now slugs before s g _ (ends s' g' e) =
    let p : Expires s' (recover_pending now slugs s') = recover_pending-Expires now slugs s' in
    rw p.returned (by_windows p.store p.keeps (recover_windows hooks.windows) refl)
  where
    by_windows :
        (s'' : Store)
        → ((slug : Text) → All (IsDead slug) s'.orders → All (IsDead slug) s''.orders)
        → (resumed : Option (Bool × List Text)) → recover_windows hooks.windows ≡ resumed
        → Recovers hooks venue slugs (finished before g' s'' resumed)
    by_windows s'' keeps none w =
        left s'' (inr (inr (inr (inr (inl (windows-uncaught hooks.windows w))))))
    by_windows s'' keeps (some resumed) w =
        returned s'' (report_of before g' resumed)
          (elim (Bool-cases (safe_to_trade (report_of before g' resumed))) [
            | inr unsafe ↦ inl unsafe
            | inl safe ↦ inr (
              safe-no_orphans before g' resumed safe,
              all_dead slugs s' s'' keeps (e.ended (safe-IsClear before g' resumed safe)),
            )
          ])

-- A recovery returns whatever its hooks and the venue answer, and whatever `ArcError` or `OSError`
-- they raise: an exception leaves it only where one of them raises another one. Where it returns,
-- its report is not safe to trade after, or the venue has told no orphan and no order of an
-- unsettled market is live: none rests, none is of unknown state, none is pending.
pub run_safe :
    (hooks : Hooks) (venue : OpenOrders) (now : ℕ) (markets : List MarketRow) (s : Store)
    → Recovers hooks venue (unsettled_markets markets) (run hooks venue now markets s)
unfolding run recover_orders
run_safe hooks venue now markets s = by_steps (external_steps hooks) refl
  where
    by_steps :
        (steps : Option (List StepResult))
        → external_steps hooks ≡ steps
        → Recovers hooks venue (unsettled_markets markets) (
            after_external s steps λ before.
              after_orders hooks now
                (unsettled_markets markets)
                before
                (recover_orders venue now (unsettled_markets markets) s))
    by_steps none h = left s (external_steps-none hooks venue (unsettled_markets markets) h)
    by_steps (some before) h =
        after_orders-Recovers hooks venue now (unsettled_markets markets) before s
          (record { unresolved = []; orphans = []; failed = false })
          (recover_orders venue now (unsettled_markets markets) s)
          (recover_orders_from-Outcome venue now (unsettled_markets markets) s
            (record { unresolved = []; orphans = []; failed = false }))
