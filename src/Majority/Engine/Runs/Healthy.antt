-- ===== src/Majority/Engine/Runs/Healthy.antt =====
-- The windows of the engine stay sound when markets open and close and are restored.
use lufy.Prelude.{
  ℕ, ◌≡◌, refl, sym, ap, ◌∙◌, inl, inr, ◌++◌, Any, ◌&&◌, ◌==◌, true≢false, is_some, text_eq→eq,
  Bool, true, false, not, Option, none, some, List, [], ◌∷◌, Text, text_eq, arith, if◌then◌else◌,
}
use mathlib.Core.Path.{subst}
use mathlib.Core.Option.{some-injective}
use lufy.Domain.Models.{ExecutionIntent}
use lufy.Majority.State.{MajorityMarketState}
use lufy.Majority.Config.{
  MajorityWindowConfig, config_tradable, windows_by_offset, tradable_windows,
}
use lufy.Majority.Engine.{Setup, EngineState, Keyed, same_key, put}
use lufy.Majority.Engine.Event.{EngineEvent, TicksAt}
use lufy.Majority.Engine.Tick.{
  open_windows, off_state, opened_state, open_market, drop_market, restore_one, restore_all,
}
use lufy.Majority.Engine.Justified.{IsSound, IsQuiet}

-- Every window that is not submitted is sound.
abbrev pub AreSound : List EngineEvent → Keyed (Option MajorityMarketState) → Keyed Bool → Type 0
AreSound past states submitted =
    (slug : Text) (window : ℕ) (s : MajorityMarketState)
    → states slug window ≡ some s
    → submitted slug window ≡ false
    → IsSound past slug s

-- A window as it opens.
abbrev IsBlank : MajorityMarketState → Type 0
IsBlank s = IsQuiet s × (s.triggered_at ≡ none)

blank-IsSound :
    (past : List EngineEvent) (slug : Text) (s : MajorityMarketState)
    → IsBlank s
    → IsSound past slug s
blank-IsSound past slug s (quiet, never) = record {
  quiet = quiet;
  fired = λ t h. elim (true≢false (ap is_some (sym h ∙ never))) [ ];
}

-- An entry that is written is sound, and so are the entries beside it.
pub put-AreSound :
    (past : List EngineEvent) (slug : Text) (window : ℕ) (s : MajorityMarketState) (flag : Bool)
    (states : Keyed (Option MajorityMarketState)) (submitted : Keyed Bool)
    → (flag ≡ false → IsSound past slug s)
    → AreSound past states submitted
    → AreSound past (put slug window (some s) states) (put slug window flag submitted)
put-AreSound past slug window s flag states submitted here there slug' window' s' =
    at_key (same_key slug window slug' window') (same_slug (text_eq slug slug') (window == window'))
  where
    same_slug : (a b : Bool) → (a && b) ≡ true → a ≡ true
    same_slug a b h = ground arith

    at_key :
        (same : Bool)
        → (same ≡ true → text_eq slug slug' ≡ true)
        → (if same then some s else states slug' window') ≡ some s'
        → (if same then flag else submitted slug' window') ≡ false
        → IsSound past slug' s'
    at_key true key e u =
        subst (λ (x : Text). IsSound past x s') (text_eq→eq slug slug' (key refl))
          (subst (IsSound past slug) (some-injective s s' e) (here u))
    at_key false key e u = there slug' window' s' e u

open_windows-AreSound :
    (past : List EngineEvent) (state_of : MajorityWindowConfig → MajorityMarketState) (slug : Text)
    (ws : List MajorityWindowConfig) (states : Keyed (Option MajorityMarketState))
    (submitted : Keyed Bool)
    → ((w : MajorityWindowConfig) → IsBlank (state_of w))
    → AreSound past states submitted
    → AreSound past (open_windows state_of slug ws states) submitted
open_windows-AreSound past state_of slug [] states submitted quiet there = there
open_windows-AreSound past state_of slug (w ∷ ws) states submitted quiet there =
    open_windows-AreSound past state_of slug ws _ submitted quiet (put_blank (state_of w) (quiet w))
  where
    put_blank :
        (s : MajorityMarketState)
        → IsBlank s
        → AreSound past (put slug w.execution_window_seconds (some s) states) submitted
    put_blank s blank slug' window' s' =
        at_key (same_key slug w.execution_window_seconds slug' window')
      where
        at_key :
            (same : Bool)
            → (if same then some s else states slug' window') ≡ some s'
            → submitted slug' window' ≡ false
            → IsSound past slug' s'
        at_key true e u =
            subst (IsSound past slug') (some-injective s s' e) (blank-IsSound past slug' s blank)
        at_key false e u = there slug' window' s' e u

-- The engine with its windows sound.
abbrev pub IsHealthy : List EngineEvent → EngineState → Type 0
IsHealthy past es = AreSound past es.states es.submitted

pub open_market-IsHealthy :
    (past : List EngineEvent) (e : Setup) (slug : Text) (close_ts : ℕ) (es : EngineState)
    → IsHealthy past es
    → IsHealthy past (open_market e slug close_ts es)
unfolding open_market
open_market-IsHealthy past e slug close_ts es healthy = by_tradable (config_tradable e.config)
  where
    by_tradable :
        (tradable : Bool)
        → IsHealthy past (
            if not tradable
            then record es {
              states =
                  open_windows
                    (off_state slug close_ts)
                    slug
                    (windows_by_offset e.config)
                    es.states;
            }
            else record es {
              states =
                  open_windows
                    (opened_state e.config.buffer_enabled slug close_ts)
                    slug
                    (tradable_windows e.config)
                    es.states;
            })
    by_tradable false =
        open_windows-AreSound past (off_state slug close_ts) slug (windows_by_offset e.config)
          es.states es.submitted (λ w. (refl, refl)) healthy
    by_tradable true =
        open_windows-AreSound past (opened_state e.config.buffer_enabled slug close_ts) slug
          (tradable_windows e.config) es.states es.submitted (λ w. (refl, refl)) healthy

pub open_market-db :
    (e : Setup) (slug : Text) (close_ts : ℕ) (es : EngineState)
    → (open_market e slug close_ts es).db ≡ es.db
unfolding open_market
open_market-db e slug close_ts es = ground arith

pub drop_market-db : (slug : Text) (es : EngineState) → (drop_market slug es).db ≡ es.db
unfolding drop_market
drop_market-db slug es = refl

pub drop_market-IsHealthy :
    (past : List EngineEvent) (slug : Text) (es : EngineState)
    → IsHealthy past es
    → IsHealthy past (drop_market slug es)
unfolding drop_market
drop_market-IsHealthy past slug es healthy slug' window s = by_market (text_eq slug' slug)
  where
    by_market :
        (dropped : Bool)
        → (if dropped then none else es.states slug' window) ≡ some s
        → (if dropped then false else es.submitted slug' window) ≡ false
        → IsSound past slug' s
    by_market true e u = ground arith
    by_market false e u = healthy slug' window s e u

pub restore_all-IsHealthy :
    (past : List EngineEvent) (slug : Text) (intents : List ExecutionIntent) (es : EngineState)
    → IsHealthy past es
    → IsHealthy past (restore_all slug intents es) × ((restore_all slug intents es).db ≡ es.db)
restore_all-IsHealthy past slug [] es healthy = (healthy, refl)
restore_all-IsHealthy past slug (i ∷ intents) es healthy =
    restore_all-IsHealthy past slug intents (restore_one slug i es) (
      put-AreSound past slug i.offset_seconds _ true es.states es.submitted (λ u. ground arith)
        healthy)

Any-append : {A : Type 0} (P : A → Type 0) (xs : List A) (x : A) → Any P xs → Any P (xs ++ x ∷ [])
Any-append P [] x h = elim h [ ]
Any-append P (y ∷ xs) x (inl h) = inl h
Any-append P (y ∷ xs) x (inr h) = inr (Any-append P xs x h)

pub Any-last : {A : Type 0} (P : A → Type 0) (xs : List A) (x : A) → P x → Any P (xs ++ x ∷ [])
Any-last P [] x h = inl h
Any-last P (y ∷ xs) x h = inr (Any-last P xs x h)

-- One more event has happened.
pub IsHealthy-later :
    (past : List EngineEvent) (event : EngineEvent) (es : EngineState)
    → IsHealthy past es
    → IsHealthy (past ++ event ∷ []) es
IsHealthy-later past event es healthy slug window s e u =
    let sound : IsSound past slug s = healthy slug window s e u in
    record {
      quiet = sound.quiet;
      fired = λ t h. Any-append (TicksAt slug t) past event (sound.fired t h);
    }
