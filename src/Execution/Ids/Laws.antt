-- ===== src/Execution/Ids/Laws.antt =====
-- The ids of one reprice chain, and that no two submissions share an id.
use lufy.Prelude.{
  ℕ, ◌+◌, ◌≡◌, refl, sym, ◌≢◌, ◌∙◌, ap, true, false, ok, [], ◌∷◌, ◌++◌, Text, arith, ◌==◌,
  if◌then◌else◌, is_empty, text_eq,
}
use mathlib.Core.List.{append_assoc}
use lufy.Domain.Enums.{default_engine}
use lufy.Execution.Ids.{
  colon, print, has_colon, rpartition, engine_prefix, chain_id_for, order_id_for, advance,
  next_generation_id,
}
use lufy.Execution.Ids.Decimals.{read_from-print, isdigit-print, has_colon-print, print_injective}

pub has_colon-middle : (s t : Text) → has_colon (s ++ (colon ∷ t)) ≡ true
unfolding has_colon
has_colon-middle [] t = refl
has_colon-middle (c ∷ s) t = ground (arith, has_colon-middle s t)

rpartition-no_colon : (t : Text) → has_colon t ≡ false → rpartition t ≡ ([], t)
unfolding rpartition
rpartition-no_colon [] h = refl
rpartition-no_colon (c ∷ t) h = ground arith

-- A text splits at its last colon.
pub rpartition-middle : (s t : Text) → has_colon t ≡ false → rpartition (s ++ (colon ∷ t)) ≡ (s, t)
unfolding rpartition
rpartition-middle [] t h = ground arith
rpartition-middle (c ∷ s) t h = ground (arith, rpartition-middle s t h, has_colon-middle s t)

-- Two texts that end alike after their last colons begin alike, and the other way round.
split_injective :
    (s s' t t' : Text)
    → has_colon t ≡ false
    → has_colon t' ≡ false
    → s ++ (colon ∷ t) ≡ s' ++ (colon ∷ t')
    → (s ≡ s') × (t ≡ t')
split_injective s s' t t' h h' e =
    let p : ◌≡◌ {A = Text × Text} (s, t) (s', t') =
      sym (rpartition-middle s t h) ∙ (ap rpartition e ∙ rpartition-middle s' t' h') in
    (ap (λ (q : Text × Text). q.0) p, ap (λ (q : Text × Text). q.1) p)

chain_not_empty : (s t : Text) → is_empty (s ++ (colon ∷ t)) ≡ false
chain_not_empty [] t = refl
chain_not_empty (c ∷ s) t = refl

pub chain_id_for-split :
    (slug : Text) (offset index : ℕ) (engine : Text)
    → chain_id_for slug offset index engine
      ≡ (engine_prefix engine ++ (slug ++ (colon ∷ print offset))) ++ (colon ∷ print index)
unfolding chain_id_for
chain_id_for-split slug offset index engine = simp append_assoc

pub order_id_for-split :
    (slug : Text) (offset index generation : ℕ) (engine : Text)
    → order_id_for slug offset index generation engine
      ≡ chain_id_for slug offset index engine ++ (colon ∷ print generation)
unfolding order_id_for
order_id_for-split slug offset index generation engine = refl

next_generation_id-advance :
    (s t : Text) → has_colon t ≡ false → next_generation_id (s ++ (colon ∷ t)) ≡ advance s t
unfolding next_generation_id
next_generation_id-advance s t h = rw (rpartition-middle s t h)

chain_id_for_not_empty :
    (slug : Text) (offset index : ℕ) (engine : Text)
    → is_empty (chain_id_for slug offset index engine) ≡ false
chain_id_for_not_empty slug offset index engine =
    rw (chain_id_for-split slug offset index engine) (chain_not_empty _ (print index))

advance-print :
    (s : Text) (n : ℕ)
    → is_empty s ≡ false
    → advance s (print n) ≡ ok (s ++ (colon ∷ print (n + 1)))
advance-print s n h = rw (h, isdigit-print n, read_from-print n)

-- The replacement's id is that of the same submission, one generation on.
pub next_generation_id-order_id_for :
    (slug : Text) (offset index generation : ℕ) (engine : Text)
    → next_generation_id (order_id_for slug offset index generation engine)
      ≡ ok (order_id_for slug offset index (generation + 1) engine)
next_generation_id-order_id_for slug offset index generation engine = simp order_id_for-split (
    next_generation_id-advance (chain_id_for slug offset index engine) (print generation)
      (has_colon-print generation)
    ∙ advance-print (chain_id_for slug offset index engine) generation
        (chain_id_for_not_empty slug offset index engine))

-- Two submissions of one engine on one market have the same id only if they have the same window,
-- the same place in the ladder and the same generation.
pub order_id_for_injective :
    (slug engine : Text) (offset index generation offset' index' generation' : ℕ)
    → order_id_for slug offset index generation engine
      ≡ order_id_for slug offset' index' generation' engine
    → (offset ≡ offset') × (index ≡ index') × (generation ≡ generation')
order_id_for_injective slug engine o i g o' i' g' e =
    let (chains, generations) =
      split_injective (chain_id_for slug o i engine) (chain_id_for slug o' i' engine) (print g)
        (print g') (has_colon-print g) (has_colon-print g') (simp order_id_for-split at e) in
    let (heads, indices) =
      split_injective (engine_prefix engine ++ (slug ++ (colon ∷ print o)))
        (engine_prefix engine ++ (slug ++ (colon ∷ print o'))) (print i) (print i')
        (has_colon-print i) (has_colon-print i') (simp chain_id_for-split at chains) in
    let (_, offsets) =
      split_injective (engine_prefix engine ++ slug) (engine_prefix engine ++ slug) (print o)
        (print o') (has_colon-print o) (has_colon-print o') (simp (← append_assoc) at heads) in
    (print_injective o o' offsets, print_injective i i' indices, print_injective g g' generations)

-- The number of colons of a text.
abbrev colons : Text → ℕ
colons [] = 0
colons (c ∷ s) = (if c == colon then 1 else 0) + colons s

colons-append : (s t : Text) → colons (s ++ t) ≡ colons s + colons t
colons-append [] t = omega arith
colons-append (c ∷ s) t = ground (arith, colons-append s t)

has_colon-colons : (s : Text) → has_colon s ≡ false → colons s ≡ 0
unfolding has_colon
has_colon-colons [] h = refl
has_colon-colons (c ∷ s) h = ground (arith, has_colon-colons s)

colons-order_id_for :
    (slug engine : Text) (o i g : ℕ)
    → colons (order_id_for slug o i g engine) ≡ colons (engine_prefix engine) + colons slug + 3
colons-order_id_for slug engine o i g =
    simp (order_id_for-split, chain_id_for-split, colons-append)
      (ground (
        arith,
        has_colon-colons (print o) (has_colon-print o),
        has_colon-colons (print i) (has_colon-print i),
        has_colon-colons (print g) (has_colon-print g),
      ))

colons-engine_prefix :
    (engine : Text)
    → text_eq engine default_engine ≡ false
    → colons (engine_prefix engine) ≡ colons engine + 1
unfolding engine_prefix
colons-engine_prefix engine other = rw other (colons-append engine (colon ∷ []))

colons-default_prefix : colons (engine_prefix default_engine) ≡ 0
unfolding engine_prefix text_eq
colons-default_prefix = refl

-- An order of the default engine and one of another engine have different ids, on any markets
-- whose slugs hold no colon and whatever their windows, places and generations are.
order_id_for_engines_differ :
    (slug slug' engine : Text) (o i g o' i' g' : ℕ)
    → has_colon slug ≡ false
    → has_colon slug' ≡ false
    → text_eq engine default_engine ≡ false
    → order_id_for slug o i g default_engine ≢ order_id_for slug' o' i' g' engine
order_id_for_engines_differ slug slug' engine o i g o' i' g' h h' other e = omega (
  arith,
  ap colons e,
  colons-order_id_for slug default_engine o i g,
  colons-order_id_for slug' engine o' i' g',
  colons-engine_prefix engine other,
  colons-default_prefix,
  has_colon-colons slug h,
  has_colon-colons slug' h',
)
