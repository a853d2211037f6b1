-- ===== src/Execution/Fills/Replay.antt =====
-- Ingesting is idempotent: the fills table, not memory, decides what is new.
use lufy.Prelude.{
  ℕ, ◌≡◌, refl, ◌⊎◌, inl, inr, Bool, true, false, List, [], ◌∷◌, ◌++◌, any, All, Option, none, some,
  Text, text_eq_self, Result, ok, err, arith, Bool-cases,
}
use lufy.Prelude.Int.{pos, leb_ℤ}
use mathlib.Core.Path.{subst}
use lufy.Execution.Ids.{OrderError}
use lufy.Domain.Models.{Order, Fill}
use lufy.Execution.Orders.{apply_fill}
use lufy.Execution.Store.{Store, StorageError, save_fill, save_order, same_fill, has_order}
use lufy.Execution.Fills.{
  Step, unlinked, filled, known, look_up, Pass, and_then, ingest_one, ingest_from, ingest, get,
  linked,
}

any-append_left {ℓ} :
    {A : Type ℓ} (p : A → Bool) (xs ys : List A) → any p xs ≡ true → any p (xs ++ ys) ≡ true
any-append_left p [] ys h = cc
any-append_left p (x ∷ xs) ys h = ground (arith, any-append_left p xs ys)

any-append_last {ℓ} :
    {A : Type ℓ} (p : A → Bool) (xs : List A) (y : A) → p y ≡ true → any p (xs ++ y ∷ []) ≡ true
any-append_last p [] y h = ground arith
any-append_last p (x ∷ xs) y h = ground (arith, any-append_last p xs y h)

abbrev IsStored : Text → Store → Type 0
IsStored id s = any (same_fill id) s.fills ≡ true

-- What is stored stays stored, and a call that returns has stored the fill or found it stored.
abbrev Saves : {A : Type 0} → Text → Fill → Store → Store → Result StorageError A → Type 0
Saves id f s s' (ok _) = (IsStored id s → IsStored id s') × IsStored f.fill_id s'
Saves id f s s' (err _) = Unit

abbrev store_after : Store → Result StorageError (Store × Bool) → Store
store_after s (ok (s', _)) = s'
store_after s (err _) = s

save_fill-Saves :
    (id : Text) (f : Fill) (s : Store)
    → Saves id f s (store_after s (save_fill f s)) (save_fill f s)
unfolding save_fill
save_fill-Saves id f s = elim (Bool-cases (any (same_fill f.fill_id) s.fills)) [
  | inl old ↦ rw old ((λ h. h), old)
  | inr new ↦ elim (Bool-cases (any (has_order f.order_id) s.orders)) [
    | inl known_order ↦
        rw (new, known_order)
          (
            any-append_left (same_fill id) s.fills (f ∷ []),
            any-append_last (same_fill f.fill_id) s.fills f (text_eq_self f.fill_id),
          )
    | inr no_order ↦ rw (new, no_order) tt
  ]
]

-- The same of a step of the loop.
abbrev Steps : Text → Fill → Store → Step → Type 0
Steps id f s (s', ok _) = (IsStored id s → IsStored id s') × IsStored f.fill_id s'
Steps id f s (s', err _) = IsStored id s → IsStored id s'

unlinked-Steps :
    (id : Text) (f : Fill) (s : Store) (book : List Order) (accepted : List Fill)
    (r : Result StorageError (Store × Bool))
    → Saves id f s (store_after s r) r
    → Steps id f s (unlinked f s book accepted r)
unlinked-Steps id f s book accepted (err e) h = λ k. k
unlinked-Steps id f s book accepted (ok (s', true)) h = h
unlinked-Steps id f s book accepted (ok (s', false)) h = h

filled-Steps :
    (id : Text) (f g : Fill) (s s' : Store) (book : List Order) (accepted : List Fill)
    (r : Result OrderError Order)
    → (IsStored id s → IsStored id s')
    → IsStored f.fill_id s'
    → Steps id f s (filled g s' book accepted r)
unfolding save_order
filled-Steps id f g s s' book accepted (err e) h k = h
filled-Steps id f g s s' book accepted (ok o) h k = (h, k)

known-Steps :
    (id : Text) (f : Fill) (o : Order) (now : ℕ) (s : Store) (book : List Order)
    (accepted : List Fill) (r : Result StorageError (Store × Bool))
    → Saves id (linked f o) s (store_after s r) r
    → Steps id f s (known (linked f o) o now s book accepted r)
known-Steps id f o now s book accepted (err e) h = λ k. k
known-Steps id f o now s book accepted (ok (s', false)) h = h
known-Steps id f o now s book accepted (ok (s', true)) h =
    filled-Steps id f (linked f o) s s' book accepted (apply_fill o f.size now) h.0 h.1

look_up-Steps :
    (id : Text) (f : Fill) (now : ℕ) (s : Store) (book : List Order) (accepted : List Fill)
    (found : Option Order)
    → Steps id f s (look_up f now s book accepted found)
look_up-Steps id f now s book accepted none =
    unlinked-Steps id f s book accepted (save_fill f s) (save_fill-Saves id f s)
look_up-Steps id f now s book accepted (some o) =
    known-Steps id f o now s book accepted (save_fill (linked f o) s)
      (save_fill-Saves id (linked f o) s)

-- A fill that a step leaves alone: it is of no size, or its id is stored.
abbrev IsKnown : Store → Fill → Type 0
IsKnown s f = (leb_ℤ f.size (pos 0) ≡ true) ⊎ IsStored f.fill_id s

-- The same of a step of the loop.
abbrev Learns : Text → Fill → Store → Step → Type 0
Learns id f s (s', ok _) = (IsStored id s → IsStored id s') × IsKnown s' f
Learns id f s (s', err _) = IsStored id s → IsStored id s'

Steps-Learns : (id : Text) (f : Fill) (s : Store) (st : Step) → Steps id f s st → Learns id f s st
Steps-Learns id f s (s', ok x) h = (h.0, inr h.1)
Steps-Learns id f s (s', err e) h = h

ingest_one-Learns :
    (id : Text) (f : Fill) (now : ℕ) (s : Store) (book : List Order) (accepted : List Fill)
    → Learns id f s (ingest_one f now s book accepted)
unfolding ingest_one
ingest_one-Learns id f now s book accepted = elim (Bool-cases (leb_ℤ f.size (pos 0))) [
  | inl nothing ↦ rw nothing ((λ h. h), inl nothing)
  | inr something ↦ rw something (
      Steps-Learns id f s (look_up f now s book accepted (get f.order_id book))
        (look_up-Steps id f now s book accepted (get f.order_id book)))
]

-- A step over a known fill changes nothing.
ingest_one-known :
    (f : Fill) (now : ℕ) (s : Store) (book : List Order) (accepted : List Fill)
    → IsKnown s f
    → ingest_one f now s book accepted ≡ (s, ok (book, accepted))
unfolding ingest_one save_fill
ingest_one-known f now s book accepted (inl nothing) = rw nothing
ingest_one-known f now s book accepted (inr stored) = elim (Bool-cases (leb_ℤ f.size (pos 0))) [
  | inl nothing ↦ rw nothing
  | inr something ↦ rw something (found (get f.order_id book))
]
  where
    found : (o : Option Order) → look_up f now s book accepted o ≡ (s, ok (book, accepted))
    found none = rw stored
    found (some o) = rw stored

ingest_from-known :
    (reported : List Fill) (now : ℕ) (s : Store) (book : List Order) (accepted : List Fill)
    → All (IsKnown s) reported
    → ingest_from reported now s book accepted ≡ (s, ok accepted)
unfolding ingest_from
ingest_from-known [] now s book accepted h = refl
ingest_from-known (f ∷ reported) now s book accepted h =
    rw (ingest_one-known f now s book accepted h.0, ingest_from)
      (ingest_from-known reported now s book accepted h.1)

-- What is stored stays stored through a pass, and a pass that returns knows its fills.
abbrev Ends : Text → List Fill → Store → Pass → Type 0
Ends id reported s (s', ok _) = (IsStored id s → IsStored id s') × All (IsKnown s') reported
Ends id reported s (s', err _) = Unit

and_then-Ends :
    (id : Text) (f : Fill) (reported : List Fill) (s : Store) (st : Step)
    (rest : Store → List Order → List Fill → Pass)
    → Learns id f s st
    → Learns f.fill_id f s st
    → ((s' : Store) (book : List Order) (accepted : List Fill)
        → Ends id reported s' (rest s' book accepted)
          × Ends f.fill_id reported s' (rest s' book accepted))
    → Ends id (f ∷ reported) s (and_then st rest)
and_then-Ends id f reported s (s', err e) rest l l' h = tt
and_then-Ends id f reported s (s', ok (book, accepted)) rest l l' h =
    join (rest s' book accepted) (h s' book accepted).0 (h s' book accepted).1
  where
    join :
        (p : Pass)
        → Ends id reported s' p
        → Ends f.fill_id reported s' p
        → Ends id (f ∷ reported) s p
    join (t, err e) a b = tt
    join (t, ok new) a b = ((λ k. a.0 (l.0 k)), (known_still l.1, a.1))
      where
        known_still : IsKnown s' f → IsKnown t f
        known_still (inl nothing) = inl nothing
        known_still (inr stored) = inr (b.0 stored)

ingest_from-Ends :
    (reported : List Fill) (id : Text) (now : ℕ) (s : Store) (book : List Order)
    (accepted : List Fill)
    → Ends id reported s (ingest_from reported now s book accepted)
unfolding ingest_from
ingest_from-Ends [] id now s book accepted = ((λ h. h), tt)
ingest_from-Ends (f ∷ reported) id now s book accepted =
    and_then-Ends id f reported s (ingest_one f now s book accepted) (ingest_from reported now)
      (ingest_one-Learns id f now s book accepted)
      (ingest_one-Learns f.fill_id f now s book accepted)
      (λ s' book' accepted'. (
        ingest_from-Ends reported id now s' book' accepted',
        ingest_from-Ends reported f.fill_id now s' book' accepted',
      ))

-- A batch of fills that went through once changes nothing when the venue reports it again, at any
-- later time: the store stays as it is, and no fill is new.
pub ingest_twice :
    (market_slug : Text) (reported new : List Fill) (now later : ℕ) (s s' : Store)
    → ingest market_slug reported now s ≡ (s', ok new)
    → ingest market_slug reported later s' ≡ (s', ok [])
unfolding ingest
ingest_twice market_slug reported new now later s s' e =
    ingest_from-known reported later s' _ []
      (subst (λ (p : Pass). Ends [] reported s p) e (ingest_from-Ends reported [] now s _ [])).1
