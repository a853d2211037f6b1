-- ===== src/Runtime/State/Table.antt =====
-- Reading the table after a write.
use lufy.Prelude.{
  ◌≡◌, ◌∙◌, ap, false, some, [], ◌∷◌, Text, text_eq, text_eq_self, text_eq→eq, Bool-cases, inl, inr,
}
use lufy.Runtime.State.{Table, get_runtime_state, set_runtime_state}

pub get-set :
    (key value : Text) (t : Table)
    → get_runtime_state key (set_runtime_state key value t) ≡ some value
unfolding get_runtime_state set_runtime_state
get-set key value [] = let h = text_eq_self key in rw h
get-set key value ((k, v) ∷ rows) = elim (Bool-cases (text_eq k key)) [
  | inl same ↦ rw (same, same)
  | inr other ↦ rw (other, other) (get-set key value rows)
]

pub get-set_other :
    (key key' value : Text) (t : Table)
    → text_eq key' key ≡ false
    → get_runtime_state key (set_runtime_state key' value t) ≡ get_runtime_state key t
unfolding get_runtime_state set_runtime_state
get-set_other key key' value [] differ = rw differ
get-set_other key key' value ((k, v) ∷ rows) differ = elim (Bool-cases (text_eq k key')) [
  | inl same ↦
      let miss : text_eq k key ≡ false =
        ap (λ (x : Text). text_eq x key) (text_eq→eq k key' same) ∙ differ in
      rw (same, miss)
  | inr other ↦ rw other (elim (Bool-cases (text_eq k key)) [
    | inl hit ↦ rw hit
    | inr miss ↦ rw miss (get-set_other key key' value rows differ)
  ])
]
