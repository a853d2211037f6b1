-- ===== src/Execution/Store/Rows.antt =====
-- Properties of all rows of a result, and what an upsert keeps.
use lufy.Prelude.{
  ◌≡◌, inl, inr, false, List, [], ◌∷◌, ◌++◌, any, map, All, if◌then◌else◌, arith, Bool-cases,
}
use mathlib.Core.Path.{subst}
use lufy.Domain.Models.{Order}
use lufy.Execution.Store.{upsert, update_row, overwrite, has_order, insert_by_time, by_created_at}

-- A property of the rows, kept by the sort.
module _ (P : Order → Type 0) where
  insert_by_time-All :
      (o : Order) (rows : List Order) → P o → All P rows → All P (insert_by_time o rows)
  insert_by_time-All o [] p ps = (p, ps)
  insert_by_time-All o (r ∷ rows) p ps = ground (arith, insert_by_time-All o rows p ps.1)

  pub by_created_at-All : (rows : List Order) → All P rows → All P (by_created_at rows)
  by_created_at-All [] ps = ps
  by_created_at-All (r ∷ rows) ps =
      insert_by_time-All r (by_created_at rows) ps.0 (by_created_at-All rows ps.1)

  overwrite-All :
      (o : Order) (rows : List Order)
      → All (λ r. P (overwrite o r)) rows
      → All P (map (overwrite o) rows)
  overwrite-All o [] ps = tt
  overwrite-All o (r ∷ rows) ps = (ps.0, overwrite-All o rows ps.1)

  append-All :
      (o : Order) (rows : List Order)
      → any (has_order o.order_id) rows ≡ false
      → P o
      → All (λ r. P (overwrite o r)) rows
      → All P (rows ++ o ∷ [])
  append-All o [] new p ps = (p, tt)
  append-All o (r ∷ rows) new p ps = elim (Bool-cases (has_order o.order_id r)) [
    | inl same ↦ ground arith
    | inr other ↦ (
      subst (λ b. P (if b then update_row r o else r)) other ps.0,
      append-All o rows (ground arith) p ps.1,
    )
  ]

  -- A property holds of every row after an upsert, if it holds of the new row and of each row once
  -- the new one is written over it where their ids agree.
  pub upsert-All :
      (o : Order) (rows : List Order)
      → P o
      → All (λ r. P (overwrite o r)) rows
      → All P (upsert o rows)
  unfolding upsert
  upsert-All o rows p ps = elim (Bool-cases (any (has_order o.order_id) rows)) [
    | inl known ↦ rw known (overwrite-All o rows ps)
    | inr new ↦ rw new (append-All o rows new p ps)
  ]
