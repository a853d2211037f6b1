-- ===== src/Execution/Split/Ladder.antt =====
-- The loop of `split_size` in closed form: one more step on each of the first pieces.
use lufy.Prelude.{
  ℕ, zero, suc, ◌+◌, ◌-◌, ◌*◌, ◌%◌, ◌≤◌, ◌<◌, ◌≡◌, refl, ◌∙◌, ap, List, ◌∷◌, ◌++◌, replicate, leb,
  true, false, arith,
}
use native.Mathlib.Nat.{mod-eq_of_lt}
use lufy.Execution.Split.{add_at, distribute}

-- The first `more` of `more + rest` pieces have one step more than the base.
abbrev pub ladder : ℕ → ℕ → ℕ → ℕ → List ℕ
ladder base step more rest = replicate more (base + step) ++ replicate rest base

add_at-ladder :
    (base step more rest : ℕ)
    → add_at more step (ladder base step more (suc rest)) ≡ ladder base step (suc more) rest
add_at-ladder base step zero rest = refl
add_at-ladder base step (suc more) rest =
    ap (λ xs. (base + step) ∷ xs) (add_at-ladder base step more rest)

leb_multiple : (k step : ℕ) → leb step (suc k * step) ≡ true
leb_multiple k step = ground arith

-- Of `k` steps of remainder, each goes to the next piece.
pub distribute-ladder :
    (k fuel base step done rest usable : ℕ)
    → 0 < step
    → k ≤ fuel
    → done + (k + rest) ≡ usable
    → distribute fuel step usable (done % usable) (k * step) (ladder base step done (k + rest))
      ≡ ladder base step (done + k) rest
unfolding distribute
distribute-ladder zero zero base step done rest usable p h e =
    let none_left : 0 + rest ≡ rest = omega arith in
    let none_done : done + 0 ≡ done = omega arith in rw (none_left, none_done)
distribute-ladder zero (suc fuel) base step done rest usable p h e =
    let none_left : 0 + rest ≡ rest = omega arith in
    let none_done : done + 0 ≡ done = omega arith in
    let stop : leb step (0 * step) ≡ false = ground arith in rw (stop, none_left, none_done)
distribute-ladder (suc k) zero base step done rest usable p h e = elim h [ ]
distribute-ladder (suc k) (suc fuel) base step done rest usable p h e =
    let here : done % usable ≡ done = mod-eq_of_lt (omega arith) in
    let less : suc k * step - step ≡ k * step = omega arith in
    let more : leb step (suc k * step) ≡ true = leb_multiple k step in
    let next : (done + 1) ≡ suc done = omega arith in
    let last : suc done + k ≡ done + suc k = omega arith in
    let left : suc k + rest ≡ suc (k + rest) = omega arith in
    rw (left, here, less, more, add_at-ladder base step done (k + rest), next)
      (distribute-ladder k fuel base step (suc done) rest usable p (omega arith) (omega arith)
        ∙ ap (λ n. ladder base step n rest) last)
