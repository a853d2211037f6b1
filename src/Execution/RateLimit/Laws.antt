-- ===== src/Execution/RateLimit/Laws.antt =====
-- How many requests a bucket lets through, and that a request that waits is let through.
use lufy.Prelude.{
  ℕ, ◌+◌, ◌-◌, ◌*◌, ◌≤◌, ◌<◌, ◌≡◌, sym, Bool, true, false, List, [], ◌∷◌, ok, arith, Bool-cases,
  inl, inr, ltb, ◌==◌,
}
use mathlib.Core.Path.{subst}
use lufy.Execution.RateLimit.{TokenBucket, token, new_bucket, refill, take, missing}

-- The requests at some instants, one after the other, and how many of them are let through.
abbrev pub one_if : Bool → ℕ
one_if true = 1
one_if false = 0

unfoldable pub granted : List ℕ → TokenBucket → ℕ
granted [] b = 0
granted (now ∷ times) b = one_if (take now b).1 + granted times (take now b).0

-- By how much the clock moves forward in all; a step back counts for nothing.
abbrev pub forward : ℕ → List ℕ → ℕ
forward last [] = 0
forward last (now ∷ times) = (now - last) + forward now times

take_lem :
    (now : ℕ) (b : TokenBucket)
    → ((take now b).0.tokens + one_if (take now b).1 * token
        ≤ b.tokens + (now - b.last) * b.sustained)
      × ((take now b).0.last ≡ now)
      × ((take now b).0.sustained ≡ b.sustained)
unfolding take refill
take_lem now b = ground arith

granted_tokens :
    (times : List ℕ) (b : TokenBucket)
    → granted times b * token ≤ b.tokens + forward b.last times * b.sustained
unfolding granted
granted_tokens [] b = omega arith
granted_tokens (now ∷ times) b =
    let (spent, last, rate) = take_lem now b in
    let rest = granted_tokens times (take now b).0 in
    let rest' : granted times (take now b).0 * token
        ≤ (take now b).0.tokens + forward now times * b.sustained =
      subst
        (λ (r : ℕ).
          granted times (take now b).0 * token ≤ (take now b).0.tokens + forward now times * r)
        rate
        (subst
          (λ (t : ℕ).
            granted times (take now b).0 * token
            ≤ (take now b).0.tokens + forward t times * (take now b).0.sustained)
          last rest) in
    omega arith

-- A new bucket lets through no more requests than its burst and what its rate brings while the
-- clock moves forward, at any instants of the requests, also where the clock is set back.
pub granted_bounded :
    (times : List ℕ) (sustained burst now : ℕ) (b : TokenBucket)
    → new_bucket sustained burst now ≡ ok b
    → granted times b * token ≤ burst * token + forward now times * sustained
unfolding new_bucket
granted_bounded times sustained burst now b e = elim (Bool-cases (sustained == 0)) [
  | inl no_rate ↦ ground arith
  | inr some_rate ↦ elim (Bool-cases (ltb burst sustained)) [
    | inl no_burst ↦ ground arith
    | inr some_burst ↦
        let full : TokenBucket = record {
          sustained = sustained;
          burst = burst;
          tokens = burst * token;
          last = now;
        } in
        let same : full ≡ b = ground arith in
        subst
          (λ (c : TokenBucket).
            granted times c * token ≤ burst * token + forward now times * sustained)
          same (granted_tokens times full)
  ]
]

-- What a refusal says: less than a token stands after the refill.
refused_lem :
    (now : ℕ) (b : TokenBucket)
    → (take now b).1 ≡ false
    → ((take now b).0 ≡ refill now b)
      × ((refill now b).tokens < token)
      × ((missing now b).1 ≡ token - (refill now b).tokens)
unfolding take missing
refused_lem now b refused = ground arith

enough_lem :
    (now : ℕ) (b : TokenBucket)
    → token ≤ b.burst * token
    → token ≤ b.tokens + (now - b.last) * b.sustained
    → (take now b).1 ≡ true
unfolding take refill
enough_lem now b room enough = ground arith

-- A request that is refused is let through once the delay has passed: at any later instant by
-- which the rate brings the part of a token that was missing.
pub take_after_delay :
    (now delay : ℕ) (b : TokenBucket)
    → 0 < b.sustained
    → b.sustained ≤ b.burst
    → (take now b).1 ≡ false
    → (missing now b).1 ≤ delay * b.sustained
    → (take (now + delay) (take now b).0).1 ≡ true
unfolding refill
take_after_delay now delay b ps pb refused waited =
    let (same, low, part) = refused_lem now b refused in
    let later : now + delay - now ≡ delay = omega arith in
    let room : token ≤ b.burst * token = omega arith in
    let enough : token ≤ (refill now b).tokens + delay * b.sustained =
      omega (arith, subst (λ (m : ℕ). m ≤ delay * b.sustained) part waited) in
    subst (λ (c : TokenBucket). (take (now + delay) c).1 ≡ true) (sym same)
      (enough_lem (now + delay) (refill now b) room
        (subst (λ (d : ℕ). token ≤ (refill now b).tokens + d * b.sustained) (sym later) enough))
