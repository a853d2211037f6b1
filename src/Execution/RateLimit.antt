-- ===== src/Execution/RateLimit.antt =====
-- arc/execution/ratelimit.py: `TokenBucket`. Tokens are counted in thousandths, an instant and a
-- delay in milliseconds, so that the refill of a whole number of milliseconds is exact.
pub mod Laws
use lufy.Prelude.{
  ℕ, ◌+◌, ◌-◌, ◌*◌, min, Bool, true, false, Result, ok, err, ltb, leb, ◌==◌, if◌then◌else◌,
}

-- one token
abbrev pub token : ℕ
token = 1000

pub record TokenBucket : Type 0 where
  pub sustained : ℕ
  pub burst : ℕ
  pub tokens : ℕ
  pub last : ℕ

-- The two `ValueError`s of the constructor.
pub data BucketError : Type 0 where
  bad_sustained bad_burst : BucketError

-- `TokenBucket.__init__`; the rates are not negative
unfoldable pub new_bucket : ℕ → ℕ → ℕ → Result BucketError TokenBucket
new_bucket sustained burst now =
    if sustained == 0
    then err bad_sustained
    else if ltb burst sustained
    then err bad_burst
    else ok (record { sustained = sustained; burst = burst; tokens = burst * token; last = now })

-- `_refill`; the subtraction stops at zero, as `max(0.0, now - last)` does
unfoldable pub refill : ℕ → TokenBucket → TokenBucket
refill now b = record b {
  last = now;
  tokens = min (b.burst * token) (b.tokens + (now - b.last) * b.sustained);
}

unfoldable pub take : ℕ → TokenBucket → TokenBucket × Bool
unfolding refill
take now b =
    let b' = refill now b in
    if ltb b'.tokens token then (b', false) else (record b' { tokens = b'.tokens - token }, true)

-- `delay_until_token`, as the part of a token that is missing: the delay is that part divided by
-- the sustained rate, which is a token per thousandth and millisecond.
unfoldable pub missing : ℕ → TokenBucket → TokenBucket × ℕ
unfolding refill
missing now b =
    let b' = refill now b in if leb token b'.tokens then (b', 0) else (b', token - b'.tokens)
