-- ===== src/RateLimiter/Tests.antt =====
-- Runs of the limiter of core/rate_limiter.py, and its theorems at them.
use gestalt_workframe.Prelude.{
  ◌+◌, ◌-◌, ◌*◌, ◌≤◌, ◌≡◌, ◌≢◌, ◌↔◌, refl, true, List, [], ◌∷◌, String, arith, text_key,
}
use mathlib.Core.Bool.{false≢true}
use gestalt_workframe.Prelude.Assoc.{get}
use gestalt_workframe.RateLimiter.Defs.{
  TokenBucketRateLimiter, Wait, throttled, bucket_unit, is_allowed, refilled, bucket_of, answered,
}
use gestalt_workframe.RateLimiter.Level.{admits, retry_after_exact}
use gestalt_workframe.RateLimiter.Bound.{
  LimiterCall, asks, cleans, admitted_total, admitted_total_bounded,
}

-- 5 requests a second and 2 at once.
abbrev limiter : TokenBucketRateLimiter
limiter = record { config = record { requests_per_second = 5000000; burst = 2 }; buckets = [] }

abbrev used_up : TokenBucketRateLimiter
used_up = record limiter { buckets = ("a", record { tokens = 0; last_update = 7 }) ∷ [] }

abbrev some_calls : List LimiterCall
some_calls =
    asks 1 "a" 1
    ∷ asks 1 "a" 1
    ∷ asks 2 "b" 1
    ∷ asks 3 "a" 1
    ∷ cleans 400010 400000
    ∷ asks 400010 "a" 2
    ∷ []

b_is_other : ◌≢◌ {A = String} "b" "a"
b_is_other e = false≢true ((text_key.agree_iff "b" "a").1 e)

abbrev fifth : Wait
fifth = record { missing = 1000000000000; rate = 5000000 }

used_up_throttled : (is_allowed 7 "a" 1 used_up).1 ≡ throttled fifth 0
unfolding is_allowed refilled bucket_of answered get
used_up_throttled = refl

retry_after_exact_example :
    (admits (is_allowed 200007 "a" 1 (is_allowed 7 "a" 1 used_up).0).1 ≡ true)
    ↔ (fifth.missing ≤ (200007 - 7) * fifth.rate)
retry_after_exact_example =
    retry_after_exact 7 200007 "a" 1 0 fifth used_up (omega arith) (omega arith) used_up_throttled

admitted_total_bounded_example :
    admitted_total "a" some_calls limiter * bucket_unit ≤ 2 * bucket_unit + (400010 - 1) * 5000000
admitted_total_bounded_example =
    admitted_total_bounded "a" 1 400010 some_calls limiter
      (
        omega arith,
        (omega arith, (omega arith, (omega arith, (omega arith, (omega arith, omega arith))))),
      )
      (tt, (tt, (tt, (tt, (omega arith, (tt, tt))))))
