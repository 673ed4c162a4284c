-- ===== src/RateLimiter/Defs.antt =====
-- `TokenBucketRateLimiter` of core/rate_limiter.py. Instants and ages are in microseconds and the rate
-- in 10^-6 requests a second, so that a token is 10^12 units and time times rate is a number of units,
-- where the code rounds floats. The clock is monotonic. The rate, the burst and a cost are not below 0.
use gestalt_workframe.Prelude.{
  ℕ, ◌-◌, ◌+◌, ◌*◌, ◌/◌, min, String, Bool, true, false, not, Option, none, some, ltb, leb, nat_eq,
  select, length, if◌then◌else◌, text_key,
}
use gestalt_workframe.Prelude.Assoc.{Assoc, get, put}

abbrev pub bucket_unit : ℕ
bucket_unit = 1000000000000

pub record RateLimitConfig : Type 0 where
  pub requests_per_second : ℕ
  pub burst : ℕ

-- `tokens` in units
pub record Bucket : Type 0 where
  pub tokens : ℕ
  pub last_update : ℕ

pub record TokenBucketRateLimiter : Type 0 where
  pub config : RateLimitConfig
  pub buckets : Assoc String Bucket

-- `missing / rate` microseconds
pub record Wait : Type 0 where
  pub missing : ℕ
  pub rate : ℕ

-- The two answers with their metadata, and the ZeroDivisionError of a rate of 0.
pub data Answer : Type 0 where
  admitted : (tokens_remaining : ℕ) → (reset_after : Wait) → Answer
  throttled : (retry_after : Wait) → (tokens_remaining : ℕ) → Answer
  zero_division : Answer

-- `min(tokens + elapsed * requests_per_second, float(burst))`
unfoldable pub refilled : RateLimitConfig → ℕ → Bucket → ℕ
refilled c now b =
    min (b.tokens + (now - b.last_update) * c.requests_per_second) (c.burst * bucket_unit)

-- the client's bucket, or a full one for a new client
unfoldable pub bucket_of : RateLimitConfig → ℕ → Option Bucket → Bucket
bucket_of c now none = record { tokens = c.burst * bucket_unit; last_update = now }
bucket_of c now (some b) = b

-- the metadata divide by the rate
unfoldable pub answered : RateLimitConfig → Answer → Answer
answered c a = if nat_eq c.requests_per_second 0 then Answer.zero_division else a

abbrev pub with_tokens : ℕ → String → ℕ → TokenBucketRateLimiter → TokenBucketRateLimiter
with_tokens now client tokens l = record l {
  buckets = put client (record { tokens = tokens; last_update = now }) l.buckets;
}

unfoldable pub is_allowed :
    ℕ → String → ℕ → TokenBucketRateLimiter → TokenBucketRateLimiter × Answer
unfolding bucket_of answered
is_allowed now client cost l =
    let c = l.config in
    let tokens = refilled c now (bucket_of c now (get client l.buckets)) in
    let left = tokens - cost * bucket_unit in
    if leb (cost * bucket_unit) tokens
    then (
      with_tokens now client left l,
      answered c (
          Answer.admitted (left / bucket_unit)
            (record { missing = c.burst * bucket_unit - left; rate = c.requests_per_second })),
    )
    else (
      with_tokens now client tokens l,
      answered c (
          Answer.throttled
            (record { missing = cost * bucket_unit - tokens; rate = c.requests_per_second })
            (tokens / bucket_unit)),
    )

unfoldable pub is_old : ℕ → ℕ → String × Bucket → Bool
is_old now max_age (client, b) = ltb max_age (now - b.last_update)

unfoldable pub cleanup_old_buckets : ℕ → ℕ → TokenBucketRateLimiter → TokenBucketRateLimiter × ℕ
cleanup_old_buckets now max_age l = (
  record l { buckets = select (λ e. not (is_old now max_age e)) l.buckets },
  length (select (is_old now max_age) l.buckets),
)

pub record Status : Type 0 where
  pub tokens : ℕ
  pub active : Bool

status_of : RateLimitConfig → ℕ → Option Bucket → Status
status_of c now none = record { tokens = c.burst; active = false }
status_of c now (some b) = record { tokens = refilled c now b / bucket_unit; active = true }

unfoldable pub get_status : ℕ → String → TokenBucketRateLimiter → Status
unfolding status_of
get_status now client l = status_of l.config now (get client l.buckets)
