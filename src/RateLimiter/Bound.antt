-- ===== src/RateLimiter/Bound.antt =====
-- Runs of the limiter of core/rate_limiter.py, and what a client gets through it.
use gestalt_workframe.Prelude.{
  ℕ, ◌-◌, ◌+◌, ◌*◌, ◌≤◌, ◌≡◌, refl, ap, ◌∙◌, All, sym, String, true, not, List, [], ◌∷◌, ◌&&◌, inl,
  inr, ◌==◌, if◌then◌else◌, text_key, arith, Bool-cases, Option-cases, select, leb,
}
use mathlib.Core.Bool.{false≢true}
use native.Mathlib.Nat.{le_trans, mul-le-mul_right, add-mul}
use gestalt_workframe.Prelude.Assoc.{Assoc, get}
use gestalt_workframe.RateLimiter.Defs.{
  RateLimitConfig, Bucket, TokenBucketRateLimiter, bucket_unit, refilled, bucket_of, is_allowed,
  is_old, cleanup_old_buckets,
}
use gestalt_workframe.RateLimiter.Level.{
  admits_within, level-with_tokens_others, level, level_le, level-with_tokens, admits,
  is_allowed_cases,
}

-- A call of `is_allowed` or of `cleanup_old_buckets`.
pub data LimiterCall : Type 0 where
  asks : (now : ℕ) → (client : String) → (cost : ℕ) → LimiterCall
  cleans : (now : ℕ) → (max_age : ℕ) → LimiterCall

abbrev pub time_of : LimiterCall → ℕ
time_of (asks now client cost) = now
time_of (cleans now max_age) = now

unfoldable pub run_limiter : LimiterCall → TokenBucketRateLimiter → TokenBucketRateLimiter
run_limiter (asks now client cost) l = (is_allowed now client cost l).0
run_limiter (cleans now max_age) l = (cleanup_old_buckets now max_age l).0

-- The cost that one call gets admitted for the client.
unfoldable pub admitted_by : String → LimiterCall → TokenBucketRateLimiter → ℕ
admitted_by s (asks now client cost) l =
    if client == s && admits (is_allowed now client cost l).1 then cost else 0
admitted_by s (cleans now max_age) l = 0

unfoldable pub admitted_total : String → List LimiterCall → TokenBucketRateLimiter → ℕ
admitted_total s [] l = 0
admitted_total s (c ∷ cs) l = admitted_by s c l + admitted_total s cs (run_limiter c l)

-- The calls come between two instants, and none before its predecessor.
abbrev pub IsBetween : ℕ → List LimiterCall → ℕ → Type 0
IsBetween start [] end = start ≤ end
IsBetween start (c ∷ cs) end = (start ≤ time_of c) × IsBetween (time_of c) cs end

-- A bucket that is thrown away for its age would have filled up by then.
abbrev pub IsPatient : RateLimitConfig → LimiterCall → Type 0
IsPatient c (asks now client cost) = Unit
IsPatient c (cleans now max_age) = c.burst * bucket_unit ≤ max_age * c.requests_per_second

config-run_limiter :
    (c : LimiterCall) (l : TokenBucketRateLimiter) → (run_limiter c l).config ≡ l.config
unfolding run_limiter cleanup_old_buckets
config-run_limiter (asks now client cost) l = rw (is_allowed_cases now client cost l) refl
config-run_limiter (cleans now max_age) l = refl

time_rise :
    (last now later rate : ℕ)
    → now ≤ later
    → (later - last) * rate ≤ (now - last) * rate + (later - now) * rate
time_rise last now later rate h =
    let apart : later - last ≤ now - last + (later - now) = omega arith in
    le_trans (mul-le-mul_right rate apart) (omega (arith, add-mul (now - last) (later - now) rate))

-- as time passes, the level rises by no more than the rate
level-later :
    (now later : ℕ) (s : String) (l : TokenBucketRateLimiter)
    → now ≤ later
    → level later s l ≤ level now s l + (later - now) * l.config.requests_per_second
unfolding level refilled bucket_of
level-later now later s l h = elim (Option-cases (get s l.buckets)) [
  | inl absent ↦ rw absent (omega arith)
  | inr (b, present) ↦
      rw present (omega (arith, time_rise b.last_update now later l.config.requests_per_second h))
]

asked_self :
    (now : ℕ) (client : String) (cost : ℕ) (l : TokenBucketRateLimiter)
    → (if admits (is_allowed now client cost l).1 then cost else 0) * bucket_unit
        + level now client (is_allowed now client cost l).0
      ≤ level now client l
asked_self now client cost l = elim (Bool-cases (leb (cost * bucket_unit) (level now client l))) [
  | inl e ↦ rw (is_allowed_cases now client cost l, e, level-with_tokens) (ground arith)
  | inr e ↦
      rw (is_allowed_cases now client cost l, e, level-with_tokens)
        (ground (arith, admits_within now client cost l))
]

-- an admitted cost is taken from the level
asked :
    (now : ℕ) (s client : String) (cost : ℕ) (l : TokenBucketRateLimiter)
    → admitted_by s (asks now client cost) l * bucket_unit
        + level now s (is_allowed now client cost l).0
      ≤ level now s l
unfolding admitted_by
asked now s client cost l = elim (Bool-cases (client == s)) [
  | inl same ↦ rw (same, sym ((text_key.agree_iff client s).0 same)) (asked_self now client cost l)
  | inr other ↦
      rw
        (
          other,
          is_allowed_cases now client cost l,
          (level-with_tokens_others now now client s
              (if leb (cost * bucket_unit) (level now client l)
                then level now client l - cost * bucket_unit
                else level now client l)
              l (λ e. false≢true (sym other ∙ (text_key.agree_iff client s).1 (sym e)))).1,
        )
        (omega arith)
]

-- the units of a bucket that is looked up
units : RateLimitConfig → ℕ → String → Assoc String Bucket → ℕ
units c now s m = refilled c now (bucket_of c now (get s m))

swept_old :
    (c : RateLimitConfig) (now max_age : ℕ) (s k : String) (b : Bucket) (m : Assoc String Bucket)
    → c.burst * bucket_unit ≤ max_age * c.requests_per_second
    → is_old now max_age (k, b) ≡ true
    → units c now s (select (λ e. not (is_old now max_age e)) m) ≤ units c now s m
    → units c now s (select (λ e. not (is_old now max_age e)) m) ≤ units c now s ((k, b) ∷ m)
unfolding units is_old get refilled bucket_of
swept_old c now max_age s k b m h old rest =
    let aged : max_age ≤ now - b.last_update = ground (arith, old) in
    let full = mul-le-mul_right c.requests_per_second aged in
    elim (Bool-cases (k == s)) [
      | inl same ↦ rw same (omega (arith, full, h))
      | inr other ↦ rw other rest
    ]

swept :
    (c : RateLimitConfig) (now max_age : ℕ) (s : String) (m : Assoc String Bucket)
    → c.burst * bucket_unit ≤ max_age * c.requests_per_second
    → units c now s (select (λ e. not (is_old now max_age e)) m) ≤ units c now s m
unfolding units get
swept c now max_age s [] h = omega arith
swept c now max_age s ((k, b) ∷ m) h = elim (Bool-cases (is_old now max_age (k, b))) [
  | inl old ↦ rw (old, get) (swept_old c now max_age s k b m h old (swept c now max_age s m h))
  | inr young ↦
      rw (young, get)
        (elim (Bool-cases (k == s)) [
          | inl same ↦ rw same (omega arith)
          | inr other ↦ rw other (swept c now max_age s m h)
        ])
]

cleaned :
    (now max_age : ℕ) (s : String) (l : TokenBucketRateLimiter)
    → l.config.burst * bucket_unit ≤ max_age * l.config.requests_per_second
    → level now s (cleanup_old_buckets now max_age l).0 ≤ level now s l
unfolding units level cleanup_old_buckets
cleaned now max_age s l h = swept l.config now max_age s l.buckets h

step_bound :
    (s : String) (c : LimiterCall) (l : TokenBucketRateLimiter)
    → IsPatient l.config c
    → admitted_by s c l * bucket_unit + level (time_of c) s (run_limiter c l)
      ≤ level (time_of c) s l
unfolding run_limiter admitted_by
step_bound s (asks now client cost) l h = asked now s client cost l
step_bound s (cleans now max_age) l h = omega (arith, cleaned now max_age s l h)

IsBetween-le : (start end : ℕ) (cs : List LimiterCall) → IsBetween start cs end → start ≤ end
IsBetween-le start end [] h = h
IsBetween-le start end (c ∷ cs) h = omega (arith, h.0, IsBetween-le (time_of c) end cs h.1)

run_bound :
    (s : String) (start end : ℕ) (cs : List LimiterCall) (l : TokenBucketRateLimiter)
    → IsBetween start cs end
    → All (IsPatient l.config) cs
    → admitted_total s cs l * bucket_unit
      ≤ level start s l + (end - start) * l.config.requests_per_second
unfolding admitted_total
run_bound s start end [] l h patient = omega arith
run_bound s start end (c ∷ cs) l h patient =
    let kept = config-run_limiter c l in
    let rest = run_bound s (time_of c) end cs (run_limiter c l) h.1 (rw kept patient.1) in
    let rate_kept = ap (λ (k : RateLimitConfig). (end - time_of c) * k.requests_per_second) kept in
    let waited = level-later start (time_of c) s l h.0 in
    let times = add-mul (time_of c - start) (end - time_of c) l.config.requests_per_second in
    let span : time_of c - start + (end - time_of c) ≡ end - start =
      omega (arith, h.0, IsBetween-le (time_of c) end cs h.1) in
    omega (arith, rest, rate_kept, waited, step_bound s c l patient.0, rw span at times)

-- Whatever the clients ask for and however stale buckets are thrown away in between, as long as only
-- those are that would be full, the cost that is admitted for one client between two instants is no more
-- than the burst and what the rate adds in that time.
pub admitted_total_bounded :
    (s : String) (start end : ℕ) (cs : List LimiterCall) (l : TokenBucketRateLimiter)
    → IsBetween start cs end
    → All (IsPatient l.config) cs
    → admitted_total s cs l * bucket_unit
      ≤ l.config.burst * bucket_unit + (end - start) * l.config.requests_per_second
admitted_total_bounded s start end cs l h patient =
    omega (arith, run_bound s start end cs l h patient, level_le start s l)
