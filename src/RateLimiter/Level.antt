-- ===== src/RateLimiter/Level.antt =====
-- What one client of core/rate_limiter.py may spend at an instant, and what an answer says of it.
use gestalt_workframe.Prelude.{
  ℕ, ◌-◌, ◌+◌, ◌*◌, ◌≤◌, ◌≡◌, ◌≢◌, ◌↔◌, ◌<◌, ◌/◌, refl, sym, ◌∙◌, min, Option-cases, String, Bool,
  true, false, leb, inl, inr, if◌then◌else◌, text_key, arith, Bool-cases,
}
use gestalt_workframe.Prelude.Assoc.{get, get-put, get-put_self}
use gestalt_workframe.RateLimiter.Defs.{
  TokenBucketRateLimiter, RateLimitConfig, Answer, admitted, throttled, zero_division, bucket_unit,
  refilled, bucket_of, answered, get_status, Wait, is_allowed, with_tokens,
}

-- The units that the client may spend.
unfoldable pub level : ℕ → String → TokenBucketRateLimiter → ℕ
level now client l = refilled l.config now (bucket_of l.config now (get client l.buckets))

abbrev pub admits : Answer → Bool
admits (admitted n w) = true
admits (throttled w n) = false
admits zero_division = false

pub level_le :
    (now : ℕ) (client : String) (l : TokenBucketRateLimiter)
    → level now client l ≤ l.config.burst * bucket_unit
unfolding level refilled
level_le now client l = omega arith

pub level-with_tokens :
    (now later : ℕ) (client : String) (n : ℕ) (l : TokenBucketRateLimiter)
    → level later client (with_tokens now client n l)
      ≡ min (n + (later - now) * l.config.requests_per_second) (l.config.burst * bucket_unit)
unfolding level refilled bucket_of
level-with_tokens now later client n l =
    rw (get-put_self client (record { tokens = n; last_update = now }) l.buckets) refl

-- What a call does to the client's own bucket.
pub is_allowed_cases :
    (now : ℕ) (client : String) (cost : ℕ) (l : TokenBucketRateLimiter)
    → (is_allowed now client cost l).0
      ≡ with_tokens now client
          (if leb (cost * bucket_unit) (level now client l)
            then level now client l - cost * bucket_unit
            else level now client l)
          l
unfolding is_allowed level
is_allowed_cases now client cost l =
    elim (Bool-cases (leb (cost * bucket_unit) (level now client l))) [
      | inl e ↦ rw e refl
      | inr e ↦ rw e refl
    ]

pub admits-is_allowed :
    (now : ℕ) (client : String) (cost : ℕ) (l : TokenBucketRateLimiter)
    → 0 < l.config.requests_per_second
    → admits (is_allowed now client cost l).1 ≡ leb (cost * bucket_unit) (level now client l)
unfolding is_allowed level answered
admits-is_allowed now client cost l h = ground arith

pub admits_within :
    (now : ℕ) (client : String) (cost : ℕ) (l : TokenBucketRateLimiter)
    → admits (is_allowed now client cost l).1 ≡ true
    → leb (cost * bucket_unit) (level now client l) ≡ true
unfolding is_allowed level answered
admits_within now client cost l h = ground arith

tokens-get_status :
    (now : ℕ) (client : String) (l : TokenBucketRateLimiter)
    → (get_status now client l).tokens ≡ level now client l / bucket_unit
unfolding get_status level bucket_of refilled
tokens-get_status now client l = elim (Option-cases (get client l.buckets)) [
  | inl absent ↦ rw absent (omega arith)
  | inr (b, present) ↦ rw present refl
]

-- At a rate above 0 a call is admitted exactly when it costs no more than the tokens that `get_status`
-- shows for its client at that instant.
pub is_allowed_iff :
    (now : ℕ) (client : String) (cost : ℕ) (l : TokenBucketRateLimiter)
    → 0 < l.config.requests_per_second
    → (admits (is_allowed now client cost l).1 ≡ true) ↔ (cost ≤ (get_status now client l).tokens)
is_allowed_iff now client cost l h =
    rw (admits-is_allowed now client cost l h, tokens-get_status now client l) (ground arith)

-- the answer, from the limits and the level alone
answer_at : RateLimitConfig → ℕ → ℕ → Answer
answer_at c cost tokens =
    if leb (cost * bucket_unit) tokens
    then answered c (
        admitted ((tokens - cost * bucket_unit) / bucket_unit) (record {
          missing = c.burst * bucket_unit - (tokens - cost * bucket_unit);
          rate = c.requests_per_second;
        }))
    else answered c (
        throttled (record { missing = cost * bucket_unit - tokens; rate = c.requests_per_second })
          (tokens / bucket_unit))

answer-is_allowed :
    (now : ℕ) (client : String) (cost : ℕ) (l : TokenBucketRateLimiter)
    → (is_allowed now client cost l).1 ≡ answer_at l.config cost (level now client l)
unfolding is_allowed level answer_at
answer-is_allowed now client cost l =
    elim (Bool-cases (leb (cost * bucket_unit) (level now client l))) [
      | inl e ↦ rw e refl
      | inr e ↦ rw e refl
    ]

pub level-with_tokens_others :
    (now later : ℕ) (client other : String) (n : ℕ) (l : TokenBucketRateLimiter)
    → other ≢ client
    → (get other (with_tokens now client n l).buckets ≡ get other l.buckets)
      × (level later other (with_tokens now client n l) ≡ level later other l)
level-with_tokens_others now later client other n l different = (kept, unfold level in rw kept refl)
  where
    kept : get other (with_tokens now client n l).buckets ≡ get other l.buckets
    kept = rw get-put (ground (arith, text_key.agree_iff client other))

-- A call of one client changes neither the status of another nor what another's next call is answered.
pub is_allowed_isolated :
    (now later : ℕ) (client other : String) (cost next : ℕ) (l : TokenBucketRateLimiter)
    → other ≢ client
    → (get_status later other (is_allowed now client cost l).0 ≡ get_status later other l)
      × ((is_allowed later other next (is_allowed now client cost l).0).1
          ≡ (is_allowed later other next l).1)
is_allowed_isolated now later client other cost next l different =
    let tokens =
      if leb (cost * bucket_unit) (level now client l)
      then level now client l - cost * bucket_unit
      else level now client l in
    let (kept, same_level) = level-with_tokens_others now later client other tokens l different in
    rw (is_allowed_cases now client cost l) (
      unfold get_status in rw kept refl,
      answer-is_allowed later other next _
          ∙ rw same_level (sym (answer-is_allowed later other next l)),
    )

answer_at-throttled :
    (c : RateLimitConfig) (cost tokens n : ℕ) (w : Wait)
    → answer_at c cost tokens ≡ throttled w n
    → (tokens < cost * bucket_unit)
      × (w.missing ≡ cost * bucket_unit - tokens)
      × (w.rate ≡ c.requests_per_second)
      × (0 < c.requests_per_second)
unfolding answer_at answered
answer_at-throttled c cost tokens n w h = ground arith

is_allowed-throttled :
    (now : ℕ) (client : String) (cost : ℕ) (l : TokenBucketRateLimiter)
    → level now client l < cost * bucket_unit
    → (is_allowed now client cost l).0 ≡ with_tokens now client (level now client l) l
is_allowed-throttled now client cost l short =
    elim (Bool-cases (leb (cost * bucket_unit) (level now client l))) [
      | inl e ↦ ground (arith, e, short)
      | inr e ↦ rw (is_allowed_cases now client cost l, e) refl
    ]

-- A throttled call whose cost is within the burst passes, when it is repeated and its client has made no
-- other call, exactly from the end of the `retry_after` that it was given.
pub retry_after_exact :
    (now later : ℕ) (client : String) (cost n : ℕ) (w : Wait) (l : TokenBucketRateLimiter)
    → now ≤ later
    → cost ≤ l.config.burst
    → (is_allowed now client cost l).1 ≡ throttled w n
    → (admits (is_allowed later client cost (is_allowed now client cost l).0).1 ≡ true)
      ↔ (w.missing ≤ (later - now) * w.rate)
retry_after_exact now later client cost n w l forward fits refused =
    let facts =
      answer_at-throttled l.config cost (level now client l) n w
        (sym (answer-is_allowed now client cost l) ∙ refused) in
    let after = with_tokens now client (level now client l) l in
    rw
      (
        is_allowed-throttled now client cost l facts.0,
        admits-is_allowed later client cost after facts.3,
        level-with_tokens now later client (level now client l) l,
      )
      (ground (arith, facts.0, facts.1, facts.2, fits))
