-- ===== src/RateLimiter.antt =====
-- core/rate_limiter.py: the token buckets that throttle the clients of the key store.
mod Defs
pub mod Level
pub mod Bound
mod Tests
pub use Defs.{RateLimitConfig, Bucket, TokenBucketRateLimiter, Wait, Answer, Status, bucket_unit}
unfoldable pub use Defs.{
  refilled, bucket_of, answered, is_allowed, is_old, cleanup_old_buckets, get_status,
}
