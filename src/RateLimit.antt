-- ===== src/RateLimit.antt =====
-- features/experience_map/rate_limit.py: `SlidingWindowRateLimiter`.
pub mod Limiter
pub mod Laws
