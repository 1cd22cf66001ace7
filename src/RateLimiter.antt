-- ===== src/RateLimiter.antt =====
-- cowrie/src/cowrie/core/rate_limiter.py, class RateLimiter: the requests that attackers may make
-- to one destination. Times are whole ticks of the clock, and each method takes the time that it
-- reads.
pub mod Tracker
pub mod Table
pub mod Size
pub mod Log
pub mod Decision
pub mod Runs
mod Tests
