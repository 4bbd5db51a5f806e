-- ===== src/Auth.antt =====
-- Sign-in (src/auth/), of which the limiter of attempts and the timeouts of sessions are modelled.
pub mod RateLimit
pub mod Limits
pub mod Retry
pub mod Timeout
mod Tests
