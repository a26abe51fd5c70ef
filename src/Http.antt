-- ===== src/Http.antt =====
-- Package http: validation of requests, error responses, rate limiting and logging around handlers.
pub mod Validator
pub mod Status
pub mod Response
pub mod RateLimit
pub mod Log
pub mod Recover
pub mod Server
