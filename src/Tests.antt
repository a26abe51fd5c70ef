-- ===== src/Tests.antt =====
-- The theorems at concrete inputs.
pub mod Codec
pub mod Samples
mod Service
mod Pages
mod Raised
mod Answers
mod Limits
mod Start
pub mod Middleware
mod Stacks
mod Run
mod Pool
mod Jobs
