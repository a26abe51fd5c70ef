-- ===== src/System.antt =====
-- The service over the SQLite repository, as main.go puts them together.
pub mod Alerts
pub mod Returns
pub mod Panics
pub mod Thresholds
pub mod Internal
pub mod Responses
pub mod Answers
pub mod Stack
pub mod Harmless
pub mod AlertsAnswers
pub mod AlertsStack
pub mod Saved
pub mod Raised
