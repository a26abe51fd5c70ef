-- ===== src/Device.antt =====
-- Package device: the data of the service, validation, page tokens, the service and its handlers.
pub mod Types
pub mod Validation
pub mod PageToken
pub mod Repository
pub mod Service
pub mod Proto
pub mod Handlers
