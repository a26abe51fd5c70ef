-- ===== src/Go.antt =====
-- What the program uses of the Go language and its standard library, as executable definitions.
pub mod Float64
pub mod Time
pub mod Text
pub mod Strings
pub mod Mux
pub mod Fmt
pub mod Arith
pub mod Dict
pub mod Errors
pub mod Outcome
pub mod Base64
