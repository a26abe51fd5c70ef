-- ===== src/Sqlite.antt =====
-- Package sqlite: the tables, the statements of sqlc over them, and the repository of devices.
pub mod Conn
pub mod Migrate
pub mod Tables
pub mod Queries
pub mod Repository
