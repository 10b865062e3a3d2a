-- ===== src/Store.antt =====
-- The database of the backend as one value, the session that reads and writes it, and the queries.
pub mod Data
pub mod Session
pub mod Users
pub mod Tokens
pub mod Keeps
