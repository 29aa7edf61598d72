-- ===== src/OtelPgx.antt =====
-- adapters/otelpgx: comments and spans around the queries of a pool or a transaction.
pub mod SqlComment
pub mod Config
pub mod Pool
pub mod Tx
pub mod Statements
pub mod Agreement
mod Tests
