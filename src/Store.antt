-- ===== src/Store.antt =====
-- The PostgreSQL database as the Go code uses it: the rows of the tables in migrations/, the
-- statements that the SQL texts are made of, and the calls of the pool, which can fail.
pub mod Rows
pub mod Table
pub mod World
pub mod Samples
