-- ===== src/Db.antt =====
-- src/db: the database behind the daemon. The records are in Models, the tables in Tables, and the
-- statements in Plans, Tokens, Sessions and Audit, one function for each method of `Database`;
-- Integrity and Active are about what the statements keep.
pub mod Models
pub mod Tables
pub mod Plans
pub mod Tokens
pub mod Sessions
pub mod Stats
pub mod Audit
pub mod Rows
pub mod Statements
pub mod Active
pub mod Integrity
