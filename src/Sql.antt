-- ===== src/Sql.antt =====
-- include/sql and src/sql: the SQL front end.
pub mod Token
pub mod Lexer
pub mod Expression
pub mod Parser
pub mod Pipeline
pub mod Primitive
pub mod Schema
pub mod Logical
pub mod Access
pub mod Plan
pub mod Samples
mod Tests
