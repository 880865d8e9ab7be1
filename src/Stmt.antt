-- ===== src/Stmt.antt =====
-- `Parser` of src/parse.h: statements and function bodies (src/parse_stmt.cpp, src/parse.cpp).
pub mod Tree
pub mod State
pub mod Attribute
pub mod Simple
pub mod Parser
pub mod Function
mod Expressions
mod Tests
