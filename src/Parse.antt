-- ===== src/Parse.antt =====
-- `Parser` of src/parse.h: the operators of expressions, integer and character constants of
-- src/parse_expr.cpp.
pub mod Integer
pub mod IntegerTable
pub mod IntegerLaws
pub mod Character
pub mod Levels
pub mod Ladder
pub mod Unary
mod Tests
mod ExprTests
