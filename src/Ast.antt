-- ===== src/Ast.antt =====
-- Expressions with their types, and the checks of src/ast.cpp that are made when a node is built.
pub mod Kinds
pub mod Expr
pub mod Unary
pub mod Binary
pub mod Condition
pub mod Call
pub mod Rules
pub mod Casts
pub mod UnaryTyped
pub mod BinaryTyped
pub mod CompareTyped
pub mod ConditionTyped
pub mod CallTyped
pub mod Usual
mod Tests
