-- ===== src/Calc.antt =====
-- Constant expressions (src/calc.cpp).
pub mod Word
pub mod Llvm
pub mod Lower
pub mod Cast
pub mod Operators
pub mod Eval
pub mod Value
pub mod Definite
mod Folds
mod Chosen
mod Casts
mod Kinds
mod Correct
mod Shape
mod Binary
mod UnaryRules
pub mod Sound
mod Outcome
mod Tests
