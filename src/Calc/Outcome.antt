-- ===== src/Calc/Outcome.antt =====
-- `CalcInteger` and the division by zero (src/calc.cpp), on expressions that have values.
use kcc.Ast.Expr.{Expr}
use kcc.Calc.Llvm.{Llvm}
