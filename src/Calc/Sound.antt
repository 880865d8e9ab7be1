-- ===== src/Calc/Sound.antt =====
-- `CalcConstantExpr` (src/calc.cpp) and the C standard's values of integer constant expressions.
use kcc.Ast.Expr.{Expr, ty_of}
use kcc.Calc.Eval.{Globals, is_unsigned_ty}
use kcc.Calc.Folds.{is_unsigned_sign}
use kcc.Calc.Kinds.{unsigned-sign}
use kcc.Calc.Llvm.{Llvm, IntegerLaws}
use kcc.Calc.Value.{sign, is_whole}
use kcc.Prelude.{ap, Bool, true, ◌≡◌, ◌∙◌}
use kcc.Ty.Arithmetic.{ArithmeticType}
use kcc.Ty.CType.{Ty}

module _ (llvm : Llvm) (laws : IntegerLaws llvm) (globals : Globals llvm) where
  open llvm use {Constant, int_type, get_int, is_zero_value}

  pub sign-test :
      (e : Expr) (a : ArithmeticType)
      → ty_of e ≡ Ty.arithmetic a
      → is_whole a ≡ true
      → is_unsigned_ty (ty_of e) ≡ is_unsigned_sign (sign a)
  sign-test e a p w = ap is_unsigned_ty p ∙ unsigned-sign a w
