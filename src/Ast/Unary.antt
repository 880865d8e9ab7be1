-- ===== src/Ast/Unary.antt =====
-- `UnaryOpExpr` of src/ast.cpp.
use kcc.Ast.Expr.{
  Expr, unary, type_of, ty_of, is_lvalue, is_const, decay, may_cast_to, promoted, TypeError,
  assign_to_const, lvalue_expected, real_or_pointer_expected, arithmetic_expected, integer_expected,
  scalar_expected, pointer_expected, lvalue_or_function_expected, assertion,
}
use kcc.Ast.Kinds.{
  is_real, is_pointer, is_arithmetic, is_integer_or_bool, is_integer, is_scalar, is_function,
  element_type,
}
use kcc.Prelude.{not, ◌||◌, ◌&&◌, if◌then◌else◌}
use kcc.Prelude.Results.{Result, ok, err, ◌>>=◌, or_err}
use kcc.Token.{Tag}
use kcc.Ty.Arithmetic.{ArithmeticType}
use kcc.Ty.CType.{Ty, qual}

unfoldable pub inc_dec_op_check : Tag → Expr → Result TypeError Expr
inc_dec_op_check op e =
    if is_const e
    then err assign_to_const
    else if not (is_lvalue e)
    then err lvalue_expected
    else if is_real (ty_of e) || is_pointer (ty_of e)
    then ok (unary op e (type_of e))
    else err real_or_pointer_expected

unfoldable pub unary_add_sub_op_check : Tag → Expr → Result TypeError Expr
unary_add_sub_op_check op e = if not (is_arithmetic (ty_of e)) then err arithmetic_expected else (do
  e' ←
      (if is_integer_or_bool (ty_of e)
        then (do t ← promoted (ty_of e); may_cast_to e (qual t 0))
        else ok e)
  ok (unary op e' (type_of e')))

unfoldable pub not_op_check : Tag → Expr → Result TypeError Expr
not_op_check op e =
    if not (is_integer (ty_of e))
    then err integer_expected
    else (do t ← promoted (ty_of e); e' ← may_cast_to e (qual t 0); ok (unary op e' (type_of e')))

unfoldable pub logic_not_op_check : Tag → Expr → Result TypeError Expr
logic_not_op_check op e =
    if not (is_scalar (ty_of e))
    then err scalar_expected
    else ok (unary op e (qual (Ty.arithmetic ArithmeticType.int) 0))

unfoldable pub deref_op_check : Tag → Expr → Result TypeError Expr
deref_op_check op e = do t ← or_err pointer_expected (element_type (ty_of e)); ok (unary op e t)

unfoldable pub addr_op_check : Tag → Expr → Result TypeError Expr
addr_op_check op e =
    if not (is_function (ty_of e)) && not (is_lvalue e)
    then err lvalue_or_function_expected
    else ok (unary op e (qual (Ty.pointer (type_of e)) 0))

-- `UnaryOpExpr::Check`.
unfoldable pub unary_check : Tag → Expr → Result TypeError Expr
unfolding inc_dec_op_check unary_add_sub_op_check not_op_check logic_not_op_check deref_op_check
    addr_op_check
unary_check Tag.plus_plus e = inc_dec_op_check Tag.plus_plus e
unary_check Tag.minus_minus e = inc_dec_op_check Tag.minus_minus e
unary_check Tag.postfix_plus_plus e = inc_dec_op_check Tag.postfix_plus_plus e
unary_check Tag.postfix_minus_minus e = inc_dec_op_check Tag.postfix_minus_minus e
unary_check Tag.plus e = unary_add_sub_op_check Tag.plus e
unary_check Tag.minus e = unary_add_sub_op_check Tag.minus e
unary_check Tag.tilde e = not_op_check Tag.tilde e
unary_check Tag.exclaim e = logic_not_op_check Tag.exclaim e
unary_check Tag.star e = deref_op_check Tag.star e
unary_check Tag.amp e = addr_op_check Tag.amp e
unary_check _ e = err assertion

-- `UnaryOpExpr::UnaryOpExpr` and `Check`: the operand decays, but for `&`.
unfoldable pub make_unary : Tag → Expr → Result TypeError Expr
unfolding unary_check
make_unary Tag.amp e = unary_check Tag.amp e
make_unary op e = do e' ← decay e; unary_check op e'
