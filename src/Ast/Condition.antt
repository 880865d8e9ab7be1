-- ===== src/Ast/Condition.antt =====
-- `ConditionOpExpr` of src/ast.cpp, and the checks of the conditions of statements.
use kcc.Ast.Binary.{long_type}
use kcc.Ast.Expr.{
  Expr, condition, type_of, ty_of, is_zero, decay, may_cast_to, convert, TypeError, scalar_expected,
  integer_expected, different_structs, pointer_and_zero, not_allowed, assertion,
}
use kcc.Ast.Kinds.{
  is_void, is_pointer, is_arithmetic, is_integer, is_scalar, is_struct_or_union, element_type,
}
use kcc.Prelude.{Option, not, ◌&&◌, none, some, if◌then◌else◌}
use kcc.Prelude.Results.{Result, ok, err, ◌>>=◌, or_err}
use kcc.Ty.CType.{Ty, qual, get_type}
use kcc.Ty.Equal.{equal}

-- The case of two pointers: the pointer to void is converted, and nothing else is compared.
unfoldable pub condition_pointers : Expr → Expr → Expr → Result TypeError Expr
condition_pointers c l r = do
  a ← or_err assertion (element_type (ty_of l))
  b ← or_err assertion (element_type (ty_of r))
  if is_void (get_type a)
      then (do l' ← may_cast_to l (type_of r); ok (condition c l' r (qual (ty_of l') 0)))
      else if is_void (get_type b)
      then (do r' ← may_cast_to r (type_of l); ok (condition c l r' (qual (ty_of l) 0)))
      else ok (condition c l r (qual (ty_of l) 0))

-- `ConditionOpExpr::Check`.
unfoldable pub condition_check : Expr → Expr → Expr → Result TypeError Expr
unfolding condition_pointers
condition_check c l r =
    if not (is_scalar (ty_of c))
    then err scalar_expected
    else if is_arithmetic (ty_of l) && is_arithmetic (ty_of r)
    then (do (l', r', t) ← convert l r; ok (condition c l' r' (qual t 0)))
    else if is_struct_or_union (ty_of l) && is_struct_or_union (ty_of r)
    then (if not (equal (ty_of l) (ty_of r))
        then err different_structs
        else ok (condition c l r (type_of l)))
    else if is_pointer (ty_of l) && is_pointer (ty_of r)
    then condition_pointers c l r
    else if is_void (ty_of l) && is_void (ty_of r)
    then ok (condition c l r (qual Ty.void 0))
    else if is_pointer (ty_of l) && is_integer (ty_of r)
    then (if not (is_zero r)
        then err pointer_and_zero
        else (do r' ← may_cast_to r (type_of l); ok (condition c l r' (type_of l))))
    else if is_integer (ty_of l) && is_pointer (ty_of r)
    then (if not (is_zero l)
        then err pointer_and_zero
        else (do l' ← may_cast_to l (type_of r); ok (condition c l' r (type_of r))))
    else err not_allowed

-- `ConditionOpExpr::ConditionOpExpr` and `Check`.
unfoldable pub make_condition : Expr → Expr → Expr → Result TypeError Expr
unfolding condition_check
make_condition c l r = do c' ← decay c; l' ← decay l; r' ← decay r; condition_check c' l' r'

-- `IfStmt::Check`, `WhileStmt::Check` and `DoWhileStmt::Check`, of the condition.
unfoldable pub check_condition : Expr → Result TypeError Expr
check_condition c = if not (is_scalar (ty_of c)) then err scalar_expected else ok c

-- `ForStmt::Check`, of a condition that may be left out.
unfoldable pub check_for : Option Expr → Result TypeError (Option Expr)
check_for none = ok none
check_for (some c) = if not (is_scalar (ty_of c)) then err scalar_expected else ok (some c)

-- `SwitchStmt::Check`: the condition becomes a `long`.
unfoldable pub check_switch : Expr → Result TypeError Expr
check_switch c =
    if not (is_integer (ty_of c)) then err integer_expected else may_cast_to c long_type
