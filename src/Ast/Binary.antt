-- ===== src/Ast/Binary.antt =====
-- `BinaryOpExpr` of src/ast.cpp.
use kcc.Ast.Expr.{
  Expr, binary, type_of, ty_of, is_lvalue, is_const, is_zero, decay, may_cast_to, promoted, convert,
  ensure_compatible, TypeError, assign_to_const, lvalue_expected, arithmetic_expected,
  integer_expected, scalar_expected, pointer_and_zero, integer_or_pointer_expected,
  pointer_or_arithmetic_expected, pointer_or_real_expected, assertion,
}
use kcc.Ast.Kinds.{
  is_void, is_real, is_pointer, is_arithmetic, is_integer_or_bool, is_integer, is_scalar,
  element_type,
}
use kcc.Prelude.{Bool, not, ◌||◌, ◌&&◌, if◌then◌else◌}
use kcc.Prelude.Results.{Result, ok, err, ◌>>=◌, ◌>>◌, or_err}
use kcc.Token.{Tag}
use kcc.Ty.Arithmetic.{ArithmeticType}
use kcc.Ty.CType.{Ty, QualType, qual, get_type}

abbrev pub int_type : QualType
int_type = qual (Ty.arithmetic ArithmeticType.int) 0

abbrev pub ulong_type : QualType
ulong_type = qual (Ty.arithmetic ArithmeticType.ulong) 0

abbrev pub long_type : QualType
long_type = qual (Ty.arithmetic ArithmeticType.long) 0

unfoldable pub assign_op_check : Tag → Expr → Expr → Result TypeError Expr
assign_op_check op l r =
    if is_const l
    then err assign_to_const
    else if not (is_lvalue l)
    then err lvalue_expected
    else if is_pointer (ty_of l) && is_integer (ty_of r) && not (is_zero r)
    then err pointer_and_zero
    else (do r' ← may_cast_to r (type_of l); ok (binary op l r' (type_of l)))

-- The first case of several checks: `type_ = Expr::Convert(lhs_, rhs_)`.
unfoldable pub converted : Tag → Expr → Expr → Result TypeError Expr
converted op l r = do (l', r', t) ← convert l r; ok (binary op l' r' (qual t 0))

unfoldable pub add_op_check : Tag → Expr → Expr → Result TypeError Expr
unfolding converted
add_op_check op l r =
    if is_arithmetic (ty_of l) && is_arithmetic (ty_of r)
    then converted op l r
    else if is_integer (ty_of l) && is_pointer (ty_of r)
    then (do l' ← may_cast_to l ulong_type; ok (binary op r l' (type_of r)))
    else if is_pointer (ty_of l) && is_integer (ty_of r)
    then (do r' ← may_cast_to r ulong_type; ok (binary op l r' (type_of l)))
    else err integer_or_pointer_expected

unfoldable pub sub_op_check : Tag → Expr → Expr → Result TypeError Expr
unfolding converted
sub_op_check op l r =
    if is_arithmetic (ty_of l) && is_arithmetic (ty_of r)
    then converted op l r
    else if is_pointer (ty_of l) && is_integer (ty_of r)
    then (do r' ← may_cast_to r ulong_type; ok (binary op l r' (type_of l)))
    else if is_pointer (ty_of l) && is_pointer (ty_of r)
    then (do ensure_compatible (ty_of l) (ty_of r); ok (binary op l r long_type))
    else err integer_or_pointer_expected

abbrev pub is_percent : Tag → Bool
is_percent Tag.percent = Bool.true
is_percent _ = Bool.false

unfoldable pub multi_op_check : Tag → Expr → Expr → Result TypeError Expr
unfolding converted
multi_op_check op l r =
    if is_percent op && (not (is_integer (ty_of l)) || not (is_integer (ty_of r)))
    then err integer_expected
    else if not (is_percent op) && (not (is_arithmetic (ty_of l)) || not (is_arithmetic (ty_of r)))
    then err arithmetic_expected
    else converted op l r

unfoldable pub bitwise_op_check : Tag → Expr → Expr → Result TypeError Expr
unfolding converted
bitwise_op_check op l r =
    if not (is_integer_or_bool (ty_of l)) || not (is_integer_or_bool (ty_of r))
    then err integer_expected
    else converted op l r

unfoldable pub shift_op_check : Tag → Expr → Expr → Result TypeError Expr
shift_op_check op l r =
    if not (is_integer_or_bool (ty_of l)) || not (is_integer_or_bool (ty_of r))
    then err integer_expected
    else (do
      t ← promoted (ty_of l)
      l' ← may_cast_to l (qual t 0)
      r' ← may_cast_to r (qual (ty_of l') 0)
      ok (binary op l' r' (type_of l')))

unfoldable pub logical_op_check : Tag → Expr → Expr → Result TypeError Expr
logical_op_check op l r =
    if not (is_scalar (ty_of l)) || not (is_scalar (ty_of r))
    then err scalar_expected
    else ok (binary op l r int_type)

-- `Expr::EnsureCompatibleConvertVoidPtr`: the new operands.
unfoldable pub ensure_compatible_convert_void_ptr : Expr → Expr → Result TypeError (Expr × Expr)
ensure_compatible_convert_void_ptr l r = do
  a ← or_err assertion (element_type (ty_of l))
  b ← or_err assertion (element_type (ty_of r))
  (l', r') ←
      (if is_void (get_type a)
        then (do l' ← may_cast_to l (type_of r); ok (l', r))
        else if is_void (get_type b)
        then (do r' ← may_cast_to r (type_of l); ok (l, r'))
        else ok (l, r))
  ensure_compatible (ty_of l') (ty_of r')
  ok (l', r')

unfoldable pub compared_pointers : Tag → Expr → Expr → Result TypeError Expr
unfolding ensure_compatible_convert_void_ptr
compared_pointers op l r = do
  (l', r') ← ensure_compatible_convert_void_ptr l r
  ok (binary op l' r' int_type)

unfoldable pub compared_numbers : Tag → Expr → Expr → Result TypeError Expr
compared_numbers op l r = do (l', r', t) ← convert l r; ok (binary op l' r' int_type)

-- A pointer is compared with the constant zero.
unfoldable pub compared_with_zero : Tag → Expr → Expr → Result TypeError Expr
compared_with_zero op pointer zero =
    if not (is_zero zero)
    then err pointer_and_zero
    else (do z ← may_cast_to zero (qual (ty_of pointer) 0); ok (binary op pointer z int_type))

unfoldable pub equality_op_check : Tag → Expr → Expr → Result TypeError Expr
unfolding compared_pointers compared_numbers compared_with_zero
equality_op_check op l r =
    if is_pointer (ty_of l) && is_pointer (ty_of r)
    then compared_pointers op l r
    else if is_arithmetic (ty_of l) && is_arithmetic (ty_of r)
    then compared_numbers op l r
    else if is_pointer (ty_of l) && is_integer (ty_of r)
    then compared_with_zero op l r
    else if is_integer (ty_of l) && is_pointer (ty_of r)
    then compared_with_zero op r l
    else err pointer_or_arithmetic_expected

unfoldable pub relational_op_check : Tag → Expr → Expr → Result TypeError Expr
unfolding compared_pointers compared_numbers
relational_op_check op l r =
    if is_pointer (ty_of l) && is_pointer (ty_of r)
    then compared_pointers op l r
    else if is_real (ty_of l) && is_real (ty_of r)
    then compared_numbers op l r
    else err pointer_or_real_expected

-- `BinaryOpExpr::Check`.
unfoldable pub binary_check : Tag → Expr → Expr → Result TypeError Expr
unfolding assign_op_check add_op_check sub_op_check multi_op_check bitwise_op_check shift_op_check
    logical_op_check equality_op_check relational_op_check
binary_check Tag.equal l r = assign_op_check Tag.equal l r
binary_check Tag.plus l r = add_op_check Tag.plus l r
binary_check Tag.minus l r = sub_op_check Tag.minus l r
binary_check Tag.star l r = multi_op_check Tag.star l r
binary_check Tag.percent l r = multi_op_check Tag.percent l r
binary_check Tag.slash l r = multi_op_check Tag.slash l r
binary_check Tag.amp l r = bitwise_op_check Tag.amp l r
binary_check Tag.pipe l r = bitwise_op_check Tag.pipe l r
binary_check Tag.caret l r = bitwise_op_check Tag.caret l r
binary_check Tag.less_less l r = shift_op_check Tag.less_less l r
binary_check Tag.greater_greater l r = shift_op_check Tag.greater_greater l r
binary_check Tag.amp_amp l r = logical_op_check Tag.amp_amp l r
binary_check Tag.pipe_pipe l r = logical_op_check Tag.pipe_pipe l r
binary_check Tag.exclaim_equal l r = equality_op_check Tag.exclaim_equal l r
binary_check Tag.equal_equal l r = equality_op_check Tag.equal_equal l r
binary_check Tag.less l r = relational_op_check Tag.less l r
binary_check Tag.less_equal l r = relational_op_check Tag.less_equal l r
binary_check Tag.greater l r = relational_op_check Tag.greater l r
binary_check Tag.greater_equal l r = relational_op_check Tag.greater_equal l r
binary_check Tag.period l r = ok (binary Tag.period l r (type_of r))
binary_check Tag.comma l r = ok (binary Tag.comma l r (type_of r))
binary_check _ l r = err assertion

-- `BinaryOpExpr::BinaryOpExpr` and `Check`: the operands decay, but for `.`.
unfoldable pub make_binary : Tag → Expr → Expr → Result TypeError Expr
unfolding binary_check
make_binary Tag.period l r = binary_check Tag.period l r
make_binary op l r = do l' ← decay l; r' ← decay r; binary_check op l' r'
