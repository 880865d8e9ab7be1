-- ===== src/Ast/Expr.antt =====
-- `Expr` and its classes (src/ast.h, src/ast.cpp), with the conversions that all checks share.
--
-- A class is a constructor of `Expr`; the type that `Check` computes is its last argument.
-- `MakeAstNode` calls the constructor of the class and then `Check`: both are one function here,
-- whose name begins with `make`. Source locations are left out.
use kcc.Prelude.{
  ℕ, ◌*◌, ◌%◌, ◌^◌, Bool, true, false, not, ◌&&◌, Option, none, some, Bytes, if◌then◌else◌, ◌==◌,
}
use kcc.Prelude.Results.{Result, ok, err, ◌>>=◌}
use kcc.Token.{Tag}
use kcc.Ast.Kinds.{is_pointer, is_float_point}
use kcc.Ty.Arithmetic.{ArithmeticType, is_integer_ty, max_type, arithmetic_width, integer_promote}
use kcc.Ty.CType.{Ty, QualType, qual, get_type, get_type_qual, may_cast}
use kcc.Ty.Equal.{equal, compatible}
use kcc.Ty.Spec.{has}

mutual
  pub data Expr : Type 0 where
    constant : ArithmeticType → ℕ → Expr
    floating : ArithmeticType → Bytes → Expr
    string : QualType → Bytes → Expr
    enumerator : Bytes → ℕ → Expr
    identifier : Bytes → QualType → Expr
    object : Bytes → QualType → Expr
    unary : Tag → Expr → QualType → Expr
    cast : Expr → QualType → Expr
    binary : Tag → Expr → Expr → QualType → Expr
    condition : Expr → Expr → Expr → QualType → Expr
    call : Expr → Args → QualType → Expr

  -- The arguments of a call.
  pub data Args : Type 0 where
    no_args : Args
    arg : Expr → Args → Args

-- The calls of `Error`, and failed assertions.
pub data TypeError : Type 0 where
  assign_to_const lvalue_expected real_or_pointer_expected arithmetic_expected : TypeError
  integer_expected scalar_expected pointer_expected lvalue_or_function_expected : TypeError
  pointer_to_float float_to_pointer pointer_and_zero incompatible : TypeError
  integer_or_pointer_expected pointer_or_arithmetic_expected pointer_or_real_expected : TypeError
  not_allowed different_structs not_a_function too_few_arguments too_many_arguments : TypeError
  assertion : TypeError

-- `Expr::GetQualType`.
abbrev pub type_of : Expr → QualType
type_of (constant a v) = qual (Ty.arithmetic a) 0
type_of (floating a s) = qual (Ty.arithmetic a) 0
type_of (string t s) = t
type_of (enumerator n v) = qual (Ty.arithmetic ArithmeticType.int) 0
type_of (identifier n t) = t
type_of (object n t) = t
type_of (unary op e t) = t
type_of (cast e t) = t
type_of (binary op l r t) = t
type_of (condition c l r t) = t
type_of (call f args t) = t

-- `Expr::GetType`.
abbrev pub ty_of : Expr → Ty
ty_of e = get_type (type_of e)

abbrev is_star : Tag → Bool
is_star Tag.star = true
is_star _ = false

abbrev pub is_period : Tag → Bool
is_period Tag.period = true
is_period _ = false

-- `IsLValue` of the classes.
unfoldable pub is_lvalue : Expr → Bool
is_lvalue (object n t) = true
is_lvalue (unary op e t) = is_star op
is_lvalue (binary op l r t) = is_period op && is_lvalue l
is_lvalue _ = false

-- `Expr::IsConst`.
abbrev pub is_const : Expr → Bool
is_const e = has (get_type_qual (type_of e)) 0x1

-- The bits of a type's LLVM integer.
abbrev integer_bit_width : ArithmeticType → ℕ
integer_bit_width ArithmeticType.bool = 1
integer_bit_width a = 8 * arithmetic_width a

-- `ConstantExpr::ConstantExpr(type, val)`: the value keeps the bits of its type.
unfoldable pub make_constant : ArithmeticType → ℕ → Expr
make_constant a v = constant a (v % 2 ^ integer_bit_width a)

-- `Expr::IsZero`.
unfoldable pub is_zero : Expr → Bool
is_zero (constant a v) = is_integer_ty a && (v == 0)
is_zero _ = false

-- `TypeCastExpr`, with its `Check`.
unfoldable pub make_cast : Expr → QualType → Result TypeError Expr
make_cast e t =
    if is_float_point (get_type t) && is_pointer (ty_of e)
    then err pointer_to_float
    else if is_pointer (get_type t) && is_float_point (ty_of e)
    then err float_to_pointer
    else ok (cast e t)

abbrev pub decays : Ty → Bool
decays (Ty.array e n) = true
decays (Ty.function r ps v) = true
decays _ = false

-- `Expr::MayCast`. The types are compared by address: decay makes a new type.
unfoldable pub decay : Expr → Result TypeError Expr
decay e = if decays (ty_of e) then make_cast e (may_cast (type_of e)) else ok e

-- `Expr::MayCastTo`.
unfoldable pub may_cast_to : Expr → QualType → Result TypeError Expr
may_cast_to e t = do d ← decay e; if not (equal (ty_of d) (get_type t)) then make_cast d t else ok d

abbrev number_or : Option ArithmeticType → Result TypeError Ty
number_or none = err assertion
number_or (some a) = ok (Ty.arithmetic a)

-- `ArithmeticType::MaxType` and `IntegerPromote`, which assert that their arguments are arithmetic.
unfoldable pub max_of : Ty → Ty → Result TypeError Ty
max_of (Ty.arithmetic a) (Ty.arithmetic b) = number_or (max_type a b)
max_of _ _ = err assertion

unfoldable pub promoted : Ty → Result TypeError Ty
promoted (Ty.arithmetic a) = number_or (integer_promote a)
promoted _ = err assertion

-- `Expr::Convert`: the new operands and their type.
unfoldable pub convert : Expr → Expr → Result TypeError (Expr × Expr × Ty)
convert l r = do
  t ← max_of (ty_of l) (ty_of r)
  l' ← may_cast_to l (qual t 0)
  r' ← may_cast_to r (qual t 0)
  ok (l', r', t)

-- `Expr::EnsureCompatible`.
unfoldable pub ensure_compatible : Ty → Ty → Result TypeError (Unit {0})
ensure_compatible a b = if not (compatible a b) then err incompatible else ok tt
