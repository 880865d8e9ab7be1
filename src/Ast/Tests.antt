-- ===== src/Ast/Tests.antt =====
-- The checks of src/ast.cpp at concrete expressions.
use kcc.Ast.BinaryTyped.{MakesBinary}
use kcc.Ast.Binary.{make_binary}
use kcc.Ast.Call.{make_call}
use kcc.Ast.CallTyped.{MakesCall, make_call-Makes}
use kcc.Ast.CompareTyped.{make_binary-Makes}
use kcc.Ast.Condition.{make_condition}
use kcc.Ast.ConditionTyped.{MakesCondition, make_condition-Makes}
use kcc.Ast.Expr.{Expr, Args, TypeError}
use kcc.Ast.Rules.{Typed, TypedArgs}
use kcc.Ast.Unary.{make_unary}
use kcc.Ast.UnaryTyped.{MakesUnary, make_unary-Makes}
use kcc.Ast.Usual.{make_binary-usual, Usually, result_of_op}
use kcc.Prelude.{true, ◌≡◌, refl, some, codes, inl}
use kcc.Prelude.Results.{ok, err, Post}
use kcc.Token.{Tag}
use kcc.Ty.Arithmetic.{ArithmeticType}
use kcc.Ty.Conversion.{usual}
use kcc.Ty.CType.{Ty, QualType, qual, Params, nil, cons}

abbrev number : ArithmeticType → QualType
number a = qual (Ty.arithmetic a) 0

-- `char c; int row[4]; unsigned u; double twice(double); bool flag;`
abbrev c : Expr
c = Expr.object (codes "c") (number ArithmeticType.char)

abbrev row : Expr
row = Expr.object (codes "row") (qual (Ty.array (number ArithmeticType.int) (some 4)) 0)

abbrev u : Expr
u = Expr.object (codes "u") (number ArithmeticType.uint)

abbrev twice : Expr
twice = Expr.identifier (codes "twice") (
    qual (Ty.function (number ArithmeticType.double) (cons (number ArithmeticType.double) nil) true)
      0)

abbrev flag : Expr
flag = Expr.object (codes "flag") (number ArithmeticType.bool)

abbrev one : Expr
one = Expr.constant ArithmeticType.int 1

abbrev arguments : Args
arguments = Args.arg c (Args.arg c Args.no_args)

-- `c + u` converts `c` to `unsigned`.
sum :
    make_binary Tag.plus c u
    ≡ ok (
        Expr.binary Tag.plus
          (Expr.cast c (number ArithmeticType.uint))
          u
          (number ArithmeticType.uint))
unfolding make_binary kcc.Ast.Expr.decay kcc.Ty.Arithmetic.is_bool_ty
    kcc.Ty.Arithmetic.is_integer_ty kcc.Ast.Expr.convert kcc.Ast.Expr.max_of
    kcc.Ty.Arithmetic.max_type kcc.Ast.Expr.may_cast_to kcc.Ty.Equal.equal kcc.Ast.Expr.make_cast
sum = refl

-- `1 + row` is `row + 1`, with `row` as a pointer.
offset_of_row :
    make_binary Tag.plus one row
    ≡ ok (
        Expr.binary Tag.plus
          (Expr.cast row (qual (Ty.pointer (number ArithmeticType.int)) 0))
          (Expr.cast one (number ArithmeticType.ulong))
          (qual (Ty.pointer (number ArithmeticType.int)) 0))
unfolding make_binary kcc.Ast.Expr.decay kcc.Ast.Expr.make_cast kcc.Ty.CType.may_cast
    kcc.Ty.Arithmetic.is_bool_ty kcc.Ty.Arithmetic.is_integer_ty kcc.Ast.Expr.may_cast_to
    kcc.Ty.Equal.equal kcc.Ty.Arithmetic.arithmetic_equal
offset_of_row = refl

-- Operands of type `_Bool` are not compared.
flags_compared : make_binary Tag.less flag flag ≡ err TypeError.pointer_or_real_expected
unfolding make_binary kcc.Ast.Expr.decay kcc.Ty.Arithmetic.is_integer_ty
flags_compared = refl

-- The first argument becomes the type of its parameter, the other one is promoted.
called :
    make_call twice arguments
    ≡ ok (
        Expr.call twice
          (Args.arg
            (Expr.cast c (number ArithmeticType.double))
            (Args.arg (Expr.cast c (number ArithmeticType.int)) Args.no_args))
          (number ArithmeticType.double))
unfolding make_call kcc.Ast.Expr.may_cast_to kcc.Ast.Expr.decay kcc.Ty.Equal.equal
    kcc.Ty.Arithmetic.arithmetic_equal kcc.Ast.Expr.make_cast kcc.Ty.Arithmetic.is_float_point_ty
    kcc.Ty.Arithmetic.is_integer_ty kcc.Ast.Expr.promoted kcc.Ty.Arithmetic.integer_promote
called = refl

make_binary-Makes_example : Post (MakesBinary Tag.plus one row) (make_binary Tag.plus one row)
make_binary-Makes_example = make_binary-Makes Tag.plus one row Typed.constant Typed.object

make_unary-Makes_example : Post (MakesUnary Tag.star row) (make_unary Tag.star row)
make_unary-Makes_example = make_unary-Makes Tag.star row Typed.object

make_condition-Makes_example : Post (MakesCondition row c u) (make_condition row c u)
make_condition-Makes_example = make_condition-Makes row c u Typed.object Typed.object Typed.object

make_call-Makes_example : Post (MakesCall twice arguments) (make_call twice arguments)
make_call-Makes_example =
    make_call-Makes twice arguments Typed.identifier
      (TypedArgs.arg Typed.object (TypedArgs.arg Typed.object TypedArgs.no_args))

make_binary-usual_example :
    Usually
      (result_of_op Tag.star)
      Tag.star
      (usual ArithmeticType.char ArithmeticType.uint)
      c
      u
      (make_binary Tag.star c u)
make_binary-usual_example =
    make_binary-usual Tag.star ArithmeticType.char ArithmeticType.uint c u (inl refl) refl refl refl
