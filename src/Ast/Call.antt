-- ===== src/Ast/Call.antt =====
-- `FuncCallExpr` of src/ast.cpp.
use kcc.Ast.Expr.{
  Expr, call, Args, no_args, arg, type_of, ty_of, may_cast_to, promoted, TypeError, not_a_function,
  too_few_arguments, too_many_arguments,
}
use kcc.Ast.Kinds.{is_pointer, is_integer}
use kcc.Ast.Unary.{make_unary}
use kcc.Prelude.{Bool, false, not, if◌then◌else◌, ◌==◌}
use kcc.Prelude.Results.{Result, ok, err, ◌>>=◌}
use kcc.Token.{Tag}
use kcc.Ty.Arithmetic.{ArithmeticType, type_spec}
use kcc.Ty.CType.{Ty, qual, get_type, get_type_qual, Params, nil, cons}
use kcc.Ty.Spec.{k_float}

-- `Type::IsFloatTy`.
abbrev pub is_float : Ty → Bool
is_float (Ty.arithmetic a) = type_spec a == k_float
is_float _ = false

-- The default promotions of one argument behind the parameters.
unfoldable pub promote_argument : Expr → Result TypeError Expr
promote_argument e =
    if is_float (ty_of e)
    then may_cast_to e (qual (Ty.arithmetic ArithmeticType.double) (get_type_qual (type_of e)))
    else if is_integer (ty_of e)
    then (do t ← promoted (ty_of e); may_cast_to e (qual t (get_type_qual (type_of e))))
    else ok e

unfoldable pub promote_arguments : Args → Result TypeError Args
promote_arguments no_args = ok no_args
promote_arguments (arg e es) = do
  e' ← promote_argument e
  es' ← promote_arguments es
  ok (arg e' es')

-- The two loops over the arguments: the parameters, then what is left.
unfoldable pub match_arguments : Params → Bool → Args → Result TypeError Args
unfolding promote_argument promote_arguments
match_arguments nil var_args no_args = ok no_args
match_arguments nil var_args (arg e es) =
    if not var_args then err too_many_arguments else promote_arguments (arg e es)
match_arguments (cons p ps) var_args no_args = err too_few_arguments
match_arguments (cons p ps) var_args (arg e es) = do
  e' ← may_cast_to e (qual (get_type p) 0)
  es' ← match_arguments ps var_args es
  ok (arg e' es')

unfoldable pub call_function : Expr → Args → Ty → Result TypeError Expr
unfolding match_arguments
call_function f args (Ty.function r ps v) = do
  args' ← match_arguments ps v args
  ok (call f args' r)
call_function f args _ = err not_a_function

-- `FuncCallExpr::FuncCallExpr` and `Check`: a pointer is dereferenced first.
unfoldable pub make_call : Expr → Args → Result TypeError Expr
unfolding call_function
make_call f args = do
  f' ← (if is_pointer (ty_of f) then make_unary Tag.star f else ok f)
  call_function f' args (ty_of f')
