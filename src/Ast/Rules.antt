-- ===== src/Ast/Rules.antt =====
-- The typing rules that the nodes of an expression follow behind the checks of src/ast.cpp, as the
-- code generator relies on them: the operands of an arithmetic operator have one type.
use kcc.Ast.Expr.{Expr, Args, type_of, ty_of, is_lvalue, is_const}
use kcc.Ast.Kinds.{
  is_pointer, is_float_point, is_arithmetic, is_integer, is_integer_or_bool, is_real, is_scalar,
  is_function, is_void, is_struct_or_union,
}
use kcc.Prelude.{ℕ, Bool, true, false, not, ltb, ◌==◌, ◌&&◌, ◌||◌, ◌≡◌, ◌⊎◌, Bytes}
use kcc.Token.{Tag}
use kcc.Ty.Arithmetic.{ArithmeticType, is_integer_ty, rank, type_spec}
use kcc.Ty.CType.{Ty, QualType, qual, get_type, Params, nil, cons}
use kcc.Ty.Spec.{k_float}
use kcc.Ty.Equal.{equal, compatible}

-- The operators of each rule.
abbrev pub arithmetic_op : Tag → Bool
arithmetic_op Tag.plus = true
arithmetic_op Tag.minus = true
arithmetic_op Tag.star = true
arithmetic_op Tag.slash = true
arithmetic_op _ = false

abbrev pub integer_op : Tag → Bool
integer_op Tag.percent = true
integer_op Tag.amp = true
integer_op Tag.pipe = true
integer_op Tag.caret = true
integer_op Tag.less_less = true
integer_op Tag.greater_greater = true
integer_op _ = false

abbrev pub additive_op : Tag → Bool
additive_op Tag.plus = true
additive_op Tag.minus = true
additive_op _ = false

abbrev pub logical_op : Tag → Bool
logical_op Tag.amp_amp = true
logical_op Tag.pipe_pipe = true
logical_op _ = false

abbrev pub equality_op : Tag → Bool
equality_op Tag.equal_equal = true
equality_op Tag.exclaim_equal = true
equality_op _ = false

abbrev pub comparison_op : Tag → Bool
comparison_op Tag.less = true
comparison_op Tag.less_equal = true
comparison_op Tag.greater = true
comparison_op Tag.greater_equal = true
comparison_op op = equality_op op

-- `BinaryRule op l r t`: operands of the types `l` and `r` give the type `t`.
pub data BinaryRule (op : Tag) : Ty → Ty → Ty → Type 0 where
  numbers :
      {a : ArithmeticType}
      → arithmetic_op op ≡ true
      → BinaryRule op (Ty.arithmetic a) (Ty.arithmetic a) (Ty.arithmetic a)
  integers :
      {a : ArithmeticType}
      → integer_op op ≡ true
      → is_integer_or_bool (Ty.arithmetic a) ≡ true
      → BinaryRule op (Ty.arithmetic a) (Ty.arithmetic a) (Ty.arithmetic a)
  offset :
      {l : Ty}
      → additive_op op ≡ true
      → is_pointer l ≡ true
      → BinaryRule op l (Ty.arithmetic ArithmeticType.ulong) l
  difference :
      {l r : Ty}
      → op ≡ Tag.minus
      → is_pointer l ≡ true
      → compatible l r ≡ true
      → BinaryRule op l r (Ty.arithmetic ArithmeticType.long)
  logical :
      {l r : Ty}
      → logical_op op ≡ true
      → is_scalar l ≡ true
      → is_scalar r ≡ true
      → BinaryRule op l r (Ty.arithmetic ArithmeticType.int)
  compared_numbers :
      {a : ArithmeticType}
      → comparison_op op ≡ true
      → BinaryRule op (Ty.arithmetic a) (Ty.arithmetic a) (Ty.arithmetic ArithmeticType.int)
  compared_pointers :
      {l r : Ty}
      → comparison_op op ≡ true
      → is_pointer l ≡ true
      → compatible l r ≡ true
      → BinaryRule op l r (Ty.arithmetic ArithmeticType.int)
  assigned : {l r : Ty} → op ≡ Tag.equal → equal r l ≡ true → BinaryRule op l r l
  last_operand : {l r : Ty} → (op ≡ Tag.period) ⊎ (op ≡ Tag.comma) → BinaryRule op l r r

-- What an operator asks of its operand besides the type.
abbrev pub Modified : Expr → Type 0
Modified e = (is_const e ≡ false) × (is_lvalue e ≡ true)

-- An assignment modifies its left operand.
abbrev pub LeftOperand : Tag → Expr → Type 0
LeftOperand op l = op ≡ Tag.equal → Modified l

abbrev pub inc_dec_op : Tag → Bool
inc_dec_op Tag.plus_plus = true
inc_dec_op Tag.minus_minus = true
inc_dec_op Tag.postfix_plus_plus = true
inc_dec_op Tag.postfix_minus_minus = true
inc_dec_op _ = false

abbrev pub sign_op : Tag → Bool
sign_op Tag.plus = true
sign_op Tag.minus = true
sign_op _ = false

-- `UnaryRule op e t`: the operand `e` gives the type `t`.
pub data UnaryRule (op : Tag) (e : Expr) : QualType → Type 0 where
  modified :
      inc_dec_op op ≡ true
      → Modified e
      → (is_real (ty_of e) || is_pointer (ty_of e)) ≡ true
      → UnaryRule op e (type_of e)
  signed : sign_op op ≡ true → is_arithmetic (ty_of e) ≡ true → UnaryRule op e (type_of e)
  complement : op ≡ Tag.tilde → is_integer (ty_of e) ≡ true → UnaryRule op e (type_of e)
  negated :
      op ≡ Tag.exclaim
      → is_scalar (ty_of e) ≡ true
      → UnaryRule op e (qual (Ty.arithmetic ArithmeticType.int) 0)
  dereferenced : {t : QualType} → op ≡ Tag.star → ty_of e ≡ Ty.pointer t → UnaryRule op e t
  addressed :
      op ≡ Tag.amp
      → (is_function (ty_of e) || is_lvalue e) ≡ true
      → UnaryRule op e (qual (Ty.pointer (type_of e)) 0)

-- A cast is not between a pointer and a floating type.
abbrev pub castable : Ty → Ty → Bool
castable from to =
    not (is_float_point to && is_pointer from || is_pointer to && is_float_point from)

-- `ConditionRule l r t`: the second and third operand give the type `t`.
pub data ConditionRule : Ty → Ty → Ty → Type 0 where
  numbers :
      {a : ArithmeticType} → ConditionRule (Ty.arithmetic a) (Ty.arithmetic a) (Ty.arithmetic a)
  structs : {l r : Ty} → is_struct_or_union l ≡ true → equal l r ≡ true → ConditionRule l r l
  pointers :
      {l r t : Ty}
      → is_pointer l ≡ true
      → is_pointer r ≡ true
      → (t ≡ l) ⊎ (t ≡ r)
      → ConditionRule l r t
  voids : {l r : Ty} → is_void l ≡ true → is_void r ≡ true → ConditionRule l r Ty.void

-- The type of an argument behind the default promotions; those of `_Bool` are left as they are.
abbrev pub default_promoted : Ty → Bool
default_promoted (Ty.arithmetic a) =
    not (type_spec a == k_float) && not (is_integer_ty a && ltb (rank a) (rank ArithmeticType.int))
default_promoted _ = true

-- The arguments of a call fit the parameters, and what is left of them is promoted.
pub data Fits : Params → Bool → Args → Type 0 where
  no_more : {v : Bool} → Fits nil v Args.no_args
  variable :
      {e : Expr} {es : Args}
      → default_promoted (ty_of e) ≡ true
      → Fits nil true es
      → Fits nil true (Args.arg e es)
  next :
      {p : QualType} {ps : Params} {v : Bool} {e : Expr} {es : Args}
      → equal (ty_of e) (get_type p) ≡ true
      → Fits ps v es
      → Fits (cons p ps) v (Args.arg e es)

-- `CallRule f args t`: `f` is a function whose parameters the arguments fit, and gives the type `t`.
pub data CallRule (f : Ty) (args : Args) (t : QualType) : Type 0 where
  called : {ps : Params} {v : Bool} → f ≡ Ty.function t ps v → Fits ps v args → CallRule f args t

mutual
  -- Every node follows its rule.
  pub data Typed : Expr → Type 0 where
    constant : {a : ArithmeticType} {v : ℕ} → Typed (Expr.constant a v)
    floating : {a : ArithmeticType} {s : Bytes} → Typed (Expr.floating a s)
    string : {t : QualType} {s : Bytes} → Typed (Expr.string t s)
    enumerator : {n : Bytes} {v : ℕ} → Typed (Expr.enumerator n v)
    identifier : {n : Bytes} {t : QualType} → Typed (Expr.identifier n t)
    object : {n : Bytes} {t : QualType} → Typed (Expr.object n t)
    unary :
        {op : Tag} {e : Expr} {t : QualType}
        → Typed e
        → UnaryRule op e t
        → Typed (Expr.unary op e t)
    cast :
        {e : Expr} {t : QualType}
        → Typed e
        → castable (ty_of e) (get_type t) ≡ true
        → Typed (Expr.cast e t)
    binary :
        {op : Tag} {l r : Expr} {t : QualType}
        → Typed l
        → Typed r
        → LeftOperand op l
        → BinaryRule op (ty_of l) (ty_of r) (get_type t)
        → Typed (Expr.binary op l r t)
    condition :
        {c l r : Expr} {t : QualType}
        → Typed c
        → Typed l
        → Typed r
        → is_scalar (ty_of c) ≡ true
        → ConditionRule (ty_of l) (ty_of r) (get_type t)
        → Typed (Expr.condition c l r t)
    call :
        {f : Expr} {args : Args} {t : QualType}
        → Typed f
        → TypedArgs args
        → CallRule (ty_of f) args t
        → Typed (Expr.call f args t)

  pub data TypedArgs : Args → Type 0 where
    no_args : TypedArgs Args.no_args
    arg : {e : Expr} {es : Args} → Typed e → TypedArgs es → TypedArgs (Args.arg e es)

-- `Coerced e d`: `d` is `e` under implicit conversions.
pub data Coerced (e : Expr) : Expr → Type 0 where
  unchanged : Coerced e e
  converted : {d : Expr} {t : QualType} → Coerced e d → Coerced e (Expr.cast d t)
