-- ===== src/Calc/Tests.antt =====
-- Tests of the evaluation, on an LLVM that knows integer constants.
use kcc.Ast.Expr.{Expr}
use kcc.Calc.Cast.{CalcError}
use kcc.Calc.Eval.{Globals, calc, calc_integer}
use kcc.Calc.Llvm.{
  Llvm, Opcode, UnaryOpcode, CastOpcode, Predicate, fold_binary, fold_unary, compares, bit,
}
use kcc.Calc.Word.{encode, read}
use kcc.Prelude.{
  ℕ, ◌-◌, ◌%◌, ◌^◌, Bool, true, false, ◌&&◌, ◌≡◌, refl, List, [], ◌∷◌, Option, none, some, Bytes,
  ltb, ◌==◌, inr, ◌⊎◌, arith, if◌then◌else◌,
}
use kcc.Prelude.Int.{ℤ, negsuc, ◌==ℤ◌}
use kcc.Prelude.Results.{ok, err}
use kcc.Token.{Tag}
use kcc.Ty.Arithmetic.{ArithmeticType, is_integer_ty}
use kcc.Ty.Conversion.{signed}
use kcc.Ty.CType.{Ty, QualType, qual}

-- Types and constants, of which all but integers are one.
data SomeType : Type 0 where
  integer : ℕ → SomeType
  other : SomeType

data SomeConstant : Type 0 where
  number : ℕ → ℕ → SomeConstant
  unknown : SomeConstant

abbrev number_of : ℕ → Option ℕ → SomeConstant
number_of w none = unknown
number_of w (some v) = number w (v % 2 ^ w)

abbrev truth_of : Option Bool → SomeConstant
truth_of none = unknown
truth_of (some b) = number 1 (bit b)

abbrev bits_of : SomeType → ℕ
bits_of (integer w) = w
bits_of other = 0

abbrev type_of_some : SomeConstant → SomeType
type_of_some (number w v) = integer w
type_of_some unknown = other

abbrev is_integer_type : SomeType → Bool
is_integer_type (integer w) = true
is_integer_type other = false

abbrev make_int : SomeType → ℕ → SomeConstant
make_int (integer w) v = number w (v % 2 ^ w)
make_int other v = unknown

abbrev is_zero : SomeConstant → Bool
is_zero (number w v) = v == 0
is_zero unknown = false

abbrev sext_of : SomeConstant → Option ℕ
sext_of (number w v) = some (encode 64 (read signed w v))
sext_of unknown = none

abbrev unary_of : UnaryOpcode → SomeConstant → SomeConstant
unary_of op (number w a) = number_of w (fold_unary w a op)
unary_of op unknown = unknown

abbrev binary_of : Opcode → SomeConstant → SomeConstant → SomeConstant
binary_of op (number w a) (number v b) = number_of w (fold_binary w a b op)
binary_of op _ _ = unknown

abbrev cast_of : CastOpcode → SomeConstant → SomeType → SomeConstant
cast_of CastOpcode.trunc (number w a) (integer v) = number v (a % 2 ^ v)
cast_of CastOpcode.zext (number w a) (integer v) = number v (a % 2 ^ v)
cast_of CastOpcode.sext (number w a) (integer v) =
    number v (if w == v then a else encode v (read signed w a) % 2 ^ v)
cast_of _ _ _ = unknown

abbrev icmp_of : Predicate → SomeConstant → SomeConstant → SomeConstant
icmp_of p (number w a) (number v b) = truth_of (compares w a b p)
icmp_of p _ _ = unknown

abbrev some_llvm : Llvm
some_llvm = record {
  LlvmType = SomeType;
  Constant = SomeConstant;
  type_of = type_of_some;
  int_type = integer;
  void_type = other;
  float_type = other;
  double_type = other;
  x86_fp80_type = other;
  array_type = λ t n. other;
  struct_type = λ n. other;
  function_type = λ r ps v. other;
  is_integer_ty = is_integer_type;
  is_floating_point_ty = λ t. false;
  is_float_ty = λ t. false;
  is_double_ty = λ t. false;
  is_x86_fp80_ty = λ t. false;
  is_pointer_ty = λ t. false;
  is_array_ty = λ t. false;
  is_aggregate_type = λ t. false;
  is_void_ty = λ t. false;
  same_type = λ t u. false;
  get_integer_bit_width = bits_of;
  get_pointer_element_type = λ t. t;
  get_array_element_type = λ t. t;
  get_pointer_to = λ t. other;
  get_type_alloc_size = λ t. 0;
  get_int = make_int;
  get_fp = λ t s. unknown;
  get_fp_zero = λ t. unknown;
  get_null = λ t. unknown;
  get_aggregate_zero = λ t. unknown;
  is_zero_value = is_zero;
  get_sext_value = sext_of;
  get_unary = unary_of;
  get = binary_of;
  get_cast = cast_of;
  get_icmp = icmp_of;
  get_fcmp = λ p a b. unknown;
  get_element_ptr = λ c is. unknown;
}

equal_widths : (w : ℕ) → (w == w) ≡ true
equal_widths w = ground arith

abbrev int : ℕ → Expr
int v = Expr.constant ArithmeticType.int v

abbrev number_type : ArithmeticType → QualType
number_type a = qual (Ty.arithmetic a) 0

abbrev binary : Tag → ArithmeticType → Expr → Expr → Expr
binary op a l r = Expr.binary op l r (number_type a)

-- `(7 - 10) / 2 < 0 ? (unsigned char)300 : 1 / 0`.
abbrev difference : Expr
difference =
    binary Tag.slash ArithmeticType.int (binary Tag.minus ArithmeticType.int (int 7) (int 10))
      (int 2)

abbrev sample : Expr
sample =
    Expr.condition (binary Tag.less ArithmeticType.int difference (int 0))
      (Expr.cast (Expr.cast (int 300) (number_type ArithmeticType.uchar))
        (number_type ArithmeticType.int))
      (int 1) (number_type ArithmeticType.int)

no_globals : Globals some_llvm
no_globals = record {
  is_static_object = λ n t. false;
  get_global_ptr = λ n t. unknown;
  get_function = λ n t. unknown;
  get_string_ptr = λ t s. unknown;
  member_index = λ n t. 0;
}

-- The value of `4294967295u` is -1, as the sign of the constant is lost.
large_unsigned :
    calc_integer some_llvm no_globals (Expr.constant ArithmeticType.uint 4294967295) true
    ≡ ok (some (2 ^ 64 - 1))
unfolding calc_integer kcc.Ty.Arithmetic.is_integer_ty kcc.Calc.Lower.llvm_type encode read
large_unsigned = refl

-- A constant of type `_Bool` fails an assertion.
truth_constant :
    calc some_llvm no_globals (Expr.constant ArithmeticType.bool 1) ≡ err CalcError.assertion
unfolding calc kcc.Ty.Arithmetic.is_integer_ty
truth_constant = refl
