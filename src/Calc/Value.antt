-- ===== src/Calc/Value.antt =====
-- The values that the C standard gives the integer constant expressions of kcc.Ast.Expr: integers,
-- computed in the type of the node, `none` where the standard leaves the result undefined. An
-- operand of `&&`, `||` or `?:` that is not evaluated has no part in it.
--
-- Not among them are expressions of a floating or pointer type, and constants of type `_Bool`, which
-- the lexical grammar does not have.
use kcc.Ast.Expr.{Expr}
use kcc.Calc.Llvm.{floor_shift}
use kcc.Calc.Word.{encode, read, fits}
use kcc.Prelude.{
  ℕ, ◌%◌, ◌^◌, Bool, true, false, not, ◌&&◌, ◌||◌, Option, none, some, ltb, if◌then◌else◌, bit_and,
  bit_or,
}
use Prim.Native.Nat.{bit_xor}
use kcc.Prelude.Int.{ℤ, pos, negsuc, ◌+ℤ◌, ◌-ℤ◌, ◌*ℤ◌, ltb_ℤ, ◌==ℤ◌, quot, rem}
use kcc.Prelude.Options.{◌>>=◌}
use kcc.Token.{Tag}
use kcc.Ty.Arithmetic.{ArithmeticType}
use kcc.Ty.Conversion.{Sign, signed, unsigned, Kind, integer, floating, kind}
use kcc.Ty.CType.{Ty, get_type}

abbrev sign_of_kind : Kind → Sign
sign_of_kind (integer s r w) = s
sign_of_kind (floating f) = signed

abbrev bits_of_kind : Kind → ℕ
bits_of_kind (integer s r w) = w
bits_of_kind (floating f) = 0

abbrev is_integer_kind : Kind → Bool
is_integer_kind (integer s r w) = true
is_integer_kind (floating f) = false

-- The sign and the bits of an integer type, and whether it is one; `_Bool` is.
abbrev pub sign : ArithmeticType → Sign
sign a = sign_of_kind (kind a)

abbrev pub bits : ArithmeticType → ℕ
bits a = bits_of_kind (kind a)

abbrev pub is_whole : ArithmeticType → Bool
is_whole a = is_integer_kind (kind a)

-- `_Bool`, alone, has one bit.
abbrev pub is_truth : ArithmeticType → Bool
is_truth ArithmeticType.bool = true
is_truth _ = false

-- The type of an expression that has a value.
abbrev pub whole : Ty → Option ArithmeticType
whole (Ty.arithmetic a) = if is_whole a then some a else none
whole _ = none

abbrev pub truth : Bool → ℤ
truth true = pos 1
truth false = pos 0

-- 6.2.5: the result of an operation in a type. Those of unsigned types are reduced, those of signed
-- types have to fit.
unfoldable pub in_word : Sign → ℕ → ℤ → Option ℤ
in_word unsigned w z = some (read unsigned w (encode w z))
in_word signed w z = if fits signed w z then some z else none

-- 6.3.1.2 and 6.3.1.3: the value that fits behind a conversion, reduced for signed types too, as the
-- compilers define it.
unfoldable pub converted : ArithmeticType → ℤ → ℤ
converted a z =
    if is_truth a then truth (not (z ==ℤ pos 0)) else read (sign a) (bits a) (encode (bits a) z)

-- 6.5.7: shifts by less than the width. To the left, negative numbers have no value.
abbrev pub left : Sign → ℕ → ℤ → ℕ → Option ℤ
left s w (pos n) k = in_word s w (pos n *ℤ pos (2 ^ k))
left s w (negsuc n) k = none

abbrev pub shift : (ℤ → ℕ → Option ℤ) → ℕ → ℤ → ℤ → Option ℤ
shift f w x (pos k) = if ltb k w then f x k else none
shift f w x (negsuc k) = none

-- Two patterns, joined bit by bit.
abbrev bitwise : (ℕ → ℕ → ℕ) → Sign → ℕ → ℤ → ℤ → ℤ
bitwise f s w x y = read s w (f (encode w x) (encode w y) % 2 ^ w)

-- 6.5.5, 6.5.6, 6.5.7, 6.5.10 to 6.5.12: the operators whose result has the type of the operands.
unfoldable pub arithmetic_value : Tag → Sign → ℕ → ℤ → ℤ → Option ℤ
unfolding in_word
arithmetic_value Tag.plus s w x y = in_word s w (x +ℤ y)
arithmetic_value Tag.minus s w x y = in_word s w (x -ℤ y)
arithmetic_value Tag.star s w x y = in_word s w (x *ℤ y)
arithmetic_value Tag.slash s w x y = if y ==ℤ pos 0 then none else in_word s w (quot x y)
arithmetic_value Tag.percent s w x y =
    if y ==ℤ pos 0 then none else if fits s w (quot x y) then in_word s w (rem x y) else none
arithmetic_value Tag.amp s w x y = some (bitwise bit_and s w x y)
arithmetic_value Tag.pipe s w x y = some (bitwise bit_or s w x y)
arithmetic_value Tag.caret s w x y = some (bitwise bit_xor s w x y)
arithmetic_value Tag.less_less s w x y = shift (left s w) w x y
arithmetic_value Tag.greater_greater s w x y = shift (λ x k. in_word s w (floor_shift x k)) w x y
arithmetic_value _ s w x y = none

-- 6.5.8, 6.5.9, 6.5.13, 6.5.14: the operators that give 0 or 1.
unfoldable pub truth_value : Tag → ℤ → ℤ → Option Bool
truth_value Tag.less x y = some (ltb_ℤ x y)
truth_value Tag.greater x y = some (ltb_ℤ y x)
truth_value Tag.less_equal x y = some (not (ltb_ℤ y x))
truth_value Tag.greater_equal x y = some (not (ltb_ℤ x y))
truth_value Tag.equal_equal x y = some (x ==ℤ y)
truth_value Tag.exclaim_equal x y = some (not (x ==ℤ y))
truth_value Tag.amp_amp x y = some (not (x ==ℤ pos 0) && not (y ==ℤ pos 0))
truth_value Tag.pipe_pipe x y = some (not (x ==ℤ pos 0) || not (y ==ℤ pos 0))
truth_value _ x y = none

abbrev pub arithmetic_in : Tag → Option ArithmeticType → ℤ → ℤ → Option ℤ
arithmetic_in op none x y = none
arithmetic_in op (some a) x y = arithmetic_value op (sign a) (bits a) x y

unfoldable pub binary_value : Tag → Ty → ℤ → ℤ → Option ℤ
unfolding arithmetic_value truth_value
binary_value op t x y = elim (truth_value op x y) [
  | some b ↦ some (truth b)
  | none ↦ arithmetic_in op (whole t) x y
]

-- 6.5.13 and 6.5.14: what the left operand alone decides.
abbrev pub decided : Tag → ℤ → Option ℤ
decided Tag.amp_amp x = if x ==ℤ pos 0 then some (truth false) else none
decided Tag.pipe_pipe x = if x ==ℤ pos 0 then none else some (truth true)
decided _ x = none

unfoldable pub operator_value : Tag → Ty → ℤ → Option ℤ → Option ℤ
unfolding binary_value
operator_value op t x right = elim (decided op x) [
  | some z ↦ some z
  | none ↦ right >>= λ y. binary_value op t x y
]

-- 6.5.3.3, in the type of the node.
abbrev pub complement : ℤ → ℤ
complement (pos n) = negsuc n
complement (negsuc n) = pos n

abbrev pub unary_in : Tag → Option ArithmeticType → ℤ → Option ℤ
unary_in op none x = none
unary_in Tag.plus (some a) x = some x
unary_in Tag.minus (some a) x = in_word (sign a) (bits a) (pos 0 -ℤ x)
unary_in Tag.tilde (some a) x = in_word (sign a) (bits a) (complement x)
unary_in Tag.exclaim (some a) x = some (truth (x ==ℤ pos 0))
unary_in _ (some a) x = none

unfoldable pub unary_value : Tag → Ty → ℤ → Option ℤ
unfolding in_word
unary_value op t x = unary_in op (whole t) x

unfoldable pub cast_value : Ty → ℤ → Option ℤ
unfolding converted
cast_value t x = whole t >>= λ a. some (converted a x)

unfoldable pub constant_value : ArithmeticType → ℕ → Option ℤ
constant_value a v =
    if is_whole a && not (is_truth a) then some (read (sign a) (bits a) (v % 2 ^ bits a)) else none

unfoldable pub value : Expr → Option ℤ
unfolding constant_value unary_value cast_value operator_value
value (Expr.constant a v) = constant_value a v
value (Expr.enumerator n v) = some (read signed 32 (v % 2 ^ 32))
value (Expr.unary op e t) = do x ← value e; unary_value op (get_type t) x
value (Expr.cast e t) = do x ← value e; cast_value (get_type t) x
value (Expr.binary op l r t) = do
  let right = value r
  x ← value l
  operator_value op (get_type t) x right
value (Expr.condition c l r t) = do
  let left = value l
  let right = value r
  x ← value c
  if x ==ℤ pos 0 then right else left
value _ = none
