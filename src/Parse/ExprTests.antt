-- ===== src/Parse/ExprTests.antt =====
-- The parser of expressions at concrete tokens, where a number is the only operand.
use kcc.Ast.Expr.{Expr, constant, binary, condition, unary, cast}
use kcc.Location.{initial_location}
use kcc.Parse.Levels.{other, Parsed}
use kcc.Parse.Unary.{Leaves, parse_whole_expr}
use kcc.Prelude.{◌≡◌, refl, false, List, [], ◌∷◌}
use kcc.Prelude.Results.{ok, err}
use kcc.Token.{Tag, Token}
use kcc.Ty.Arithmetic.{ArithmeticType}
use kcc.Ty.CType.{Ty, QualType, qual}

abbrev token : Tag → Token
token tag = record { tag = tag; str = []; loc = initial_location }

abbrev one : Expr
one = constant ArithmeticType.int 1

abbrev int_type : QualType
int_type = qual (Ty.arithmetic ArithmeticType.int) 0

abbrev number_of : Tag → List Token → Parsed
number_of Tag.integer ts = ok (one, ts)
number_of _ ts = err other

abbrev number : List Token → Parsed
number [] = err other
number (t ∷ ts) = number_of t.tag ts

abbrev leaves : Leaves
leaves = record {
  is_type_name = λ t. false;
  parse_type_name = λ ts. err other;
  parse_compound = λ t ts. err other;
  parse_word = λ w ts. err other;
  parse_postfix_expr = number;
}

abbrev sum : Expr → Expr → Expr
sum l r = binary Tag.plus l r int_type

-- `1 + 1 * 1`.
precedence :
    parse_whole_expr leaves (
      token Tag.integer
      ∷ token Tag.plus
      ∷ token Tag.integer
      ∷ token Tag.star
      ∷ token Tag.integer
      ∷ token Tag.eof
      ∷ [])
    ≡ ok (sum one (binary Tag.star one one int_type), token Tag.eof ∷ [])
unfolding parse_whole_expr kcc.Ast.Binary.make_binary kcc.Ast.Expr.decay
    kcc.Ty.Arithmetic.is_bool_ty kcc.Ty.Arithmetic.is_integer_ty kcc.Ast.Expr.convert
    kcc.Ast.Expr.max_of kcc.Ty.Arithmetic.max_type kcc.Ast.Expr.may_cast_to kcc.Ty.Equal.equal
precedence = refl

abbrev conditional : List Token
conditional =
    token Tag.integer
    ∷ token Tag.question
    ∷ token Tag.colon
    ∷ token Tag.minus
    ∷ token Tag.integer
    ∷ token Tag.plus
    ∷ token Tag.integer
    ∷ token Tag.plus
    ∷ token Tag.integer
    ∷ token Tag.eof
    ∷ []

-- `1 ?: -1 + 1 + 1`.
left_operand_left_out :
    parse_whole_expr leaves conditional
    ≡ ok (
      condition one one (sum (sum (unary Tag.minus one int_type) one) one) int_type,
      token Tag.eof ∷ [],
    )
unfolding parse_whole_expr kcc.Ast.Unary.make_unary kcc.Ast.Expr.decay kcc.Ty.Arithmetic.is_bool_ty
    kcc.Ty.Arithmetic.is_integer_ty kcc.Ast.Expr.promoted kcc.Ty.Arithmetic.integer_promote
    kcc.Ast.Expr.may_cast_to kcc.Ty.Equal.equal kcc.Ty.Arithmetic.arithmetic_equal
    kcc.Ast.Binary.make_binary kcc.Ast.Expr.convert kcc.Ast.Expr.max_of kcc.Ty.Arithmetic.max_type
    kcc.Ast.Condition.make_condition
left_operand_left_out = refl
