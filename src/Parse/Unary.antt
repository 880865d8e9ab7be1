-- ===== src/Parse/Unary.antt =====
-- `ParseCastExpr` and `ParseUnaryExpr` of src/parse_expr.cpp.
use kcc.Ast.Expr.{make_cast}
use kcc.Ast.Unary.{make_unary}
use kcc.Parse.Ladder.{parse_expr}
use kcc.Parse.Levels.{ParseError, expected, out_of_fuel, Parsed, peek_tag, rest, node}
use kcc.Prelude.{
  ℕ, zero, suc, ◌+◌, ◌*◌, ◌&&◌, Bool, true, false, List, [], ◌∷◌, length, if◌then◌else◌,
}
use kcc.Prelude.Results.{Result, ok, err, ◌>>=◌}
use kcc.Token.{Tag, Token}
use kcc.Ty.CType.{QualType}

-- What these functions call: `IsTypeName`, `ParseTypeName`, `ParsePostfixExprTail` of
-- `ParseCompoundLiteral`, the functions of `sizeof`, `_Alignof`, `offsetof` and `typeid`, and
-- `ParsePostfixExpr`.
pub record Leaves : Type 0 where
  pub is_type_name : Token → Bool
  pub parse_type_name : List Token → Result ParseError (QualType × List Token)
  pub parse_compound : QualType → List Token → Parsed
  pub parse_word : Tag → List Token → Parsed
  pub parse_postfix_expr : List Token → Parsed

-- What a tag begins, with the operator's tag.
pub data Prefix : Type 0 where
  over_unary : Tag → Prefix
  over_cast : Tag → Prefix
  word : Tag → Prefix
  postfix : Prefix

abbrev pub prefix_of : Tag → Prefix
prefix_of Tag.plus_plus = over_unary Tag.plus_plus
prefix_of Tag.minus_minus = over_unary Tag.minus_minus
prefix_of Tag.amp = over_cast Tag.amp
prefix_of Tag.star = over_cast Tag.star
prefix_of Tag.plus = over_cast Tag.plus
prefix_of Tag.minus = over_cast Tag.minus
prefix_of Tag.tilde = over_cast Tag.tilde
prefix_of Tag.exclaim = over_cast Tag.exclaim
prefix_of Tag.sizeof = word Tag.sizeof
prefix_of Tag.alignof = word Tag.alignof
prefix_of Tag.offsetof = word Tag.offsetof
prefix_of Tag.typeid = word Tag.typeid
prefix_of _ = postfix

abbrev pub is_left_paren : Tag → Bool
is_left_paren Tag.left_paren = true
is_left_paren _ = false

abbrev pub is_right_paren : Tag → Bool
is_right_paren Tag.right_paren = true
is_right_paren _ = false

abbrev pub is_left_brace : Tag → Bool
is_left_brace Tag.left_brace = true
is_left_brace _ = false

-- `Expect(Tag::kRightParen)`.
abbrev pub expect_right_paren : List Token → Result ParseError (List Token)
expect_right_paren ts =
    if is_right_paren (peek_tag ts) then ok (rest ts) else err (expected Tag.right_paren)

module _ (leaves : Leaves) where
  -- `IsTypeName(Peek())`; the end's token is no type name.
  abbrev pub type_name_next : List Token → Bool
  type_name_next [] = false
  type_name_next (t ∷ ts) = leaves.is_type_name t

  unfoldable mutual
    pub parse_cast_from : ℕ → List Token → Parsed
    parse_cast_from zero ts = err out_of_fuel
    parse_cast_from (suc n) ts =
        if is_left_paren (peek_tag ts) && type_name_next (rest ts)
        then (do
          (type, ts1) ← leaves.parse_type_name (rest ts)
          ts2 ← expect_right_paren ts1
          if is_left_brace (peek_tag ts2)
              then leaves.parse_compound type ts2
              else (do (e, ts3) ← parse_cast_from n ts2; c ← node (make_cast e type); ok (c, ts3)))
        else parse_unary_from n ts

    pub parse_unary_from : ℕ → List Token → Parsed
    parse_unary_from zero ts = err out_of_fuel
    parse_unary_from (suc n) [] = leaves.parse_postfix_expr []
    parse_unary_from (suc n) (t ∷ ts) = elim (prefix_of t.tag) [
      | over_unary op ↦ (do
        (e, ts1) ← parse_unary_from n ts
        u ← node (make_unary op e)
        ok (u, ts1))
      | over_cast op ↦ (do (e, ts1) ← parse_cast_from n ts; u ← node (make_unary op e); ok (u, ts1))
      | word w ↦ leaves.parse_word w ts
      | postfix ↦ leaves.parse_postfix_expr (t ∷ ts)
    ]

  -- `ParseCastExpr`, on fuel for each token.
  unfoldable pub parse_cast_expr : List Token → Parsed
  unfolding parse_cast_from
  parse_cast_expr ts = parse_cast_from (2 * length ts + 2) ts

  -- `ParseExpr` over it.
  unfoldable pub parse_whole_expr : List Token → Parsed
  unfolding parse_cast_expr parse_expr
  parse_whole_expr ts = parse_expr parse_cast_expr (3 * length ts + 3) ts
