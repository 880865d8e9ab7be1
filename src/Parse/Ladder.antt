-- ===== src/Parse/Ladder.antt =====
-- The operators of src/parse_expr.cpp, from `ParseLogicalOrExpr` up to `ParseExpr`, and the ten levels
-- of binary operators.
--
-- `ParseCastExpr` is a parameter here. The functions that call one another again run on fuel.
use kcc.Ast.Binary.{make_binary}
use kcc.Ast.Condition.{make_condition}
use kcc.Ast.Expr.{Expr}
use kcc.Prelude.{ℕ, zero, suc, List, Option, none, some, if◌then◌else◌}
use kcc.Prelude.Results.{Result, ok, err, ◌>>=◌}
use kcc.Token.{Tag, Token}
use kcc.Parse.Levels.{
  ParseError, Parsed, additive, binary_level, equality, expect_colon, is_amp, is_amp_amp, is_caret,
  is_colon, is_comma, is_pipe, is_pipe_pipe, is_question, multiplicative, node, out_of_fuel,
  peek_tag, relation, rest, shift, skip_extension,
}

-- The operators of assignment: `=`, or the operator of a compound assignment.
pub data AssignOp : Type 0 where
  simple : AssignOp
  compound : Tag → AssignOp

abbrev pub assign_operator : Tag → Option AssignOp
assign_operator Tag.equal = some simple
assign_operator Tag.star_equal = some (compound Tag.star)
assign_operator Tag.slash_equal = some (compound Tag.slash)
assign_operator Tag.percent_equal = some (compound Tag.percent)
assign_operator Tag.plus_equal = some (compound Tag.plus)
assign_operator Tag.minus_equal = some (compound Tag.minus)
assign_operator Tag.less_less_equal = some (compound Tag.less_less)
assign_operator Tag.greater_greater_equal = some (compound Tag.greater_greater)
assign_operator Tag.amp_equal = some (compound Tag.amp)
assign_operator Tag.caret_equal = some (compound Tag.caret)
assign_operator Tag.pipe_equal = some (compound Tag.pipe)
assign_operator _ = none

-- The nodes of an assignment: `a += b` is `a = a + b`, with the node `a` twice.
unfoldable pub assign_node : AssignOp → Expr → Expr → Result ParseError Expr
assign_node simple lhs rhs = node (make_binary Tag.equal lhs rhs)
assign_node (compound op) lhs rhs = do
  r ← node (make_binary op lhs rhs)
  node (make_binary Tag.equal lhs r)

module _ (parse_cast_expr : List Token → Parsed) where
  unfoldable pub parse_multiplicative_expr : List Token → Parsed
  unfolding binary_level
  parse_multiplicative_expr = binary_level multiplicative parse_cast_expr

  unfoldable pub parse_additive_expr : List Token → Parsed
  unfolding parse_multiplicative_expr
  parse_additive_expr = binary_level additive parse_multiplicative_expr

  unfoldable pub parse_shift_expr : List Token → Parsed
  unfolding parse_additive_expr
  parse_shift_expr = binary_level shift parse_additive_expr

  unfoldable pub parse_relation_expr : List Token → Parsed
  unfolding parse_shift_expr
  parse_relation_expr = binary_level relation parse_shift_expr

  unfoldable pub parse_equality_expr : List Token → Parsed
  unfolding parse_relation_expr
  parse_equality_expr = binary_level equality parse_relation_expr

  unfoldable pub parse_and_expr : List Token → Parsed
  unfolding parse_equality_expr
  parse_and_expr = binary_level is_amp parse_equality_expr

  unfoldable pub parse_exclusive_or_expr : List Token → Parsed
  unfolding parse_and_expr
  parse_exclusive_or_expr = binary_level is_caret parse_and_expr

  unfoldable pub parse_inclusive_or_expr : List Token → Parsed
  unfolding parse_exclusive_or_expr
  parse_inclusive_or_expr = binary_level is_pipe parse_exclusive_or_expr

  unfoldable pub parse_logical_and_expr : List Token → Parsed
  unfolding parse_inclusive_or_expr
  parse_logical_and_expr = binary_level is_amp_amp parse_inclusive_or_expr

  unfoldable pub parse_logical_or_expr : List Token → Parsed
  unfolding parse_logical_and_expr
  parse_logical_or_expr = binary_level is_pipe_pipe parse_logical_and_expr

  unfoldable mutual
    unfolding parse_logical_or_expr assign_node

    pub parse_condition_expr : ℕ → List Token → Parsed
    parse_condition_expr zero ts = err out_of_fuel
    parse_condition_expr (suc n) ts = do
      (cond, ts1) ← parse_logical_or_expr ts
      if is_question (peek_tag ts1)
          then (do
            (lhs, ts2) ←
                (if is_colon (peek_tag (rest ts1))
                  then ok (cond, rest ts1)
                  else parse_expr n (rest ts1))
            ts3 ← expect_colon ts2
            (rhs, ts4) ← parse_condition_expr n ts3
            e ← node (make_condition cond lhs rhs)
            ok (e, ts4))
          else ok (cond, ts1)

    pub parse_assign_expr : ℕ → List Token → Parsed
    parse_assign_expr zero ts = err out_of_fuel
    parse_assign_expr (suc n) ts = do
      (lhs, ts1) ← parse_condition_expr n (skip_extension ts)
      elim (assign_operator (peek_tag ts1)) [
        | none ↦ ok (lhs, ts1)
        | some op ↦ (do
          (rhs, ts2) ← parse_assign_expr n (rest ts1)
          e ← assign_node op lhs rhs
          ok (e, ts2))
      ]

    pub parse_expr : ℕ → List Token → Parsed
    parse_expr zero ts = err out_of_fuel
    parse_expr (suc n) ts = do
      (lhs, ts1) ← parse_assign_expr n (skip_extension ts)
      comma_loop n lhs ts1

    pub comma_loop : ℕ → Expr → List Token → Parsed
    comma_loop zero lhs ts = err out_of_fuel
    comma_loop (suc n) lhs ts =
        if is_comma (peek_tag ts)
        then (do
          (rhs, ts1) ← parse_assign_expr n (rest ts)
          e ← node (make_binary Tag.comma lhs rhs)
          comma_loop n e ts1)
        else ok (lhs, ts)
