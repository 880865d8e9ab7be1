-- ===== src/Stmt/Simple.antt =====
-- The statements without statements in them, and the parts of the others (src/parse_stmt.cpp).
use kcc.Ast.Expr.{Expr, integer_expected, ty_of, may_cast_to}
use kcc.Ast.Kinds.{is_integer}
use kcc.Calc.Cast.{CalcError}
use kcc.Parse.Levels.{ParseError, constant_error, no_function, node_error}
use kcc.Prelude.{ℕ, true, false, not, [], ◌∷◌, ◌++◌, Option, none, some, if◌then◌else◌}
use kcc.Prelude.Results.{Result, ok, err, ◌>>=◌}
use kcc.Stmt.State.{
  State, Callees, Asked, test, next, expect, checked, is_decl, peek_name, semicolon, left_paren,
  right_paren, identifier,
}
use kcc.Stmt.Tree.{
  Stmt, Stmts, expr_stmt, goto_stmt, continue_stmt, break_stmt, return_stmt, declaration, stmt,
}
use kcc.Token.{Tag}
use kcc.Ty.CType.{QualType}

-- What the first token begins: the cases of `ParseStmt`.
pub data Start : Type 0 where
  label_or_expr case_word default_word block if_word switch_word while_loop do_loop for_loop : Start
  goto_word continue_word break_word return_word expr_start : Start

abbrev pub start_of : Tag → Start
start_of Tag.identifier = label_or_expr
start_of Tag.case = case_word
start_of Tag.default = default_word
start_of Tag.left_brace = block
start_of Tag.if_tag = if_word
start_of Tag.switch = switch_word
start_of Tag.while = while_loop
start_of Tag.do_tag = do_loop
start_of Tag.for = for_loop
start_of Tag.goto = goto_word
start_of Tag.continue = continue_word
start_of Tag.break = break_word
start_of Tag.return = return_word
start_of _ = expr_start

-- The value of an integer constant expression.
abbrev pub constant_of : Result CalcError (Option ℕ) → Result ParseError ℕ
constant_of (ok (some v)) = ok v
constant_of (ok none) = err constant_error
constant_of (err x) = err constant_error

-- `CompoundStmt::AddStmt`, which leaves out a missing declaration.
abbrev pub add_decl : {D : Type 0} → Option D → Stmts D → Stmts D
add_decl none ss = ss
add_decl (some d) ss = stmt (declaration d) ss

module _ {I D : Type 0} (callees : Callees I D) where
  open callees use {parse_expr, parse_decl, calc_integer}

  abbrev pub Parsed : Type 0 → Type 0
  Parsed A = Result ParseError (A × State I D)

  abbrev pub constant_value : Expr → Result ParseError ℕ
  constant_value e = constant_of (calc_integer e true)

  unfoldable pub parse_int64_constant : State I D → Parsed ℕ
  parse_int64_constant s = do
    (e, s1) ← parse_expr s
    v ← (if not (is_integer (ty_of e)) then err (node_error integer_expected) else constant_value e)
    ok (v, s1)

  -- `'(' expression ')'`.
  unfoldable pub parse_condition : State I D → Parsed Expr
  parse_condition s = do
    s1 ← expect left_paren s
    (c, s2) ← parse_expr s1
    s3 ← expect right_paren s2
    ok (c, s3)

  unfoldable pub parse_expr_stmt : State I D → Parsed (Stmt D)
  parse_expr_stmt s =
      if test semicolon s
      then ok (expr_stmt none, next s)
      else (do (e, s1) ← parse_expr s; s2 ← expect semicolon s1; ok (expr_stmt (some e), s2))

  unfoldable pub parse_goto_stmt : State I D → Parsed (Stmt D)
  unfolding peek_name
  parse_goto_stmt s = do
    let tokens = (next s).tokens
    s1 ← expect identifier (next s)
    s2 ← expect semicolon s1
    name ← peek_name callees.to_utf8 tokens
    ok (goto_stmt name, record s2 { gotos = s2.gotos ++ (name ∷ []) })

  unfoldable pub parse_continue_stmt : State I D → Parsed (Stmt D)
  parse_continue_stmt s = do s1 ← expect semicolon (next s); ok (continue_stmt, s1)

  unfoldable pub parse_break_stmt : State I D → Parsed (Stmt D)
  parse_break_stmt s = do s1 ← expect semicolon (next s); ok (break_stmt, s1)

  -- `MayCastTo` the return type of the function.
  abbrev pub returned : Expr → Option QualType → Result ParseError Expr
  returned e none = err no_function
  returned e (some t) = checked (may_cast_to e t)

  unfoldable pub parse_return_stmt : State I D → Parsed (Stmt D)
  parse_return_stmt s =
      if test semicolon (next s) then ok (return_stmt none, next (next s)) else (do
        (e, s1) ← parse_expr (next s)
        v ← returned e s1.return_type
        s2 ← expect semicolon s1
        ok (return_stmt (some v), s2))

  -- A part of the head of `for`, up to the token that ends it.
  unfoldable pub for_part : Asked → State I D → Parsed (Option Expr)
  for_part ending s =
      if test ending s
      then ok (none, next s)
      else (do (e, s1) ← parse_expr s; s2 ← expect ending s1; ok (some e, s2))

  -- The first part: a declaration, which reads its semicolon, or an expression.
  unfoldable pub for_init : State I D → Parsed (Option Expr × Option D)
  unfolding for_part is_decl
  for_init s = do
    begins ← is_decl callees s
    if begins
        then (do (d, s1) ← parse_decl false s; ok ((none, d), s1))
        else (do (e, s1) ← for_part semicolon s; ok ((e, none), s1))
