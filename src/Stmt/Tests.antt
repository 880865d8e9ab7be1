-- ===== src/Stmt/Tests.antt =====
-- Statements and functions at concrete tokens. A number is the only operand, and there are no
-- declarations; integer constants are evaluated by the LLVM of the tests of `kcc.Calc`.
use kcc.Ast.Expr.{constant}
use kcc.Calc.Cast.{CalcError}
use kcc.Location.{initial_location}
use kcc.Parse.Levels.{other, unknown_label, redefined_label, Parsed}
use kcc.Parse.Unary.{Leaves}
use kcc.Prelude.{ℕ, ◌≡◌, refl, false, List, [], ◌∷◌, none, some, Bytes}
use kcc.Prelude.Results.{ok, err}
use kcc.Stmt.Expressions.{with_expressions}
use kcc.Stmt.Function.{parse_func_def}
use kcc.Stmt.State.{State, Callees}
use kcc.Stmt.Tree.{label_stmt, compound_stmt, goto_stmt, expr_stmt, no_stmts, stmt}
use kcc.Token.{Tag, Token}
use kcc.Ty.Arithmetic.{ArithmeticType}
use kcc.Ty.CType.{Ty, QualType, qual, nil}

abbrev token : Tag → Token
token tag = record { tag = tag; str = []; loc = initial_location }

abbrev word : Bytes → Token
word name = record { tag = Tag.identifier; str = name; loc = initial_location }

abbrev number_of : Tag → List Token → Parsed
number_of Tag.integer ts = ok (constant ArithmeticType.int 1, ts)
number_of _ ts = err other

abbrev number : List Token → Parsed
number [] = err other
number (t ∷ ts) = number_of t.tag ts

abbrev leaves : Leaves
leaves = record {
  is_type_name = λ t. false;
  parse_type_name = λ ts. err other;
  parse_compound = λ t ts. err other;
  parse_word = λ w ts. err other;
  parse_postfix_expr = number;
}

abbrev callees : Callees ℕ ℕ
callees =
    with_expressions leaves (λ f s. err other) (λ e f. err CalcError.not_constant) (λ i. false)
      (λ c. [])

abbrev start : List Token → State ℕ ℕ
start ts = record {
  tokens = ts;
  scope = [];
  labels = [];
  gotos = [];
  open_blocks = 0;
  return_type = none;
}

abbrev a : Bytes
a = 97 ∷ []

abbrev semicolon : Token
semicolon = token Tag.semicolon

-- `{ goto a; { a: 1; } }`.
abbrev forward : List Token
forward =
    token Tag.left_brace
    ∷ token Tag.goto
    ∷ word a
    ∷ semicolon
    ∷ token Tag.left_brace
    ∷ word a
    ∷ token Tag.colon
    ∷ token Tag.integer
    ∷ semicolon
    ∷ token Tag.right_brace
    ∷ token Tag.right_brace
    ∷ token Tag.eof
    ∷ []

abbrev function_type : QualType
function_type = qual (Ty.function (qual Ty.void 0) nil false) 0

-- The function is accepted.
forward_label :
    parse_func_def callees function_type [] (start forward)
    ≡ ok (
      compound_stmt (
          stmt (goto_stmt a) (
            stmt
              (compound_stmt
                (stmt (label_stmt a (expr_stmt (some (constant ArithmeticType.int 1)))) no_stmts))
              no_stmts)),
      start (token Tag.eof ∷ []),
    )
unfolding parse_func_def kcc.Stmt.State.is_decl kcc.Stmt.State.peek_name
    kcc.Lex.Literal.handle_identifier kcc.Lex.Literal.identifier_from kcc.Lex.Scanner.has_next
    kcc.Lex.Scanner.is_ucn kcc.Lex.Scanner.next kcc.Lex.Scanner.pure kcc.Lex.Scanner.◌>>=◌
    kcc.Lex.Scanner.with_budget kcc.Stmt.Parser.parse_compound_stmt kcc.Stmt.State.expect
    kcc.Stmt.Parser.parse_stmts kcc.Stmt.State.enter_block kcc.Token.is_decl_spec
    kcc.Stmt.Attribute.try_parse_attribute_spec kcc.Scope.find_usual kcc.Scope.lookup
    kcc.Parse.Unary.parse_whole_expr kcc.Stmt.State.exit_block kcc.Stmt.Function.resolve
    kcc.Scope.assign
forward_label = refl

-- `{ goto a; }`.
missing_label :
    parse_func_def callees function_type [] (
      start
        (token Tag.left_brace ∷ token Tag.goto ∷ word a ∷ semicolon ∷ token Tag.right_brace ∷ []))
    ≡ err (unknown_label a)
unfolding parse_func_def kcc.Stmt.State.is_decl kcc.Stmt.State.peek_name
    kcc.Lex.Literal.handle_identifier kcc.Lex.Literal.identifier_from kcc.Lex.Scanner.has_next
    kcc.Lex.Scanner.is_ucn kcc.Lex.Scanner.next kcc.Lex.Scanner.pure kcc.Lex.Scanner.◌>>=◌
    kcc.Lex.Scanner.with_budget kcc.Stmt.Parser.parse_compound_stmt kcc.Stmt.State.expect
    kcc.Stmt.Parser.parse_stmts kcc.Stmt.State.enter_block kcc.Token.is_decl_spec
    kcc.Stmt.Attribute.try_parse_attribute_spec kcc.Stmt.Function.resolve kcc.Stmt.State.exit_block
    kcc.Scope.lookup
missing_label = refl

-- `{ a: ; a: ; }` is an error, but `{ a: a: ; }` is not: a label is noted behind its statement.
label_twice :
    parse_func_def callees function_type [] (
      start (
        token Tag.left_brace
        ∷ word a
        ∷ token Tag.colon
        ∷ semicolon
        ∷ word a
        ∷ token Tag.colon
        ∷ semicolon
        ∷ token Tag.right_brace
        ∷ []))
    ≡ err (redefined_label a)
unfolding parse_func_def kcc.Stmt.State.is_decl kcc.Stmt.State.peek_name
    kcc.Lex.Literal.handle_identifier kcc.Lex.Literal.identifier_from kcc.Lex.Scanner.has_next
    kcc.Lex.Scanner.is_ucn kcc.Lex.Scanner.next kcc.Lex.Scanner.pure kcc.Lex.Scanner.◌>>=◌
    kcc.Lex.Scanner.with_budget kcc.Stmt.Parser.parse_compound_stmt kcc.Stmt.State.expect
    kcc.Stmt.Parser.parse_stmts kcc.Stmt.State.enter_block kcc.Token.is_decl_spec
    kcc.Scope.find_usual kcc.Scope.lookup kcc.Stmt.Attribute.try_parse_attribute_spec
    kcc.Scope.assign
label_twice = refl

label_within :
    parse_func_def callees function_type [] (
      start (
        token Tag.left_brace
        ∷ word a
        ∷ token Tag.colon
        ∷ word a
        ∷ token Tag.colon
        ∷ semicolon
        ∷ token Tag.right_brace
        ∷ []))
    ≡ ok (compound_stmt (stmt (label_stmt a (label_stmt a (expr_stmt none))) no_stmts), start [])
unfolding parse_func_def kcc.Stmt.State.is_decl kcc.Stmt.State.peek_name
    kcc.Lex.Literal.handle_identifier kcc.Lex.Literal.identifier_from kcc.Lex.Scanner.has_next
    kcc.Lex.Scanner.is_ucn kcc.Lex.Scanner.next kcc.Lex.Scanner.pure kcc.Lex.Scanner.◌>>=◌
    kcc.Lex.Scanner.with_budget kcc.Stmt.Parser.parse_compound_stmt kcc.Stmt.State.expect
    kcc.Stmt.Parser.parse_stmts kcc.Stmt.State.enter_block kcc.Token.is_decl_spec
    kcc.Scope.find_usual kcc.Scope.lookup kcc.Stmt.Attribute.try_parse_attribute_spec
    kcc.Stmt.Function.resolve kcc.Stmt.State.exit_block
label_within = refl
