-- ===== src/Stmt/State.antt =====
-- What the parser of statements keeps, and what it calls: the fields of `Parser` in src/parse.h.
use kcc.Ast.Expr.{Expr, TypeError}
use kcc.Calc.Cast.{CalcError}
use kcc.Parse.Levels.{identifier_error, ParseError, expected, node_error, peek_tag, rest}
use kcc.Prelude.{
  ℕ, ◌+◌, ◌-◌, Bool, true, false, List, [], ◌∷◌, Option, none, some, Bytes, if◌then◌else◌,
}
use kcc.Prelude.Results.{◌>>=◌, Result, ok, err}
use kcc.Lex.Literal.{handle_identifier}
use kcc.Lex.Scanner.{Scanner, new_scanner}
use kcc.Scope.{Scope, ScopeType, enter, insert_usual, find_usual}
use kcc.Stmt.Tree.{Stmt}
use kcc.Token.{Tag, Token, is_decl_spec}
use kcc.Ty.CType.{QualType}

-- `tokens_` from `index_` on, `scope_`, `labels_`, the names of `gotos_`, the height of
-- `compound_stmt_`, and the return type of `func_def_`, if a function is being parsed.
pub record State (I D : Type 0) : Type 0 where
  pub tokens : List Token
  pub scope : Scope I
  pub labels : List (Bytes × Stmt D)
  pub gotos : List Bytes
  pub open_blocks : ℕ
  pub return_type : Option QualType

-- What the parser of statements calls: `ParseExpr`, `ParseDecl`, whose flag says whether a function
-- may be defined, `CalcInteger`, the test whether an identifier is a type's name, and Boost's
-- conversion of a code point.
pub record Callees (I D : Type 0) : Type 0 where
  pub parse_expr : State I D → Result ParseError (Expr × State I D)
  pub parse_decl : Bool → State I D → Result ParseError (Option D × State I D)
  pub calc_integer : Expr → Bool → Result CalcError (Option ℕ)
  pub is_type_name : I → Bool
  pub to_utf8 : ℕ → Bytes

-- `TokenIs` for the tags that are asked for, as a name and a test.
pub record Asked : Type 0 where
  pub tag : Tag
  pub is : Tag → Bool

abbrev is_semicolon_tag : Tag → Bool
is_semicolon_tag Tag.semicolon = true
is_semicolon_tag _ = false

abbrev is_left_paren_tag : Tag → Bool
is_left_paren_tag Tag.left_paren = true
is_left_paren_tag _ = false

abbrev is_right_paren_tag : Tag → Bool
is_right_paren_tag Tag.right_paren = true
is_right_paren_tag _ = false

abbrev is_left_brace_tag : Tag → Bool
is_left_brace_tag Tag.left_brace = true
is_left_brace_tag _ = false

abbrev is_right_brace_tag : Tag → Bool
is_right_brace_tag Tag.right_brace = true
is_right_brace_tag _ = false

abbrev is_colon_tag : Tag → Bool
is_colon_tag Tag.colon = true
is_colon_tag _ = false

abbrev is_comma_tag : Tag → Bool
is_comma_tag Tag.comma = true
is_comma_tag _ = false

abbrev is_identifier_tag : Tag → Bool
is_identifier_tag Tag.identifier = true
is_identifier_tag _ = false

abbrev is_while_tag : Tag → Bool
is_while_tag Tag.while = true
is_while_tag _ = false

abbrev is_else_tag : Tag → Bool
is_else_tag Tag.else_tag = true
is_else_tag _ = false

abbrev is_ellipsis_tag : Tag → Bool
is_ellipsis_tag Tag.ellipsis = true
is_ellipsis_tag _ = false

abbrev is_attribute_tag : Tag → Bool
is_attribute_tag Tag.attribute = true
is_attribute_tag _ = false

abbrev pub semicolon : Asked
semicolon = record { tag = Tag.semicolon; is = is_semicolon_tag }

abbrev pub left_paren : Asked
left_paren = record { tag = Tag.left_paren; is = is_left_paren_tag }

abbrev pub right_paren : Asked
right_paren = record { tag = Tag.right_paren; is = is_right_paren_tag }

abbrev pub left_brace : Asked
left_brace = record { tag = Tag.left_brace; is = is_left_brace_tag }

abbrev pub right_brace : Asked
right_brace = record { tag = Tag.right_brace; is = is_right_brace_tag }

abbrev pub colon : Asked
colon = record { tag = Tag.colon; is = is_colon_tag }

abbrev pub comma : Asked
comma = record { tag = Tag.comma; is = is_comma_tag }

abbrev pub identifier : Asked
identifier = record { tag = Tag.identifier; is = is_identifier_tag }

abbrev pub while_word : Asked
while_word = record { tag = Tag.while; is = is_while_tag }

abbrev pub else_word : Asked
else_word = record { tag = Tag.else_tag; is = is_else_tag }

abbrev pub ellipsis : Asked
ellipsis = record { tag = Tag.ellipsis; is = is_ellipsis_tag }

abbrev pub attribute : Asked
attribute = record { tag = Tag.attribute; is = is_attribute_tag }

-- The text of the token that is next.
abbrev peek_text : List Token → Bytes
peek_text [] = []
peek_text (t ∷ ts) = t.str

-- What `Scanner::HandleIdentifier` gives.
abbrev name_of_scan : kcc.Lex.Scanner.Result (Bytes × Scanner) → Result ParseError Bytes
name_of_scan (kcc.Lex.Scanner.ok (name, s)) = ok name
name_of_scan (kcc.Lex.Scanner.err e) = err (identifier_error e)

-- `Token::GetIdentifier` of the token that is next. `to_utf8` is Boost's conversion of a code point.
unfoldable pub peek_name : (ℕ → Bytes) → List Token → Result ParseError Bytes
peek_name to_utf8 ts = name_of_scan (handle_identifier to_utf8 (new_scanner (peek_text ts)))

-- A function's block begins with its parameters.
abbrev pub insert_all : {I : Type 0} → List (Bytes × I) → Scope I → Scope I
insert_all [] scope = scope
insert_all ((n, x) ∷ ps) scope = insert_all ps (insert_usual n x scope)

-- `Scope::GetParent`.
abbrev pub parent : {I : Type 0} → Scope I → Scope I
parent [] = []
parent (l ∷ ls) = ls

-- `MakeAstNode`, of a statement or an expression.
abbrev pub checked : {A : Type 0} → Result TypeError A → Result ParseError A
checked (ok a) = ok a
checked (err e) = err (node_error e)

module _ {I D : Type 0} where
  abbrev pub with_tokens : State I D → List Token → State I D
  with_tokens s ts = record s { tokens = ts }

  -- `Test`, `Next` and `Expect`.
  abbrev pub test : Asked → State I D → Bool
  test a s = a.is (peek_tag s.tokens)

  abbrev pub next : State I D → State I D
  next s = with_tokens s (rest s.tokens)

  unfoldable pub expect : Asked → State I D → Result ParseError (State I D)
  expect a s = if test a s then ok (next s) else err (expected a.tag)

  -- `EnterBlock` and `ExitBlock`.
  unfoldable pub enter_block : List (Bytes × I) → State I D → State I D
  enter_block params s = record s { scope = insert_all params (enter ScopeType.block s.scope) }

  unfoldable pub exit_block : State I D → State I D
  exit_block s = record s { scope = parent s.scope }

  -- `compound_stmt_.push` and `compound_stmt_.pop`.
  abbrev pub push_block : State I D → State I D
  push_block s = record s { open_blocks = s.open_blocks + 1 }

  abbrev pub pop_block : State I D → State I D
  pop_block s = record s { open_blocks = s.open_blocks - 1 }

  module _ (callees : Callees I D) where
    abbrev names_type : Option I → Bool
    names_type none = false
    names_type (some x) = callees.is_type_name x

    -- `IsDecl(Peek())`.
    unfoldable pub is_decl : State I D → Result ParseError Bool
    unfolding peek_name
    is_decl s =
        if is_decl_spec (peek_tag s.tokens)
        then ok true
        else if is_identifier_tag (peek_tag s.tokens)
        then (do
          name ← peek_name callees.to_utf8 s.tokens
          ok (names_type (find_usual name s.scope)))
        else ok false
