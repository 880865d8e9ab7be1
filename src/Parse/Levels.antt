-- ===== src/Parse/Levels.antt =====
-- What the parser of expressions reads, and the loop of a level of binary operators (src/parse_expr.cpp).
--
-- `tokens_` and `index_` are the list of the tokens to come; behind its end stands the end's token, as
-- the lexer puts it there. The ten functions for binary operators differ in their operators alone and
-- are one function of a level.
use kcc.Lex.Scanner
use kcc.Ast.Binary.{make_binary}
use kcc.Ast.Expr.{Expr, TypeError}
use kcc.Prelude.{ℕ, zero, suc, Bool, true, false, List, [], ◌∷◌, length, Bytes, if◌then◌else◌}
use kcc.Prelude.Results.{Result, ok, err, ◌>>=◌}
use kcc.Token.{Tag, Token}

-- The calls of `Error`; `other` is one of the functions that are parameters.
pub data ParseError : Type 0 where
  node_error : TypeError → ParseError
  expected : Tag → ParseError
  identifier_error : kcc.Lex.Scanner.Error → ParseError
  redefined_label unknown_label : Bytes → ParseError
  constant_error function_expected no_function : ParseError
  other out_of_fuel : ParseError

abbrev pub Parsed : Type 0
Parsed = Result ParseError (Expr × List Token)

-- The tag of `Parser::Peek`, and `Next` on a token that was seen.
abbrev pub peek_tag : List Token → Tag
peek_tag [] = Tag.eof
peek_tag (t ∷ ts) = t.tag

abbrev pub rest : List Token → List Token
rest [] = []
rest (t ∷ ts) = ts

-- `MakeAstNode`.
abbrev pub node : Result TypeError Expr → Result ParseError Expr
node (ok e) = ok e
node (err x) = err (node_error x)

-- The operators of the levels.
abbrev pub multiplicative : Tag → Bool
multiplicative Tag.star = true
multiplicative Tag.slash = true
multiplicative Tag.percent = true
multiplicative _ = false

abbrev pub additive : Tag → Bool
additive Tag.plus = true
additive Tag.minus = true
additive _ = false

abbrev pub shift : Tag → Bool
shift Tag.less_less = true
shift Tag.greater_greater = true
shift _ = false

abbrev pub relation : Tag → Bool
relation Tag.less = true
relation Tag.greater = true
relation Tag.less_equal = true
relation Tag.greater_equal = true
relation _ = false

abbrev pub equality : Tag → Bool
equality Tag.equal_equal = true
equality Tag.exclaim_equal = true
equality _ = false

abbrev pub is_amp : Tag → Bool
is_amp Tag.amp = true
is_amp _ = false

abbrev pub is_caret : Tag → Bool
is_caret Tag.caret = true
is_caret _ = false

abbrev pub is_pipe : Tag → Bool
is_pipe Tag.pipe = true
is_pipe _ = false

abbrev pub is_amp_amp : Tag → Bool
is_amp_amp Tag.amp_amp = true
is_amp_amp _ = false

abbrev pub is_pipe_pipe : Tag → Bool
is_pipe_pipe Tag.pipe_pipe = true
is_pipe_pipe _ = false

abbrev pub is_comma : Tag → Bool
is_comma Tag.comma = true
is_comma _ = false

abbrev pub is_question : Tag → Bool
is_question Tag.question = true
is_question _ = false

abbrev pub is_colon : Tag → Bool
is_colon Tag.colon = true
is_colon _ = false

abbrev pub is_extension : Tag → Bool
is_extension Tag.extension = true
is_extension _ = false

-- `Try(Tag::kExtension)`.
abbrev pub skip_extension : List Token → List Token
skip_extension ts = if is_extension (peek_tag ts) then rest ts else ts

-- `Expect(Tag::kColon)`.
abbrev pub expect_colon : List Token → Result ParseError (List Token)
expect_colon ts = if is_colon (peek_tag ts) then ok (rest ts) else err (expected Tag.colon)

-- The loop of a level, over operands.
unfoldable pub level_loop : (Tag → Bool) → (List Token → Parsed) → ℕ → Expr → List Token → Parsed
level_loop is_op operand zero lhs ts = err out_of_fuel
level_loop is_op operand (suc n) lhs [] = ok (lhs, [])
level_loop is_op operand (suc n) lhs (t ∷ ts) =
    if is_op t.tag
    then (do
      (rhs, ts') ← operand ts
      e ← node (make_binary t.tag lhs rhs)
      level_loop is_op operand n e ts')
    else ok (lhs, t ∷ ts)

-- A level: as many rounds as there are tokens at most.
unfoldable pub binary_level : (Tag → Bool) → (List Token → Parsed) → List Token → Parsed
unfolding level_loop
binary_level is_op operand ts = do
  (lhs, ts') ← operand ts
  level_loop is_op operand (suc (length ts')) lhs ts'
