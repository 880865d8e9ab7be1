-- ===== src/Lib.antt =====
-- Verification library of kcc, a compiler of C that generates code through LLVM (src/).
--
-- A source text goes through the preprocessor (Clang's), the lexer (src/lex.cpp), the parser
-- (src/parse*.cpp), which makes a typed tree with the types of src/type.cpp and the scopes of
-- src/scope.cpp, and the code generator. The lexer gives the parser all tokens at once; the parser
-- asks scopes for names and types for their conversions. The library models these parts:
--
-- - Location: `Location` (src/location.cpp, src/location.h), with its backup of one step.
-- - Token: the tags and the token (src/token.h), with the predicates of src/token.cpp.
-- - Lex: `Scanner` (src/lex.cpp) and the table of keywords (src/dict.cpp). The string and the index
--   are two lists, the bytes read, the last one first, and the bytes to come with the terminator. A
--   method is a function of the state into a result or an error: `peek`, `next`, `put_back`, `test`,
--   `try`, `is_ucn`, `make_token` (Lex/Scanner); `skip_space`, `skip_number`, `skip_identifier`,
--   `skip_character`, `skip_string_literal` (Lex/Skip); `handle_escape` and its kin (Lex/Escape);
--   `skip_line_directives` (Lex/Directive); `scan` and `tokenize` (Lex/Scan). The switch of `Scan`
--   is divided by the kind of its cases. What the parser asks of one token's text,
--   `HandleIdentifier`, `HandleCharacter` and `HandleStringLiteral`, is in Lex/Literal. Triples of a
--   condition, a method and what then holds are in Lex/Triple, the triples of the methods in the
--   files that end in Triple, and what they come to in Lex/Lossless. Further laws are in
--   Lex/PutBack, Lex/LiteralLaws and Lex/KeywordsLaws. An error is also a failed assertion or a read
--   out of bounds.
-- - Ty: the type specifier masks and `DealWithTypeSpec` (Ty/Spec), `ArithmeticType` (Ty/Arithmetic)
--   with the usual arithmetic conversions written out from the standard (Ty/Conversion), the classes
--   of types (Ty/CType), `Equal` and `Compatible` (Ty/Equal, Ty/EqualLaws), all of src/type.cpp; and
--   `Parser::ParseDeclSpec` of src/parse_decl.cpp (Ty/DeclSpec), with the table of the C standard
--   (Ty/DeclTable) and its proofs (Ty/DeclRow, Ty/DeclPhase, Ty/DeclLaws, Ty/DeclOrder).
-- - Scope: `Scope` of src/scope.cpp, a list of scopes with two association lists each.
-- - Ast: the expressions of src/ast.h with their types (Ast/Expr), and the checks of src/ast.cpp
--   that a node passes when it is made: `UnaryOpExpr` (Ast/Unary), `BinaryOpExpr` (Ast/Binary),
--   `ConditionOpExpr` and the conditions of statements (Ast/Condition), `FuncCallExpr` (Ast/Call).
--   They work on the types of Ty with the tests of Ast/Kinds. The typing rules are in Ast/Rules, the
--   proofs in Ast/Casts, Ast/Usual and the files that end in Typed.
-- - Layout: `StructType` while members are added (Layout/Fields, Layout/Operations; src/type.cpp),
--   and `ParseStructDeclList` and `ParseBitField` of src/parse_decl.cpp, which call it for each
--   declarator (Layout/Declare). Its scope is a list of names as in Scope. What it promises is in
--   Layout/Placed, the proofs in the files that begin with Placed.
-- - Parse: the parser of expressions of src/parse_expr.cpp over the list of tokens to come, with the
--   nodes of Ast: the levels of operators (Parse/Levels, Parse/Ladder), casts and unary operators
--   (Parse/Unary); `ParseInteger` (Parse/Integer) with the table of the C standard
--   (Parse/IntegerTable, Parse/IntegerLaws); and `ParseCharacter` on what Lex/Literal reads
--   (Parse/Character). The functions of the parser that casts and unary operators call and that are
--   not modelled are the fields of the record `Leaves`.
-- - Calc: `CalcConstantExpr` of src/calc.cpp on the expressions of Ast (Calc/Eval), its operators
--   (Calc/Operators), the casts of constants of src/llvm_common.cpp (Calc/Cast) and the LLVM types of
--   the types (Calc/Lower). LLVM itself is the record `Llvm`, with its laws in `IntegerLaws`
--   (Calc/Llvm); what is read of the module and of the nodes of objects is the record `Globals`. The
--   values of the C standard are in Calc/Value, on the bit patterns of Calc/Word, the expressions on
--   which the code can differ from it in Calc/Definite, the proofs in the files from Calc/Folds to
--   Calc/Outcome.
-- - Stmt: the parser of statements of src/parse_stmt.cpp over the fields of `Parser` (Stmt/State),
--   with the classes of statements of src/ast.h (Stmt/Tree), the attributes (Stmt/Attribute), the
--   statements (Stmt/Simple, Stmt/Parser) and `ParseFuncDef` of src/parse.cpp (Stmt/Function). The
--   functions of the parser that these call and that are not modelled are the fields of the record
--   `Callees`; the parser of expressions of Parse takes its place in Stmt/Expressions. The model is
--   run on tokens in Stmt/Tests.
-- - Prelude: names of the libraries, Boolean tests on numbers, lists of bytes.
--
-- Each loop of the lexer runs on fuel, one more than the bytes to come: each round but the last
-- reads a byte. A level of binary operators has a round for each token; the functions from
-- `ParseExpr` to `ParseConditionExpr` call one another at most three times before a token is read,
-- those for casts and unary operators at most twice, so they are given three and two units for
-- each token. The functions for statements are given two units for each token, the loops over
-- attributes one. Rows and columns have no bound here; a source of 2 ^ 31 bytes would overflow
-- theirs. Values of escapes wrap at 32 bits. Widths of types are taken modulo 2 ^ 32, and the
-- layout reads them as `std::int32_t`; a sum of offsets that does not fit in one, which C++ leaves
-- undefined, is an error.
--
-- Parameters and limits: the size that LLVM gives a struct is a parameter of `width`, and what its
-- data layout says of sizes and alignments is a parameter of the layout; a struct is known by what
-- `Equal` reads of it, its LLVM type by a number. The specifiers that other functions of the
-- parser read (typeof, struct, union, enum, _Alignas, type names) come with what was returned.
-- Boost's conversion of a code point is a parameter of the text of identifiers and strings.
-- Character classes are those of the C locale, with no letter above 127. `std::stoull` is a
-- parameter of `ParseInteger`. Declarations within statements are of any type. A `GotoStmt` is
-- known by the name of its label, and a null pointer for a function is an error. The records
-- `Leaves` and `Callees` are parameters of the definitions in Parse and Stmt; no law is asked of
-- them.
--
-- Not modelled are floating constants, the rest of the parser (postfix and statement expressions,
-- declarators, initializers, external declarations), code generation, which works on LLVM's objects,
-- and all input and output.
pub mod Prelude
pub mod Location
pub mod Token
pub mod Lex
pub mod Ty
pub mod Scope
pub mod Ast
pub mod Calc
pub mod Layout
pub mod Parse
pub mod Stmt
