-- ===== src/Stmt/Expressions.antt =====
-- The parser of expressions (src/parse_expr.cpp) in the place of `ParseExpr` in the parser of statements.
use kcc.Ast.Expr.{Expr}
use kcc.Calc.Cast.{CalcError}
use kcc.Parse.Levels.{ParseError, Parsed}
use kcc.Parse.Unary.{Leaves, parse_whole_expr}
use kcc.Prelude.{Bytes, ℕ, Bool, List, Option}
use kcc.Prelude.Results.{Result, ok, ◌>>=◌}
use kcc.Stmt.State.{State, Callees, with_tokens}
use kcc.Token.{Token}

module _ {I D : Type 0} where
  abbrev pub over_tokens : (List Token → Parsed) → State I D → Result ParseError (Expr × State I D)
  over_tokens f s = do (e, ts) ← f s.tokens; ok (e, with_tokens s ts)

  -- The callees, of which `ParseExpr` is the parser of expressions.
  abbrev pub with_expressions :
      Leaves
      → (Bool → State I D → Result ParseError (Option D × State I D))
      → (Expr → Bool → Result CalcError (Option ℕ))
      → (I → Bool)
      → (ℕ → Bytes)
      → Callees I D
  with_expressions leaves decl calc_integer is_type_name to_utf8 = record {
    parse_expr = over_tokens (parse_whole_expr leaves);
    parse_decl = decl;
    calc_integer = calc_integer;
    is_type_name = is_type_name;
    to_utf8 = to_utf8;
  }
