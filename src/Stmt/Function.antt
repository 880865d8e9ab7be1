-- ===== src/Stmt/Function.antt =====
-- `Parser::ParseFuncDef` (src/parse.cpp): the body of a function, and its labels and gotos.
use kcc.Parse.Levels.{ParseError, unknown_label, function_expected}
use kcc.Prelude.{List, [], ◌∷◌, none, some, Bytes}
use kcc.Prelude.Results.{Result, ok, err, ◌>>=◌, ◌>>◌}
use kcc.Scope.{lookup}
use kcc.Stmt.Parser.{parse_stmt, parse_stmts, parse_compound_stmt, enough}
use kcc.Stmt.State.{State, Callees}
use kcc.Stmt.Tree.{Stmt}
use kcc.Ty.CType.{Ty, QualType, get_type}

-- `FindLabel` for each of the gotos.
unfoldable pub resolve :
    {D : Type 0} → List (Bytes × Stmt D) → List Bytes → Result ParseError (Unit {0})
resolve labels [] = ok tt
resolve labels (n ∷ ns) = elim (lookup n labels) [
  | none ↦ err (unknown_label n)
  | some l ↦ resolve labels ns
]

module _ {I D : Type 0} (callees : Callees I D) where
  -- `EnterFunc` and `ExitFunc`.
  abbrev pub enter_func : QualType → State I D → State I D
  enter_func t s = record s { return_type = some t }

  abbrev pub exit_func : State I D → State I D
  exit_func s = record s { return_type = none }

  abbrev pub function_body :
      QualType → List (Bytes × I) → State I D → Result ParseError (Stmt D × State I D)
  function_body t params s = do
    (b, s1) ←
        parse_compound_stmt callees (parse_stmt callees (enough callees s))
          (parse_stmts callees (enough callees s)) params (enter_func t s)
    resolve s1.labels s1.gotos
    ok (b, record (exit_func s1) { gotos = []; labels = [] })

  abbrev pub of_type : Ty → List (Bytes × I) → State I D → Result ParseError (Stmt D × State I D)
  of_type (Ty.function r ps v) params s = function_body r params s
  of_type _ params s = err function_expected

  -- The type of the identifier, with the identifiers of its parameters.
  unfoldable pub parse_func_def :
      QualType → List (Bytes × I) → State I D → Result ParseError (Stmt D × State I D)
  parse_func_def t params s = of_type (get_type t) params s
