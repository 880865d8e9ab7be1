-- ===== src/Stmt/Tree.antt =====
-- The classes of statements of src/ast.h. A declaration is of any type; a `GotoStmt` keeps the name of
-- its label, to which `ParseFuncDef` adds the label itself.
use kcc.Ast.Expr.{Expr, TypeError, decay}
use kcc.Ast.Condition.{check_condition, check_for, check_switch}
use kcc.Prelude.{ℕ, List, [], ◌∷◌, ◌++◌, Option, Bytes}
use kcc.Prelude.Results.{Result, ok, ◌>>=◌}

mutual
  pub data Stmt (D : Type 0) : Type 0 where
    label_stmt : Bytes → Stmt D → Stmt D
    case_stmt : ℕ → Option ℕ → Stmt D → Stmt D
    default_stmt : Stmt D → Stmt D
    compound_stmt : Stmts D → Stmt D
    expr_stmt : Option Expr → Stmt D
    if_stmt : Expr → Stmt D → Maybe D → Stmt D
    switch_stmt : Expr → Stmt D → Stmt D
    while_stmt : Expr → Stmt D → Stmt D
    do_while_stmt : Expr → Stmt D → Stmt D
    for_stmt : Option Expr → Option Expr → Option Expr → Stmt D → Option D → Stmt D
    goto_stmt : Bytes → Stmt D
    continue_stmt : Stmt D
    break_stmt : Stmt D
    return_stmt : Option Expr → Stmt D
    declaration : D → Stmt D

  -- A statement that may be missing.
  pub data Maybe (D : Type 0) : Type 0 where
    missing : Maybe D
    present : Stmt D → Maybe D

  pub data Stmts (D : Type 0) : Type 0 where
    no_stmts : Stmts D
    stmt : Stmt D → Stmts D → Stmts D

module _ {D : Type 0} where
  -- The constructors of the classes with a condition, and `Check`.
  unfoldable pub make_if : Expr → Stmt D → Maybe D → Result TypeError (Stmt D)
  make_if c t e = do c' ← decay c; d ← check_condition c'; ok (if_stmt d t e)

  unfoldable pub make_switch : Expr → Stmt D → Result TypeError (Stmt D)
  make_switch c b = do d ← check_switch c; ok (switch_stmt d b)

  unfoldable pub make_while : Expr → Stmt D → Result TypeError (Stmt D)
  make_while c b = do c' ← decay c; d ← check_condition c'; ok (while_stmt d b)

  unfoldable pub make_do_while : Expr → Stmt D → Result TypeError (Stmt D)
  make_do_while c b = do c' ← decay c; d ← check_condition c'; ok (do_while_stmt d b)

  unfoldable pub make_for :
      Option Expr → Option Expr → Option Expr → Stmt D → Option D → Result TypeError (Stmt D)
  make_for init c inc b d = do c' ← check_for c; ok (for_stmt init c' inc b d)

  -- The labels that a statement declares and those it goes to, from left to right.
  unfoldable mutual
    pub labels_of : Stmt D → List Bytes
    labels_of (label_stmt n s) = n ∷ labels_of s
    labels_of (case_stmt l r s) = labels_of s
    labels_of (default_stmt s) = labels_of s
    labels_of (compound_stmt ss) = all_labels_of ss
    labels_of (if_stmt c t e) = labels_of t ++ maybe_labels_of e
    labels_of (switch_stmt c s) = labels_of s
    labels_of (while_stmt c s) = labels_of s
    labels_of (do_while_stmt c s) = labels_of s
    labels_of (for_stmt i c n s d) = labels_of s
    labels_of _ = []

    pub maybe_labels_of : Maybe D → List Bytes
    maybe_labels_of missing = []
    maybe_labels_of (present s) = labels_of s

    pub all_labels_of : Stmts D → List Bytes
    all_labels_of no_stmts = []
    all_labels_of (stmt s ss) = labels_of s ++ all_labels_of ss

  unfoldable mutual
    pub gotos_of : Stmt D → List Bytes
    gotos_of (label_stmt n s) = gotos_of s
    gotos_of (case_stmt l r s) = gotos_of s
    gotos_of (default_stmt s) = gotos_of s
    gotos_of (compound_stmt ss) = all_gotos_of ss
    gotos_of (if_stmt c t e) = gotos_of t ++ maybe_gotos_of e
    gotos_of (switch_stmt c s) = gotos_of s
    gotos_of (while_stmt c s) = gotos_of s
    gotos_of (do_while_stmt c s) = gotos_of s
    gotos_of (for_stmt i c n s d) = gotos_of s
    gotos_of (goto_stmt n) = n ∷ []
    gotos_of _ = []

    pub maybe_gotos_of : Maybe D → List Bytes
    maybe_gotos_of missing = []
    maybe_gotos_of (present s) = gotos_of s

    pub all_gotos_of : Stmts D → List Bytes
    all_gotos_of no_stmts = []
    all_gotos_of (stmt s ss) = gotos_of s ++ all_gotos_of ss
