-- ===== src/Stmt/Parser.antt =====
-- `Parser::ParseStmt` and the functions that it calls (src/parse_stmt.cpp), on fuel.
use kcc.Parse.Levels.{out_of_fuel, redefined_label, peek_tag}
use kcc.Prelude.{ℕ, zero, suc, ◌+◌, ◌*◌, true, List, [], length, none, some, Bytes, if◌then◌else◌}
use kcc.Prelude.Results.{ok, err, ◌>>=◌}
use kcc.Scope.{assign, lookup}
use kcc.Stmt.Attribute.{try_parse_attribute_spec}
use kcc.Stmt.State.{
  State, Callees, test, next, expect, enter_block, exit_block, push_block, pop_block, checked,
  is_decl, peek_name, semicolon, left_paren, right_paren, left_brace, right_brace, colon,
  identifier, ellipsis, while_word, else_word,
}
use kcc.Stmt.Tree.{
  Stmt, Stmts, label_stmt, case_stmt, default_stmt, compound_stmt, missing, present, no_stmts, stmt,
  make_if, make_switch, make_while, make_do_while, make_for,
}
use kcc.Stmt.Simple.{
  Start, label_or_expr, case_word, default_word, block, if_word, switch_word, while_loop, do_loop,
  for_loop, goto_word, continue_word, break_word, return_word, expr_start, start_of, add_decl,
  Parsed, parse_int64_constant, parse_condition, parse_expr_stmt, parse_goto_stmt,
  parse_continue_stmt, parse_break_stmt, parse_return_stmt, for_part, for_init,
}

module _ {I D : Type 0} (callees : Callees I D) where
  open callees use {parse_decl}

  abbrev Parse : Type 0 → Type 0
  Parse A = Parsed callees A

  -- The functions that parse statements within: `ParseStmt`, and the loop of a block.
  module _ (parse_sub : State I D → Parse (Stmt D))
      (parse_items : State I D → Parse (Stmts D)) where
    unfoldable pub parse_label_stmt : State I D → Parse (Stmt D)
    parse_label_stmt s = do
      s1 ← expect identifier s
      s2 ← expect colon s1
      s3 ← try_parse_attribute_spec callees s2
      name ← peek_name callees.to_utf8 s.tokens
      elim (lookup name s3.labels) [
        | some l ↦ err (redefined_label name)
        | none ↦ (do
          (b, s4) ← parse_sub s3
          ok (label_stmt name b, record s4 { labels = assign name (label_stmt name b) s4.labels }))
      ]

    unfoldable pub parse_case_stmt : State I D → Parse (Stmt D)
    unfolding parse_int64_constant
    parse_case_stmt s = do
      (l, s1) ← parse_int64_constant callees (next s)
      if test ellipsis s1
          then (do
            (r, s2) ← parse_int64_constant callees (next s1)
            s3 ← expect colon s2
            (b, s4) ← parse_sub s3
            ok (case_stmt l (some r) b, s4))
          else (do s2 ← expect colon s1; (b, s3) ← parse_sub s2; ok (case_stmt l none b, s3))

    unfoldable pub parse_default_stmt : State I D → Parse (Stmt D)
    parse_default_stmt s = do
      s1 ← expect colon (next s)
      (b, s2) ← parse_sub s1
      ok (default_stmt b, s2)

    unfoldable pub parse_compound_stmt : List (Bytes × I) → State I D → Parse (Stmt D)
    parse_compound_stmt params s = do
      s1 ← expect left_brace s
      (ss, s2) ← parse_items (push_block (enter_block params s1))
      ok (compound_stmt ss, pop_block (exit_block s2))

    unfoldable pub parse_if_stmt : State I D → Parse (Stmt D)
    unfolding parse_condition
    parse_if_stmt s = do
      (c, s1) ← parse_condition callees (next s)
      (t, s2) ← parse_sub s1
      if test else_word s2
          then (do (e, s3) ← parse_sub (next s2); i ← checked (make_if c t (present e)); ok (i, s3))
          else (do i ← checked (make_if c t missing); ok (i, s2))

    unfoldable pub parse_switch_stmt : State I D → Parse (Stmt D)
    unfolding parse_condition
    parse_switch_stmt s = do
      (c, s1) ← parse_condition callees (next s)
      (b, s2) ← parse_sub s1
      t ← checked (make_switch c b)
      ok (t, s2)

    unfoldable pub parse_while_stmt : State I D → Parse (Stmt D)
    unfolding parse_condition
    parse_while_stmt s = do
      (c, s1) ← parse_condition callees (next s)
      (b, s2) ← parse_sub s1
      t ← checked (make_while c b)
      ok (t, s2)

    unfoldable pub parse_do_while_stmt : State I D → Parse (Stmt D)
    unfolding parse_condition
    parse_do_while_stmt s = do
      (b, s1) ← parse_sub (next s)
      s2 ← expect while_word s1
      (c, s3) ← parse_condition callees s2
      s4 ← expect semicolon s3
      t ← checked (make_do_while c b)
      ok (t, s4)

    unfoldable pub parse_for_stmt : State I D → Parse (Stmt D)
    unfolding for_part for_init
    parse_for_stmt s = do
      s1 ← expect left_paren (next s)
      ((init, d), s2) ← for_init callees (enter_block [] s1)
      (c, s3) ← for_part callees semicolon s2
      (inc, s4) ← for_part callees right_paren s3
      (b, s5) ← parse_sub s4
      t ← checked (make_for init c inc b d)
      ok (t, exit_block s5)

    -- The cases of `ParseStmt`; the first token is still to be read.
    unfoldable pub parse_start : Start → State I D → Parse (Stmt D)
    unfolding parse_label_stmt parse_case_stmt parse_default_stmt parse_compound_stmt parse_if_stmt
        parse_switch_stmt parse_while_stmt parse_do_while_stmt parse_for_stmt parse_goto_stmt
        parse_continue_stmt parse_break_stmt parse_return_stmt parse_expr_stmt
    parse_start label_or_expr s =
        if test colon (next s) then parse_label_stmt s else parse_expr_stmt callees s
    parse_start case_word s = parse_case_stmt s
    parse_start default_word s = parse_default_stmt s
    parse_start block s = parse_compound_stmt [] s
    parse_start if_word s = parse_if_stmt s
    parse_start switch_word s = parse_switch_stmt s
    parse_start while_loop s = parse_while_stmt s
    parse_start do_loop s = parse_do_while_stmt s
    parse_start for_loop s = parse_for_stmt s
    parse_start goto_word s = parse_goto_stmt callees s
    parse_start continue_word s = parse_continue_stmt callees s
    parse_start break_word s = parse_break_stmt callees s
    parse_start return_word s = parse_return_stmt callees s
    parse_start expr_start s = parse_expr_stmt callees s

  unfoldable mutual
    unfolding parse_start is_decl

    pub parse_stmt : ℕ → State I D → Parse (Stmt D)
    parse_stmt zero s = err out_of_fuel
    parse_stmt (suc n) s = do
      s' ← try_parse_attribute_spec callees s
      parse_start (parse_stmt n) (parse_stmts n) (start_of (peek_tag s'.tokens)) s'

    -- The loop of `ParseCompoundStmt`.
    pub parse_stmts : ℕ → State I D → Parse (Stmts D)
    parse_stmts zero s = err out_of_fuel
    parse_stmts (suc n) s = if test right_brace s then ok (no_stmts, next s) else (do
      begins ← is_decl callees s
      if begins
          then (do (d, s1) ← parse_decl true s; (ss, s2) ← parse_stmts n s1; ok (add_decl d ss, s2))
          else (do (b, s1) ← parse_stmt n s; (ss, s2) ← parse_stmts n s1; ok (stmt b ss, s2)))

  -- Two units of fuel for each token are enough.
  abbrev pub enough : State I D → ℕ
  enough s = 2 * length s.tokens + 2
