-- ===== src/Stmt/Attribute.antt =====
-- Attributes (src/parse.cpp), which are read and left out. Each round of a loop reads a token.
use kcc.Parse.Levels.{ParseError, out_of_fuel}
use kcc.Prelude.{ℕ, zero, suc, not, length, if◌then◌else◌}
use kcc.Prelude.Results.{Result, ok, err, ◌>>=◌}
use kcc.Stmt.State.{
  State, Callees, test, next, expect, left_paren, right_paren, comma, identifier, attribute,
}

module _ {I D : Type 0} (callees : Callees I D) where
  abbrev pub Skipped : Type 0
  Skipped = Result ParseError (State I D)

  -- `Expect(Tag::kComma)` between two items.
  abbrev pub separate : State I D → Skipped
  separate s = if not (test right_paren s) then expect comma s else ok s

  unfoldable pub attribute_expr_list : ℕ → State I D → Skipped
  attribute_expr_list zero s = err out_of_fuel
  attribute_expr_list (suc n) s =
      if not (test right_paren s)
      then (do (e, s1) ← callees.parse_expr s; s2 ← separate s1; attribute_expr_list n s2)
      else ok s

  unfoldable pub parse_attribute_expr_list : State I D → Skipped
  unfolding attribute_expr_list
  parse_attribute_expr_list s = attribute_expr_list (suc (length s.tokens)) s

  unfoldable pub parse_attribute_param_list : State I D → Skipped
  unfolding parse_attribute_expr_list
  parse_attribute_param_list s =
      if test identifier s
      then (if test comma (next s) then parse_attribute_expr_list (next (next s)) else ok (next s))
      else parse_attribute_expr_list s

  unfoldable pub parse_attribute : State I D → Skipped
  unfolding parse_attribute_param_list
  parse_attribute s = do
    s1 ← expect identifier s
    if test left_paren s1
        then (do s2 ← parse_attribute_param_list (next s1); expect right_paren s2)
        else ok s1

  unfoldable pub attribute_list : ℕ → State I D → Skipped
  unfolding parse_attribute
  attribute_list zero s = err out_of_fuel
  attribute_list (suc n) s =
      if not (test right_paren s)
      then (do s1 ← parse_attribute s; s2 ← separate s1; attribute_list n s2)
      else ok s

  unfoldable pub parse_attribute_list : State I D → Skipped
  unfolding attribute_list
  parse_attribute_list s = attribute_list (suc (length s.tokens)) s

  unfoldable pub attribute_specs : ℕ → State I D → Skipped
  unfolding parse_attribute_list
  attribute_specs zero s = err out_of_fuel
  attribute_specs (suc n) s =
      if test attribute s
      then (do
        s1 ← expect left_paren (next s)
        s2 ← expect left_paren s1
        s3 ← parse_attribute_list s2
        s4 ← expect right_paren s3
        s5 ← expect right_paren s4
        attribute_specs n s5)
      else ok s

  unfoldable pub try_parse_attribute_spec : State I D → Skipped
  unfolding attribute_specs
  try_parse_attribute_spec s = attribute_specs (suc (length s.tokens)) s
