-- ===== src/Ty/DeclOrder.antt =====
-- The orders of keywords that `ParseDeclSpec` (src/parse_decl.cpp) takes.
use kcc.Prelude.{In, every, every-In, ℕ, Bool, true, false, Option, ◌≡◌, refl, map, arith}
use kcc.Ty.Arithmetic.{arithmetic_equal, get, type_spec}
use kcc.Ty.CType.{Ty, get_type}
use kcc.Ty.DeclSpec.{
  keyword, initial, Result, ok, err, Declared, parse_decl_spec, step, step_keyword, allowed,
  add_keyword, base_type, finish_decl_spec,
}
use kcc.Ty.DeclTable.{Row, table}
use kcc.Ty.Equal.{equal}
use kcc.Ty.Spec.{deal_with_type_spec}

-- The result is a type that `Equal` finds equal to a given one.
accepts : Ty → Result Declared → Bool
accepts t (err e) = false
accepts t (ok d) = equal (get_type d.type) t

accepts_elim :
    (t : Ty) (r : Result Declared)
    → accepts t r ≡ true
    → (d : Declared) × (r ≡ ok d) × (equal (get_type d.type) t ≡ true)
unfolding accepts
accepts_elim t (ok d) h = (d, refl, h)
accepts_elim t (err e) h = absurd (ground (arith, h))

table_accepted :
    (a b c : Option ℕ)
    → every (λ r. accepts r.type (parse_decl_spec (initial a b c) (map keyword r.keywords))) table
      ≡ true
unfolding accepts parse_decl_spec step step_keyword allowed add_keyword base_type finish_decl_spec
    get deal_with_type_spec equal arithmetic_equal type_spec
table_accepted a b c = refl

-- Each row of the table, in its order, is accepted whole, with the type of the row.
pub parse_decl_spec-table :
    (a b c : Option ℕ) (r : Row)
    → In r table
    → (d : Declared) × (parse_decl_spec (initial a b c) (map keyword r.keywords) ≡ ok d)
      × (equal (get_type d.type) r.type ≡ true)
parse_decl_spec-table a b c r i =
    accepts_elim r.type (parse_decl_spec (initial a b c) (map keyword r.keywords)) (
      every-In (λ r. accepts r.type (parse_decl_spec (initial a b c) (map keyword r.keywords)))
        table (table_accepted a b c) i)
