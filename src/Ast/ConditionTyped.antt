-- ===== src/Ast/ConditionTyped.antt =====
-- `ConditionOpExpr` follows the rules.
use kcc.Ast.Casts.{Stands, decay-Stands, may_cast_to-Stands, convert-Converted, element-cases}
use kcc.Ast.CompareTyped.{itself, equal-is_pointer}
use kcc.Ast.Condition.{make_condition, condition_check, condition_pointers}
use kcc.Ast.Expr.{Expr, type_of, ty_of, is_zero, may_cast_to}
use kcc.Ast.Kinds.{is_void, is_pointer, is_arithmetic, is_integer, is_scalar, is_struct_or_union}
use kcc.Ast.Rules.{Typed, Coerced, ConditionRule}
use kcc.Prelude.{true, not, ◌&&◌, ◌≡◌, refl, inl, inr, arith}
use kcc.Prelude.Results.{ok, ◌>>=◌, Post, holds, fails, Post-bind, Post-if}
use kcc.Ty.CType.{QualType, get_type}
use kcc.Ty.Equal.{equal}

-- The node of a condition: its operands are the three expressions under conversions, and the rules
-- hold.
pub data MakesCondition (c l r : Expr) : Expr → Type 0 where
  makes_condition :
      {x y z : Expr} {t : QualType}
      → Coerced c x
      → Coerced l y
      → Coerced r z
      → Typed (Expr.condition x y z t)
      → MakesCondition c l r (Expr.condition x y z t)

module _ {c l r x y z : Expr} {t : QualType} (hc : Stands c x) (hl : Stands l y)
    (hr : Stands r z) where
  made :
      is_scalar (ty_of x) ≡ true
      → ConditionRule (ty_of y) (ty_of z) (get_type t)
      → MakesCondition c l r (Expr.condition x y z t)
  made s rule =
      makes_condition hc.coerced hl.coerced hr.coerced
        (Typed.condition hc.typed hl.typed hr.typed s rule)

module _ (c l r x y z : Expr) (hc : Stands c x) (hl : Stands l y) (hr : Stands r z)
    (s : is_scalar (ty_of x) ≡ true) where
  pointers-Makes :
      is_pointer (ty_of y) ≡ true
      → is_pointer (ty_of z) ≡ true
      → Post (MakesCondition c l r) (condition_pointers x y z)
  unfolding condition_pointers
  pointers-Makes py pz = elim (element-cases (ty_of y)) [
    | inl p ↦ rw p fails
    | inr (a, p, _) ↦ rw p (elim (element-cases (ty_of z)) [
      | inl q ↦ rw q fails
      | inr (b, q, _) ↦ rw q (
          Post-if (is_void (get_type a))
            (λ _. Post-bind (may_cast_to-Stands l y (type_of z) hl) λ d g. holds (
              made hc g.0 hr s (
                ConditionRule.pointers (equal-is_pointer (ty_of d) (ty_of z) g.1 pz) pz
                  (inl refl))))
            λ _.
              Post-if (is_void (get_type b))
                (λ _. Post-bind (may_cast_to-Stands r z (type_of y) hr) λ d g. holds (
                  made hc hl g.0 s (
                    ConditionRule.pointers py (equal-is_pointer (ty_of d) (ty_of y) g.1 py)
                      (inl refl))))
                (λ _. holds (made hc hl hr s (ConditionRule.pointers py pz (inl refl)))))
    ])
  ]

  null_right :
      is_pointer (ty_of y) ≡ true
      → Post
          (MakesCondition c l r)
          (may_cast_to z (type_of y) >>= λ z'. ok (Expr.condition x y z' (type_of y)))
  null_right py = Post-bind (may_cast_to-Stands r z (type_of y) hr) λ d g. holds (
      made hc hl g.0 s
        (ConditionRule.pointers py (equal-is_pointer (ty_of d) (ty_of y) g.1 py) (inl refl)))

  null_left :
      is_pointer (ty_of z) ≡ true
      → Post
          (MakesCondition c l r)
          (may_cast_to y (type_of z) >>= λ y'. ok (Expr.condition x y' z (type_of z)))
  null_left pz = Post-bind (may_cast_to-Stands l y (type_of z) hl) λ d g. holds (
      made hc g.0 hr s
        (ConditionRule.pointers (equal-is_pointer (ty_of d) (ty_of z) g.1 pz) pz (inr refl)))

condition_check-Makes :
    (c l r x y z : Expr)
    → Stands c x
    → Stands l y
    → Stands r z
    → Post (MakesCondition c l r) (condition_check x y z)
unfolding condition_check
condition_check-Makes c l r x y z hc hl hr =
    Post-if (not (is_scalar (ty_of x))) (λ _. fails)
      λ a.
        let s : is_scalar (ty_of x) ≡ true = ground (arith, a) in
        Post-if (is_arithmetic (ty_of y) && is_arithmetic (ty_of z))
          (λ _. Post-bind (convert-Converted l r y z hl hr) λ d g. holds (
            made hc g.left g.right s
              (rw (g.left_type, g.right_type, g.result_type) ConditionRule.numbers)))
          λ _.
            Post-if (is_struct_or_union (ty_of y) && is_struct_or_union (ty_of z))
              (λ b.
                Post-if (not (equal (ty_of y) (ty_of z))) (λ _. fails)
                  λ e. holds (
                    made hc hl hr s
                      (ConditionRule.structs (ground (arith, b)) (ground (arith, e)))))
              λ _.
                Post-if (is_pointer (ty_of y) && is_pointer (ty_of z))
                  (λ b.
                    pointers-Makes c l r x y z hc hl hr s (ground (arith, b)) (ground (arith, b)))
                  λ _.
                    Post-if (is_void (ty_of y) && is_void (ty_of z))
                      (λ b. holds (
                        made hc hl hr s
                          (ConditionRule.voids (ground (arith, b)) (ground (arith, b)))))
                      λ _.
                        Post-if (is_pointer (ty_of y) && is_integer (ty_of z))
                          (λ b.
                            Post-if (not (is_zero z)) (λ _. fails)
                              λ _. null_right c l r x y z hc hl hr s (ground (arith, b)))
                          λ _.
                            Post-if (is_integer (ty_of y) && is_pointer (ty_of z))
                              (λ b.
                                Post-if (not (is_zero y)) (λ _. fails)
                                  λ _. null_left c l r x y z hc hl hr s (ground (arith, b)))
                              (λ _. fails)

-- The node of a condition made of three typed expressions has those under conversions as its operands
-- and follows the typing rules.
pub make_condition-Makes :
    (c l r : Expr)
    → Typed c
    → Typed l
    → Typed r
    → Post (MakesCondition c l r) (make_condition c l r)
unfolding make_condition
make_condition-Makes c l r hc hl hr = Post-bind (decay-Stands c c (itself c hc)) λ x a.
    Post-bind (decay-Stands l l (itself l hl)) λ y b.
      Post-bind (decay-Stands r r (itself r hr)) λ z d. condition_check-Makes c l r x y z a b d
