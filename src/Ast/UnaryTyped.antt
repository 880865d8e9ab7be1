-- ===== src/Ast/UnaryTyped.antt =====
-- `UnaryOpExpr` follows the rules.
use kcc.Ast.Casts.{
  Stands, decay-Stands, may_cast_to-number, promoted-cases, number_is_arithmetic, element-cases,
}
use kcc.Ast.Expr.{Expr, ty_of, is_lvalue, is_const, promoted, may_cast_to}
use kcc.Ast.Kinds.{
  is_real, is_pointer, is_function, is_arithmetic, is_integer, is_integer_or_bool, is_scalar,
}
use kcc.Ast.Rules.{
  Typed, Coerced, unchanged, UnaryRule, modified, signed, complement, negated, dereferenced,
  addressed, inc_dec_op, sign_op,
}
use kcc.Ast.Unary.{
  make_unary, unary_check, inc_dec_op_check, unary_add_sub_op_check, not_op_check,
  logic_not_op_check, deref_op_check, addr_op_check,
}
use kcc.Prelude.{true, not, ◌&&◌, ◌||◌, ◌≡◌, refl, if◌then◌else◌, inl, inr, arith}
use kcc.Prelude.Results.{ok, ◌>>=◌, Post, holds, fails, Post-bind, Post-if, Post-map}
use kcc.Token.{Tag}
use kcc.Ty.CType.{QualType, qual}

-- The node that `op` makes of `e`: the operand is `e` under conversions, and the rules hold.
pub data MakesUnary (op : Tag) (e : Expr) : Expr → Type 0 where
  makes_unary :
      {d : Expr} {t : QualType}
      → Coerced e d
      → Typed (Expr.unary op d t)
      → MakesUnary op e (Expr.unary op d t)

made :
    {op : Tag} {e d : Expr} {t : QualType}
    → Stands e d
    → UnaryRule op d t
    → MakesUnary op e (Expr.unary op d t)
made h r = makes_unary h.coerced (Typed.unary h.typed r)

module _ (op : Tag) (e d : Expr) (h : Stands e d) where
  inc_dec-Makes : inc_dec_op op ≡ true → Post (MakesUnary op e) (inc_dec_op_check op d)
  unfolding inc_dec_op_check
  inc_dec-Makes o =
      Post-if (is_const d) (λ _. fails)
        λ a.
          Post-if (not (is_lvalue d)) (λ _. fails)
            λ b.
              Post-if (is_real (ty_of d) || is_pointer (ty_of d))
                (λ c. holds (made h (modified o (a, ground (arith, b)) c))) (λ _. fails)

  promoted_operand :
      is_arithmetic (ty_of d) ≡ true
      → Post
          (λ x. Stands e x × (is_arithmetic (ty_of x) ≡ true))
          (if is_integer_or_bool (ty_of d)
            then (promoted (ty_of d) >>= λ t. may_cast_to d (qual t 0))
            else ok d)
  promoted_operand a =
      Post-if (is_integer_or_bool (ty_of d))
        (λ _. elim (promoted-cases (ty_of d)) [
          | inl (x, p) ↦ rw p fails
          | inr (t, p, i, b) ↦ rw p (
              Post-map (λ x g. (g.0, rw g.1 (number_is_arithmetic t)))
                (may_cast_to-number e d t 0 h))
        ])
        (λ _. holds (h, a))

  add_sub-Makes : sign_op op ≡ true → Post (MakesUnary op e) (unary_add_sub_op_check op d)
  unfolding unary_add_sub_op_check
  add_sub-Makes o =
      Post-if (not (is_arithmetic (ty_of d))) (λ _. fails)
        λ a. Post-bind (promoted_operand (ground (arith, a))) λ x g. holds (made g.0 (signed o g.1))

  logic_not-Makes : op ≡ Tag.exclaim → Post (MakesUnary op e) (logic_not_op_check op d)
  unfolding logic_not_op_check
  logic_not-Makes o =
      Post-if (not (is_scalar (ty_of d))) (λ _. fails)
        λ a. holds (made h (negated o (ground (arith, a))))

  not-Makes : op ≡ Tag.tilde → Post (MakesUnary op e) (not_op_check op d)
  unfolding not_op_check
  not-Makes o =
      Post-if (not (is_integer (ty_of d))) (λ _. fails)
        λ a. elim (promoted-cases (ty_of d)) [
          | inl (x, p) ↦ rw p fails
          | inr (t, p, i, b) ↦ rw p (
              Post-bind (may_cast_to-number e d t 0 h)
                λ x g. holds (made g.0 (complement o (rw g.1 (i (ground (arith, a)))))))
        ]

  deref-Makes : op ≡ Tag.star → Post (MakesUnary op e) (deref_op_check op d)
  unfolding deref_op_check
  deref-Makes o = elim (element-cases (ty_of d)) [
    | inl p ↦ rw p fails
    | inr (t, p, q) ↦ rw p (holds (made h (dereferenced o q)))
  ]

  addr-Makes : op ≡ Tag.amp → Post (MakesUnary op e) (addr_op_check op d)
  unfolding addr_op_check
  addr-Makes o =
      Post-if (not (is_function (ty_of d)) && not (is_lvalue d)) (λ _. fails)
        λ a. holds (made h (addressed o (ground (arith, a))))

unary_check-Makes : (op : Tag) (e d : Expr) → Stands e d → Post (MakesUnary op e) (unary_check op d)
unfolding unary_check
unary_check-Makes Tag.plus_plus e d h = inc_dec-Makes Tag.plus_plus e d h refl
unary_check-Makes Tag.minus_minus e d h = inc_dec-Makes Tag.minus_minus e d h refl
unary_check-Makes Tag.postfix_plus_plus e d h = inc_dec-Makes Tag.postfix_plus_plus e d h refl
unary_check-Makes Tag.postfix_minus_minus e d h = inc_dec-Makes Tag.postfix_minus_minus e d h refl
unary_check-Makes Tag.plus e d h = add_sub-Makes Tag.plus e d h refl
unary_check-Makes Tag.minus e d h = add_sub-Makes Tag.minus e d h refl
unary_check-Makes Tag.tilde e d h = not-Makes Tag.tilde e d h refl
unary_check-Makes Tag.exclaim e d h = logic_not-Makes Tag.exclaim e d h refl
unary_check-Makes Tag.star e d h = deref-Makes Tag.star e d h refl
unary_check-Makes Tag.amp e d h = addr-Makes Tag.amp e d h refl
unary_check-Makes _ e d h = fails

-- A unary node made of a typed expression has this operator, that expression under conversions as
-- its operand, and follows the typing rules.
pub make_unary-Makes : (op : Tag) (e : Expr) → Typed e → Post (MakesUnary op e) (make_unary op e)
unfolding make_unary
make_unary-Makes Tag.amp e h =
    unary_check-Makes Tag.amp e e (record { coerced = unchanged; typed = h })
make_unary-Makes op e h =
    Post-bind (decay-Stands e e (record { coerced = unchanged; typed = h }))
      λ d g. unary_check-Makes op e d g
