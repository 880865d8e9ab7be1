-- ===== src/Ast/BinaryTyped.antt =====
-- `BinaryOpExpr` follows the rules.
use kcc.Ast.Binary.{
  assign_op_check, converted, add_op_check, sub_op_check, multi_op_check, bitwise_op_check,
  shift_op_check, logical_op_check, is_percent, ulong_type,
}
use kcc.Ast.Casts.{
  Stands, may_cast_to-Stands, may_cast_to-number, promoted-cases, convert-Converted,
  equal-arithmetic, max_of-integer_or_bool,
}
use kcc.Ast.Expr.{
  Expr, type_of, ty_of, is_lvalue, is_const, is_zero, may_cast_to, ensure_compatible,
}
use kcc.Ast.Kinds.{is_pointer, is_arithmetic, is_integer, is_integer_or_bool, is_scalar}
use kcc.Ast.Rules.{
  Typed, Coerced, BinaryRule, numbers, integers, offset, difference, logical, assigned, LeftOperand,
  arithmetic_op, integer_op, additive_op, logical_op, comparison_op,
}
use kcc.Prelude.{true, not, ◌&&◌, ◌||◌, ◌≡◌, refl, if◌then◌else◌, Bool-cases, inl, inr, arith}
use kcc.Prelude.Results.{ok, ◌>>=◌, Post, holds, fails, Post-bind, Post-if}
use kcc.Token.{Tag}
use kcc.Ty.Arithmetic.{ArithmeticType}
use kcc.Ty.CType.{Ty, QualType, qual, get_type}
use kcc.Ty.Equal.{equal, compatible}

-- The node that `op` makes of `l` and `r`: its operands are `l` and `r` under conversions, or `r` and
-- `l` where the check exchanges them, and the rules hold.
pub data MakesBinary (op : Tag) (l r : Expr) : Expr → Type 0 where
  in_order :
      {x y : Expr} {t : QualType}
      → Coerced l x
      → Coerced r y
      → Typed (Expr.binary op x y t)
      → MakesBinary op l r (Expr.binary op x y t)
  exchanged :
      {x y : Expr} {t : QualType}
      → Coerced l y
      → Coerced r x
      → Typed (Expr.binary op x y t)
      → MakesBinary op l r (Expr.binary op x y t)

module _ {op : Tag} {l r x y : Expr} {t : QualType} (hl : Stands l x) (hr : Stands r y) where
  pub made :
      LeftOperand op x
      → BinaryRule op (ty_of x) (ty_of y) (get_type t)
      → MakesBinary op l r (Expr.binary op x y t)
  made o rule = in_order hl.coerced hr.coerced (Typed.binary hl.typed hr.typed o rule)

  pub made_exchanged :
      LeftOperand op x
      → BinaryRule op (ty_of x) (ty_of y) (get_type t)
      → MakesBinary op r l (Expr.binary op x y t)
  made_exchanged o rule = exchanged hr.coerced hl.coerced (Typed.binary hl.typed hr.typed o rule)

-- An operator of these kinds is no assignment.
pub no_assignment :
    {op : Tag} (x : Expr)
    → (arithmetic_op op || integer_op op || logical_op op || comparison_op op) ≡ true
    → LeftOperand op x
no_assignment {op} x o e = absurd (ground (arith, rw e at o))

additive_arithmetic :
    (op : Tag)
    → additive_op op ≡ true
    → (arithmetic_op op || integer_op op || logical_op op || comparison_op op) ≡ true
additive_arithmetic Tag.plus o = refl
additive_arithmetic Tag.minus o = refl
additive_arithmetic Tag.star o = refl
additive_arithmetic _ o = cc

pub ensure_compatible-Post : (t u : Ty) → Post (λ _. compatible t u ≡ true) (ensure_compatible t u)
unfolding ensure_compatible
ensure_compatible-Post t u =
    Post-if (not (compatible t u)) (λ _. fails) λ a. holds (ground (arith, a))

shift_rule :
    {op : Tag} {a : ArithmeticType} {t u : Ty}
    → integer_op op ≡ true
    → is_integer_or_bool (Ty.arithmetic a) ≡ true
    → t ≡ Ty.arithmetic a
    → equal u t ≡ true
    → BinaryRule op t u t
shift_rule {op} {a} {t} {u} o b e f = rw (e, equal-arithmetic u a (rw e at f)) (integers o b)

module _ (op : Tag) (l r x y : Expr) (hl : Stands l x) (hr : Stands r y) where
  converted_numbers : arithmetic_op op ≡ true → Post (MakesBinary op l r) (converted op x y)
  unfolding converted
  converted_numbers o = Post-bind (convert-Converted l r x y hl hr) λ c g. holds (
      made g.left g.right (no_assignment c.0 (ground (arith, o)))
        (rw (g.left_type, g.right_type, g.result_type) (numbers o)))

  converted_integers :
      integer_op op ≡ true
      → is_integer_or_bool (ty_of x) ≡ true
      → is_integer_or_bool (ty_of y) ≡ true
      → Post (MakesBinary op l r) (converted op x y)
  unfolding converted
  converted_integers o a b = Post-bind (convert-Converted l r x y hl hr) λ c g. holds (
      made g.left g.right (no_assignment c.0 (ground (arith, o))) (
        rw (g.left_type, g.right_type, g.result_type)
          (integers o (max_of-integer_or_bool (ty_of x) (ty_of y) g.number a b g.greatest))))

  pub assign-Makes : op ≡ Tag.equal → Post (MakesBinary op l r) (assign_op_check op x y)
  unfolding assign_op_check
  assign-Makes o =
      Post-if (is_const x) (λ _. fails)
        λ a.
          Post-if (not (is_lvalue x)) (λ _. fails)
            λ b.
              Post-if (is_pointer (ty_of x) && is_integer (ty_of y) && not (is_zero y)) (λ _. fails)
                λ _.
                  Post-bind (may_cast_to-Stands r y (type_of x) hr)
                    λ c g. holds (made hl g.0 (λ _. (a, ground (arith, b))) (assigned o g.1))

  offset_right :
      additive_op op ≡ true
      → is_pointer (ty_of x) ≡ true
      → Post
          (MakesBinary op l r)
          (may_cast_to y ulong_type >>= λ y'. ok (Expr.binary op x y' (type_of x)))
  offset_right o p =
      Post-bind (may_cast_to-number r y ArithmeticType.ulong 0 hr) λ c g.
        holds (made hl g.0 (no_assignment x (additive_arithmetic op o)) (rw g.1 (offset o p)))

  offset_left :
      additive_op op ≡ true
      → is_pointer (ty_of y) ≡ true
      → Post
          (MakesBinary op l r)
          (may_cast_to x ulong_type >>= λ x'. ok (Expr.binary op y x' (type_of y)))
  offset_left o p = Post-bind (may_cast_to-number l x ArithmeticType.ulong 0 hl) λ c g.
      holds
        (made_exchanged hr g.0 (no_assignment y (additive_arithmetic op o)) (rw g.1 (offset o p)))

  pub add-Makes : op ≡ Tag.plus → Post (MakesBinary op l r) (add_op_check op x y)
  unfolding add_op_check
  add-Makes o =
      Post-if (is_arithmetic (ty_of x) && is_arithmetic (ty_of y)) (λ _. converted_numbers (rw o))
        λ _.
          Post-if (is_integer (ty_of x) && is_pointer (ty_of y))
            (λ a. offset_left (rw o) (ground (arith, a)))
            λ _.
              Post-if (is_pointer (ty_of x) && is_integer (ty_of y))
                (λ a. offset_right (rw o) (ground (arith, a))) λ _. fails

  pub sub-Makes : op ≡ Tag.minus → Post (MakesBinary op l r) (sub_op_check op x y)
  unfolding sub_op_check ensure_compatible
  sub-Makes o =
      Post-if (is_arithmetic (ty_of x) && is_arithmetic (ty_of y)) (λ _. converted_numbers (rw o))
        λ _.
          Post-if (is_pointer (ty_of x) && is_integer (ty_of y))
            (λ a. offset_right (rw o) (ground (arith, a)))
            λ _.
              Post-if (is_pointer (ty_of x) && is_pointer (ty_of y))
                (λ a. Post-bind (ensure_compatible-Post (ty_of x) (ty_of y)) λ _ c.
                  holds (made hl hr (no_assignment x (rw o)) (difference o (ground (arith, a)) c)))
                (λ _. fails)

  pub multi-Makes :
      (if is_percent op then integer_op op else arithmetic_op op) ≡ true
      → Post (MakesBinary op l r) (multi_op_check op x y)
  unfolding multi_op_check
  multi-Makes o =
      Post-if (is_percent op && (not (is_integer (ty_of x)) || not (is_integer (ty_of y))))
        (λ _. fails)
        λ a.
          Post-if
            (not (is_percent op)
              && (not (is_arithmetic (ty_of x)) || not (is_arithmetic (ty_of y))))
            (λ _. fails)
            λ b. elim (Bool-cases (is_percent op)) [
              | inl p ↦
                  converted_integers (ground (arith, o, p)) (ground (arith, a, p))
                    (ground (arith, a, p))
              | inr p ↦ converted_numbers (ground (arith, o, p))
            ]

  pub bitwise-Makes : integer_op op ≡ true → Post (MakesBinary op l r) (bitwise_op_check op x y)
  unfolding bitwise_op_check
  bitwise-Makes o =
      Post-if (not (is_integer_or_bool (ty_of x)) || not (is_integer_or_bool (ty_of y)))
        (λ _. fails) λ a. converted_integers o (ground (arith, a)) (ground (arith, a))

  pub shift-Makes : integer_op op ≡ true → Post (MakesBinary op l r) (shift_op_check op x y)
  unfolding shift_op_check
  shift-Makes o =
      Post-if (not (is_integer_or_bool (ty_of x)) || not (is_integer_or_bool (ty_of y)))
        (λ _. fails)
        λ a. elim (promoted-cases (ty_of x)) [
          | inl (e, p) ↦ rw p fails
          | inr (t, p, i, b) ↦ rw p (
              Post-bind (may_cast_to-number l x t 0 hl) λ x' gx.
                Post-bind (may_cast_to-Stands r y (qual (ty_of x') 0) hr) λ y' gy. holds (
                  made gx.0 gy.0 (no_assignment x' (ground (arith, o))) (shift_rule o b gx.1 gy.1)))
        ]

  pub logical-Makes : logical_op op ≡ true → Post (MakesBinary op l r) (logical_op_check op x y)
  unfolding logical_op_check
  logical-Makes o =
      Post-if (not (is_scalar (ty_of x)) || not (is_scalar (ty_of y))) (λ _. fails)
        λ a. holds (
          made hl hr (no_assignment x (ground (arith, o)))
            (logical o (ground (arith, a)) (ground (arith, a))))
