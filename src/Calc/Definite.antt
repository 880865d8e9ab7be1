-- ===== src/Calc/Definite.antt =====
-- The expressions on which `CalcConstantExpr` (src/calc.cpp) and the C standard have nothing to differ
-- in: `Visit(const BinaryOpExpr*)` evaluates both operands of `&&` and `||`, and `ConstantCastTo` asks
-- LLVM to extend an integer to its own width, which LLVM does not define.
use kcc.Ast.Expr.{Expr, ty_of}
use kcc.Calc.Value.{
  bits, is_truth, is_whole, whole, value, decided, operator_value, binary_value, truth_value, truth,
}
use kcc.Prelude.{
  Bool, true, false, not, ◌&&◌, ◌||◌, ◌==◌, ◌≡◌, refl, ap, ◌∙◌, sym, Option, none, some, if_true,
  if◌then◌else◌,
}
use kcc.Prelude.Int.{ℤ, pos, ◌==ℤ◌}
use kcc.Prelude.Options.{◌>>=◌}
use kcc.Token.{Tag}
use kcc.Ty.Arithmetic.{ArithmeticType}
use kcc.Ty.CType.{Ty, get_type}

abbrev has_value : Option ℤ → Bool
has_value none = false
has_value (some x) = true

abbrev pub resizes_to : Option ArithmeticType → Option ArithmeticType → Bool
resizes_to (some a) (some c) = is_truth c || not (bits a == bits c)
resizes_to _ _ = true

-- A cast between two integer types changes the width, or makes a truth of the number.
unfoldable pub resizes : Ty → Ty → Bool
resizes t u = resizes_to (whole t) (whole u)

unfoldable pub definite : Expr → Bool
unfolding resizes
definite (Expr.unary op e t) = definite e
definite (Expr.cast e t) = definite e && resizes (ty_of e) (get_type t)
definite (Expr.binary op l r t) = definite l && definite r && has_value (value r)
definite (Expr.condition c l r t) = definite c && definite l && definite r
definite _ = true

decided_and :
    (b c : Bool) {z : ℤ}
    → (elim (if b then some (truth false) else none) [
      | some y ↦ some y
      | none ↦ some (truth (not b && c))
    ])
      ≡ some z
    → some (truth (not b && c)) ≡ some z
decided_and true c h = h
decided_and false c h = h

decided_or :
    (b c : Bool) {z : ℤ}
    → (elim (if b then none else some (truth true)) [
      | some y ↦ some y
      | none ↦ some (truth (not b || c))
    ])
      ≡ some z
    → some (truth (not b || c)) ≡ some z
decided_or true c h = h
decided_or false c h = h

-- Where both operands have values, those that `&&` and `||` leave out are not missed.
pub operator_value-binary :
    (op : Tag) (t : Ty) (x y : ℤ) {z : ℤ}
    → operator_value op t x (some y) ≡ some z
    → binary_value op t x y ≡ some z
unfolding operator_value binary_value truth_value
operator_value-binary Tag.amp_amp t x y h = decided_and (x ==ℤ pos 0) (not (y ==ℤ pos 0)) h
operator_value-binary Tag.pipe_pipe t x y h = decided_or (x ==ℤ pos 0) (not (y ==ℤ pos 0)) h
operator_value-binary _ t x y h = h

pub has_value-some : (o : Option ℤ) → has_value o ≡ true → (y : ℤ) × (o ≡ some y)
has_value-some none h = absurd cc
has_value-some (some y) h = (y, refl)

pub resizes-parts :
    {t u : Ty} {a c : ArithmeticType}
    → t ≡ Ty.arithmetic a
    → u ≡ Ty.arithmetic c
    → is_whole a ≡ true
    → is_whole c ≡ true
    → resizes t u ≡ true
    → (is_truth c || not (bits a == bits c)) ≡ true
unfolding resizes
resizes-parts {t} {u} {a} {c} p q wa wc d =
    ap (λ o. resizes_to o (some c)) (sym (if_true _ _ wa))
    ∙ ap (λ o. resizes_to (whole (Ty.arithmetic a)) o) (sym (if_true _ _ wc))
    ∙ ap (λ x. resizes x (Ty.arithmetic c)) (sym p)
    ∙ ap (λ x. resizes t x) (sym q)
    ∙ d

pub operator_value-decided :
    (op : Tag) (t : Ty) (x : ℤ) (right : Option ℤ) {z : ℤ}
    → decided op x ≡ some z
    → operator_value op t x right ≡ some z
unfolding operator_value
operator_value-decided op t x right h =
    ap
      (λ (o : Option ℤ). elim o as (λ _. Option ℤ) [
        | some z ↦ some z
        | none ↦ right >>= λ y. binary_value op t x y
      ])
      h
