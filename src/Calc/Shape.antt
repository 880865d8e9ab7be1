-- ===== src/Calc/Shape.antt =====
-- The rules of the binary operators for two operands of integer types, and the values they have.
use kcc.Ast.Kinds.{is_pointer}
use kcc.Ast.Rules.{BinaryRule, arithmetic_op, integer_op, comparison_op, logical_op}
use kcc.Calc.Value.{
  sign, bits, is_whole, whole, truth, arithmetic_value, truth_value, binary_value, arithmetic_in,
}
use kcc.Prelude.{
  subst, ap, ℕ, Bool, true, false, ◌||◌, ◌≡◌, refl, sym, ◌∙◌, Option, none, some, arith, inl, inr,
  ◌⊎◌, if_true,
}
use kcc.Prelude.Int.{ℤ}
use kcc.Prelude.Options.{none_some, some_injective}
use kcc.Token.{Tag}
use kcc.Ty.Arithmetic.{ArithmeticType}
use kcc.Ty.CType.{Ty}
use kcc.Ty.Conversion.{Sign}

-- The rules for two operands of integer types.
pub data Shape (op : Tag) (a b : ArithmeticType) (t : Ty) : Type 0 where
  same : (arithmetic_op op || integer_op op) ≡ true → b ≡ a → t ≡ Ty.arithmetic a → Shape op a b t
  compared : comparison_op op ≡ true → b ≡ a → t ≡ Ty.arithmetic ArithmeticType.int → Shape op a b t
  logical : logical_op op ≡ true → t ≡ Ty.arithmetic ArithmeticType.int → Shape op a b t
  valueless : (op ≡ Tag.equal) ⊎ ((op ≡ Tag.period) ⊎ (op ≡ Tag.comma)) → Shape op a b t

pub or_left : (x y : Bool) → x ≡ true → (x || y) ≡ true
or_left x y h = rw h refl

pub or_right : (x y : Bool) → y ≡ true → (x || y) ≡ true
or_right x y h = ground (arith, h)

arithmetic_injective : {a b : ArithmeticType} → Path Ty (Ty.arithmetic a) (Ty.arithmetic b) → a ≡ b
arithmetic_injective h = cc

no_pointer : ¬ Path Bool false true
no_pointer h = cc

pub shape :
    (op : Tag) {a b : ArithmeticType} {l r t : Ty}
    → BinaryRule op l r t
    → l ≡ Ty.arithmetic a
    → r ≡ Ty.arithmetic b
    → Shape op a b t
shape op (BinaryRule.numbers o) p q = same (or_left _ _ o) (arithmetic_injective (sym q ∙ p)) p
shape op (BinaryRule.integers o i) p q = same (or_right _ _ o) (arithmetic_injective (sym q ∙ p)) p
shape op (BinaryRule.offset o i) p q = absurd (no_pointer (sym (ap is_pointer p) ∙ i))
shape op (BinaryRule.difference o i c) p q = absurd (no_pointer (sym (ap is_pointer p) ∙ i))
shape op (BinaryRule.logical o i j) p q = logical o refl
shape op (BinaryRule.compared_numbers o) p q = compared o (arithmetic_injective (sym q ∙ p)) refl
shape op (BinaryRule.compared_pointers o i c) p q = absurd (no_pointer (sym (ap is_pointer p) ∙ i))
shape op (BinaryRule.assigned o e) p q = valueless (inl o)
shape op (BinaryRule.last_operand o) p q = valueless (inr o)

without_type :
    (op : Tag) (o : Option ArithmeticType) (x y : ℤ) {z : ℤ}
    → ((s : Sign) (w : ℕ) → arithmetic_value op s w x y ≡ none)
    → ¬ (arithmetic_in op o x y ≡ some z)
without_type op none x y n h = none_some h
without_type op (some a) x y n h = none_some (sym (n (sign a) (bits a)) ∙ h)

pub valueless_none :
    (op : Tag) (t : Ty) (x y : ℤ) {z : ℤ}
    → (op ≡ Tag.equal) ⊎ ((op ≡ Tag.period) ⊎ (op ≡ Tag.comma))
    → ¬ (binary_value op t x y ≡ some z)
unfolding binary_value arithmetic_value truth_value
valueless_none op t x y {z} (inl e) h =
    without_type Tag.equal (whole t) x y (λ s w. refl)
      (subst (λ o. binary_value o t x y ≡ some z) e h)
valueless_none op t x y {z} (inr (inl e)) h =
    without_type Tag.period (whole t) x y (λ s w. refl)
      (subst (λ o. binary_value o t x y ≡ some z) e h)
valueless_none op t x y {z} (inr (inr e)) h =
    without_type Tag.comma (whole t) x y (λ s w. refl)
      (subst (λ o. binary_value o t x y ≡ some z) e h)

whole_arithmetic : (a : ArithmeticType) → is_whole a ≡ true → whole (Ty.arithmetic a) ≡ some a
whole_arithmetic a h = if_true _ _ h

pub value_in_type :
    (op : Tag) (a : ArithmeticType) (x y : ℤ)
    → (arithmetic_op op || integer_op op) ≡ true
    → is_whole a ≡ true
    → binary_value op (Ty.arithmetic a) x y ≡ arithmetic_value op (sign a) (bits a) x y
unfolding binary_value truth_value
value_in_type Tag.plus a x y o h = ap (λ w. arithmetic_in Tag.plus w x y) (whole_arithmetic a h)
value_in_type Tag.minus a x y o h = ap (λ w. arithmetic_in Tag.minus w x y) (whole_arithmetic a h)
value_in_type Tag.star a x y o h = ap (λ w. arithmetic_in Tag.star w x y) (whole_arithmetic a h)
value_in_type Tag.slash a x y o h = ap (λ w. arithmetic_in Tag.slash w x y) (whole_arithmetic a h)
value_in_type Tag.percent a x y o h =
    ap (λ w. arithmetic_in Tag.percent w x y) (whole_arithmetic a h)
value_in_type Tag.amp a x y o h = ap (λ w. arithmetic_in Tag.amp w x y) (whole_arithmetic a h)
value_in_type Tag.pipe a x y o h = ap (λ w. arithmetic_in Tag.pipe w x y) (whole_arithmetic a h)
value_in_type Tag.caret a x y o h = ap (λ w. arithmetic_in Tag.caret w x y) (whole_arithmetic a h)
value_in_type Tag.less_less a x y o h =
    ap (λ w. arithmetic_in Tag.less_less w x y) (whole_arithmetic a h)
value_in_type Tag.greater_greater a x y o h =
    ap (λ w. arithmetic_in Tag.greater_greater w x y) (whole_arithmetic a h)
value_in_type _ a x y o h = cc

-- An operator of the other kind gives 0 or 1.
pub value_of_truth :
    (op : Tag) (t : Ty) (x y : ℤ) {z : ℤ}
    → (comparison_op op || logical_op op) ≡ true
    → binary_value op t x y ≡ some z
    → (b : Bool) × (truth_value op x y ≡ some b) × (truth b ≡ z)
unfolding binary_value truth_value
value_of_truth Tag.less u x y o h = (_, refl, some_injective h)
value_of_truth Tag.greater u x y o h = (_, refl, some_injective h)
value_of_truth Tag.less_equal u x y o h = (_, refl, some_injective h)
value_of_truth Tag.greater_equal u x y o h = (_, refl, some_injective h)
value_of_truth Tag.equal_equal u x y o h = (_, refl, some_injective h)
value_of_truth Tag.exclaim_equal u x y o h = (_, refl, some_injective h)
value_of_truth Tag.amp_amp u x y o h = (_, refl, some_injective h)
value_of_truth Tag.pipe_pipe u x y o h = (_, refl, some_injective h)
value_of_truth _ t x y o h = cc
