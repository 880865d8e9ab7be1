-- ===== src/Calc/Binary.antt =====
-- Under the laws of LLVM: the binary operators and `?:` on operands that have values.
use kcc.Ast.Rules.{arithmetic_op, integer_op, comparison_op, logical_op}
use kcc.Calc.Cast.{CalcError}
use kcc.Calc.Chosen.{binary-Stands, compare-Stands}
use kcc.Calc.Correct.{Holds, truth-Holds, zero_pattern}
use kcc.Calc.Eval.{Globals, visit_binary, binary_op, logic_or_op, logic_and_op}
use kcc.Calc.Folds.{is_unsigned_sign}
use kcc.Calc.Kinds.{bits-IsWidth}
use kcc.Calc.Llvm.{Llvm, IntegerLaws}
use kcc.Calc.Word.{read}
use kcc.Calc.Value.{sign, bits, is_whole, truth, arithmetic_value, truth_value, binary_value}
use kcc.Prelude.{
  subst, ℕ, Bool, true, false, not, ◌&&◌, ◌||◌, ◌≡◌, refl, sym, ◌∙◌, some, ◌<◌, ◌^◌, if◌then◌else◌,
}
use kcc.Prelude.Int.{ℤ, pos, ◌==ℤ◌}
use kcc.Prelude.Options.{some_injective}
use kcc.Prelude.Results.{Result, ok}
use kcc.Token.{Tag}
use kcc.Ty.Arithmetic.{ArithmeticType}
use kcc.Ty.CType.{Ty}
use kcc.Calc.Shape.{
  Shape, same, compared, logical, valueless, or_left, or_right, valueless_none, value_in_type,
  value_of_truth,
}

module _ (llvm : Llvm) (laws : IntegerLaws llvm) (globals : Globals llvm) where
  open llvm use {Constant, int_type, get_int, is_zero_value}

  -- The result has the type `t`.
  abbrev pub TypedHolds : Ty → ℤ → Result CalcError Constant → Type 0
  TypedHolds t z r =
      (a : ArithmeticType) × (t ≡ Ty.arithmetic a)
      × (is_whole a ≡ true)
      × Holds llvm laws globals a z r

  same-Holds :
      (op : Tag) (a : ArithmeticType) (x y : ℤ) {z : ℤ} (l r : Result CalcError Constant)
      → (arithmetic_op op || integer_op op) ≡ true
      → is_whole a ≡ true
      → Holds llvm laws globals a x l
      → Holds llvm laws globals a y r
      → arithmetic_value op (sign a) (bits a) x y ≡ some z
      → Holds llvm laws globals a z (visit_binary llvm globals op (is_unsigned_sign (sign a)) l r)
  unfolding visit_binary
  same-Holds op a x y l r o wa (b, lb, eb, rb) (c, lc, ec, rc) h =
      let (d, ld, rd, ed) =
        binary-Stands llvm laws globals op (sign a) (bits a) (bits-IsWidth a wa) b c lb lc o
          (rw (rb, rc) h) in
      (d, ld, rw (eb, ec) ed, rd)

  compared-Holds :
      (op : Tag) (a : ArithmeticType) (x y : ℤ) {t : Bool} (l r : Result CalcError Constant)
      → comparison_op op ≡ true
      → is_whole a ≡ true
      → Holds llvm laws globals a x l
      → Holds llvm laws globals a y r
      → truth_value op x y ≡ some t
      → Holds llvm laws globals ArithmeticType.int
          (truth t)
          (visit_binary llvm globals op (is_unsigned_sign (sign a)) l r)
  unfolding visit_binary
  compared-Holds op a x y {t} l r o wa (b, lb, eb, rb) (c, lc, ec, rc) h =
      rw
        (
          eb,
          ec,
          compare-Stands llvm laws globals op (sign a) (bits a) (bits-IsWidth a wa) b c lb lc
              {t = t} o (rw (rb, rc) h),
        )
        (truth-Holds llvm laws globals t)

  -- The test that the logical operators and `?:` make of an operand.
  pub zero-test :
      (a : ArithmeticType) (x : ℤ) (b : ℕ)
      → is_whole a ≡ true
      → b < 2 ^ bits a
      → read (sign a) (bits a) b ≡ x
      → is_zero_value (get_int (int_type (bits a)) b) ≡ (x ==ℤ pos 0)
  zero-test a x b wa lb h =
      laws.zero_value (bits a) b (bits-IsWidth a wa) lb ∙ zero_pattern llvm laws globals a x b wa h

  and-Holds :
      (p q : Bool) {t : Bool}
      → (not p && not q) ≡ t
      → Holds llvm laws globals ArithmeticType.int (truth t) (
          if p
          then ok (get_int (int_type 32) 0)
          else ok (get_int (int_type 32) (if not q then 1 else 0)))
  and-Holds true q h = rw (sym h) (truth-Holds llvm laws globals false)
  and-Holds false true h = rw (sym h) (truth-Holds llvm laws globals false)
  and-Holds false false h = rw (sym h) (truth-Holds llvm laws globals true)

  or-Holds :
      (p q : Bool) {t : Bool}
      → (not p || not q) ≡ t
      → Holds llvm laws globals ArithmeticType.int (truth t) (
          if p
          then ok (get_int (int_type 32) (if not q then 1 else 0))
          else ok (get_int (int_type 32) 1))
  or-Holds false q h = rw (sym h) (truth-Holds llvm laws globals true)
  or-Holds true true h = rw (sym h) (truth-Holds llvm laws globals false)
  or-Holds true false h = rw (sym h) (truth-Holds llvm laws globals true)

  logical-Holds :
      (op : Tag) (u : Bool) (a c : ArithmeticType) (x y : ℤ) {t : Bool}
      (l r : Result CalcError Constant)
      → logical_op op ≡ true
      → is_whole a ≡ true
      → is_whole c ≡ true
      → Holds llvm laws globals a x l
      → Holds llvm laws globals c y r
      → truth_value op x y ≡ some t
      → Holds llvm laws globals ArithmeticType.int (truth t) (visit_binary llvm globals op u l r)
  unfolding visit_binary binary_op logic_or_op logic_and_op truth_value
  logical-Holds Tag.amp_amp u a c x y l r o wa wc (b, lb, eb, rb) (d, ld, ed, rd) h =
      rw (eb, ed, zero-test a x b wa lb rb, zero-test c y d wc ld rd)
        (and-Holds (x ==ℤ pos 0) (y ==ℤ pos 0) (some_injective h))
  logical-Holds Tag.pipe_pipe u a c x y l r o wa wc (b, lb, eb, rb) (d, ld, ed, rd) h =
      rw (eb, ed, zero-test a x b wa lb rb, zero-test c y d wc ld rd)
        (or-Holds (x ==ℤ pos 0) (y ==ℤ pos 0) (some_injective h))
  logical-Holds _ u a c x y l r o wa wc hl hr h = cc

  -- A binary operator on two operands of integer types, by the rule of its node.
  pub Shape-Holds :
      (op : Tag) (a c : ArithmeticType) (t : Ty) (x y : ℤ) {z : ℤ} (l r : Result CalcError Constant)
      → Shape op a c t
      → is_whole a ≡ true
      → is_whole c ≡ true
      → Holds llvm laws globals a x l
      → Holds llvm laws globals c y r
      → binary_value op t x y ≡ some z
      → TypedHolds t z (visit_binary llvm globals op (is_unsigned_sign (sign a)) l r)
  Shape-Holds op a c t x y {z} l r (same o e f) wa wc hl hr h = (
    a,
    f,
    wa,
    same-Holds op a x y l r o wa hl (subst (λ d. Holds llvm laws globals d y r) e hr)
        (sym (value_in_type op a x y o wa) ∙ subst (λ u. binary_value op u x y ≡ some z) f h),
  )
  Shape-Holds op a c t x y l r (compared o e f) wa wc hl hr h =
      let (b, p, q) = value_of_truth op t x y (or_left _ _ o) h in
      (
        ArithmeticType.int,
        f,
        refl,
        rw (sym q) (
            compared-Holds op a x y l r o wa hl (subst (λ d. Holds llvm laws globals d y r) e hr)
              p),
      )
  Shape-Holds op a c t x y l r (logical o f) wa wc hl hr h =
      let (b, p, q) = value_of_truth op t x y (or_right _ _ o) h in
      (
        ArithmeticType.int,
        f,
        refl,
        rw (sym q) (logical-Holds op (is_unsigned_sign (sign a)) a c x y l r o wa wc hl hr p),
      )
  Shape-Holds op a c t x y l r (valueless o) wa wc hl hr h = absurd (valueless_none op t x y o h)
