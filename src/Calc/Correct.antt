-- ===== src/Calc/Correct.antt =====
-- Under the laws of LLVM: `Calc` on each class of expressions, from what it gives for the operands.
use mathlib.Core.Bool.{and-eq-true_iff}
use kcc.Ast.Expr.{Expr, ty_of}
use kcc.Calc.Cast.{CalcError, constant_cast_to}
use kcc.Calc.Casts.{
  is_bit-int_type, cast_bool-int, logic_not-int, neg-Stands, not-Stands, integer_cast-encode,
}
use kcc.Calc.Chosen.{is_integer-int, bit-lt}
use kcc.Calc.Eval.{Globals, calc, visit_constant, visit_enumerator, unary_op}
use kcc.Calc.Folds.{is_unsigned_sign}
use kcc.Calc.Kinds.{bits-IsWidth, llvm_type-bits, truth-bits, integer_ty}
use kcc.Calc.Llvm.{Llvm, IntegerLaws, bit}
use kcc.Calc.Value.{
  sign, bits, is_whole, is_truth, truth, complement, in_word, converted, constant_value,
}
use kcc.Calc.Word.{w1, w32, encode, read, encode-lt, read_zero}
use kcc.Prelude.{
  ◌||◌, subst, ap, ℕ, ◌%◌, ◌^◌, ◌<◌, Bool, true, false, not, ◌&&◌, ◌≡◌, refl, sym, ◌∙◌, some, ◌==◌,
  arith, inl, inr, ◌⊎◌, Bool-cases, if_true, if_false, Bytes,
}
use kcc.Prelude.Int.{ℤ, pos, ◌-ℤ◌, ◌==ℤ◌}
use kcc.Prelude.Options.{none_some, some_injective}
use kcc.Prelude.Results.{Result, ok, ◌>>=◌}
use kcc.Token.{Tag}
use kcc.Ty.Arithmetic.{ArithmeticType}
use kcc.Ty.CType.{Ty}
use kcc.Ty.Conversion.{Sign, signed, unsigned}

not-not : (t : Bool) → not (not t) ≡ t
not-not true = refl
not-not false = refl

bit-lt32 : (t : Bool) → bit t < 2 ^ 32
bit-lt32 true = omega arith
bit-lt32 false = omega arith

module _ (llvm : Llvm) (laws : IntegerLaws llvm) (globals : Globals llvm) where
  open llvm use {Constant, int_type, get_int, is_zero_value}

  -- The result is the constant of the type `a` that stands for `z`.
  abbrev pub Holds : ArithmeticType → ℤ → Result CalcError Constant → Type 0
  Holds a z r =
      (b : ℕ) × (b < 2 ^ bits a)
      × (r ≡ ok (get_int (int_type (bits a)) b))
      × (read (sign a) (bits a) b ≡ z)

  -- The expression has an integer type and its evaluation gives the constant for `z`.
  abbrev pub Evaluates : Expr → ℤ → Type 0
  Evaluates e z =
      (a : ArithmeticType) × (ty_of e ≡ Ty.arithmetic a)
      × (is_whole a ≡ true)
      × Holds a z (calc llvm globals e)

  -- `ConstantInt::get` keeps the low bits.
  truncated-Holds :
      (a : ArithmeticType) (v : ℕ)
      → is_whole a ≡ true
      → Holds a (read (sign a) (bits a) (v % 2 ^ bits a)) (ok (get_int (int_type (bits a)) v))
  unfolding encode
  truncated-Holds a v w = (
    v % 2 ^ bits a,
    encode-lt (bits a) (bits-IsWidth a w) (pos v),
    ap ok (laws.truncated (bits a) v (bits-IsWidth a w)),
    refl,
  )

  pub constant-Evaluates :
      (a : ArithmeticType) (v : ℕ) {z : ℤ}
      → constant_value a v ≡ some z
      → Evaluates (Expr.constant a v) z
  unfolding constant_value calc visit_constant
  constant-Evaluates a v h = elim (Bool-cases (is_whole a && not (is_truth a))) [
    | inr n ↦ absurd (none_some (sym (if_false _ _ n) ∙ h))
    | inl w ↦
        let whole_a = ((and-eq-true_iff _ _).0 w).0 in
        (
          a,
          refl,
          whole_a,
          rw
              (
                integer_ty a w,
                llvm_type-bits llvm a whole_a,
                sym (some_injective (sym (if_true _ _ w) ∙ h)),
              )
              (truncated-Holds a v whole_a),
        )
  ]

  low_bits : (v : ℕ) → encode 64 (read signed 32 (v % 2 ^ 32)) % 2 ^ 32 ≡ v % 2 ^ 32
  unfolding encode read
  low_bits v = ground arith

  pub enumerator-Evaluates :
      (n : Bytes) (v : ℕ) → Evaluates (Expr.enumerator n v) (read signed 32 (v % 2 ^ 32))
  unfolding calc visit_enumerator
  enumerator-Evaluates n v = (
    ArithmeticType.int,
    refl,
    refl,
    rw (llvm_type-bits llvm ArithmeticType.int refl) (
      v % 2 ^ 32,
      omega arith,
      ap ok (laws.truncated 32 _ w32 ∙ ap (λ x. get_int (int_type 32) x) (low_bits v)),
      refl,
    ),
  )

  bit-truth :
      (s : Sign) (w : ℕ)
      → (w ≡ 1) × (s ≡ unsigned) ⊎ (w ≡ 32)
      → (t : Bool) → read s w (bit t) ≡ truth t
  unfolding read
  bit-truth s w (inl (e, f)) true = rw (e, f) refl
  bit-truth s w (inl (e, f)) false = rw (e, f) refl
  bit-truth unsigned w (inr e) true = refl
  bit-truth unsigned w (inr e) false = refl
  bit-truth signed w (inr e) true = rw e refl
  bit-truth signed w (inr e) false = rw e refl

  pub zero_pattern :
      (a : ArithmeticType) (x : ℤ) (b : ℕ)
      → is_whole a ≡ true
      → read (sign a) (bits a) b ≡ x
      → (b == 0) ≡ (x ==ℤ pos 0)
  zero_pattern a x b wa h =
      sym (read_zero (sign a) (bits a) (bits-IsWidth a wa) b) ∙ ap (λ y. y ==ℤ pos 0) h

  -- The `int` that a comparison or a logical operator gives.
  pub truth-Holds :
      (t : Bool) → Holds ArithmeticType.int (truth t) (ok (get_int (int_type 32) (bit t)))
  truth-Holds t = (bit t, bit-lt32 t, refl, bit-truth signed 32 (inr refl) t)

  bool_of_truth : (a : ArithmeticType) → is_truth a ≡ true → a ≡ ArithmeticType.bool
  bool_of_truth ArithmeticType.bool h = refl
  bool_of_truth _ h = cc

  pub cast-Holds :
      (a c : ArithmeticType) (x : ℤ) (r : Result CalcError Constant)
      → is_whole a ≡ true
      → is_whole c ≡ true
      → (is_truth c || not (bits a == bits c)) ≡ true
      → Holds a x r
      → Holds c
          (converted c x)
          (r >>= λ v. constant_cast_to llvm v (int_type (bits c)) (is_unsigned_sign (sign a)))
  unfolding constant_cast_to converted
  cast-Holds a c x r wa wc d (b, lb, eb, rb) = elim (Bool-cases (is_truth c)) [
    | inl t ↦
        rw
          (
            bool_of_truth c t,
            eb,
            is_bit-int_type llvm laws globals 1 w1,
            cast_bool-int llvm laws globals (bits a) (bits-IsWidth a wa) b lb,
            zero_pattern a x b wa rb,
          )
          (
            bit (not (x ==ℤ pos 0)),
            bit-lt (not (x ==ℤ pos 0)),
            refl,
            bit-truth unsigned 1 (inl (refl, refl)) (not (x ==ℤ pos 0)),
          )
    | inr n ↦ (
      encode (bits c) x,
      encode-lt (bits c) (bits-IsWidth c wc) x,
      rw
          (
            eb,
            is_bit-int_type llvm laws globals (bits c) (bits-IsWidth c wc),
            truth-bits c wc,
            n,
            is_integer-int llvm laws globals (bits a) b (bits-IsWidth a wa),
            laws.integer_type (bits c) (bits-IsWidth c wc),
          )
          (ap ok (
            integer_cast-encode llvm laws globals (sign a) (bits a) (bits c) (bits-IsWidth a wa)
              (bits-IsWidth c wc) (ground (arith, n, d)) b lb
            ∙ ap (λ y. get_int (int_type (bits c)) (encode (bits c) y)) rb)),
      sym (if_false _ _ n),
    )
  ]

  pub minus-Holds :
      (a : ArithmeticType) {x z : ℤ} {r : Result CalcError Constant}
      → is_whole a ≡ true
      → Holds a x r
      → in_word (sign a) (bits a) (pos 0 -ℤ x) ≡ some z
      → Holds a z (unary_op llvm globals Tag.minus (is_unsigned_sign (sign a)) r)
  unfolding unary_op
  minus-Holds a wa (b, lb, eb, rb) h =
      let (c, lc, rc, ec) =
        neg-Stands llvm laws globals (sign a) (bits a) (bits-IsWidth a wa) b lb (rw rb h) in
      (c, lc, rw eb ec, rc)

  pub tilde-Holds :
      (a : ArithmeticType) (u : Bool) {x z : ℤ} {r : Result CalcError Constant}
      → is_whole a ≡ true
      → Holds a x r
      → in_word (sign a) (bits a) (complement x) ≡ some z
      → Holds a z (unary_op llvm globals Tag.tilde u r)
  unfolding unary_op
  tilde-Holds a u wa (b, lb, eb, rb) h =
      let (c, lc, rc, ec) =
        not-Stands llvm laws globals (sign a) (bits a) (bits-IsWidth a wa) b lb (rw rb h) in
      (c, lc, rw eb (ap ok ec), rc)

  pub exclaim-Holds :
      (a : ArithmeticType) (u : Bool) {x : ℤ} {r : Result CalcError Constant}
      → is_whole a ≡ true
      → Holds a x r
      → Holds ArithmeticType.int (truth (x ==ℤ pos 0)) (unary_op llvm globals Tag.exclaim u r)
  unfolding unary_op
  exclaim-Holds a u wa (b, lb, eb, rb) =
      rw (eb, logic_not-int llvm laws globals (bits a) (bits-IsWidth a wa) b lb)
        (subst
          (λ t.
            Holds ArithmeticType.int (truth t)
              (ok (get_int (int_type 32) (bit (not (not (b == 0)))))))
          (zero_pattern a _ b wa rb) (rw (not-not (b == 0)) (truth-Holds (b == 0))))
