-- ===== src/Calc/Chosen.antt =====
-- Under the laws of LLVM: the instruction that an operator on integer constants chooses.
use kcc.Ast.Rules.{comparison_op, arithmetic_op, integer_op}
use kcc.Calc.Cast.{CalcError, is_integer}
use kcc.Calc.Eval.{Globals, binary_op, division}
use kcc.Calc.Folds.{opcode, predicate, is_unsigned_sign, fold-Stands, compare-truth}
use kcc.Calc.Llvm.{Llvm, IntegerLaws, CastOpcode, bit}
use kcc.Calc.Operators.{
  add_op, sub_op, sub_numbers, mul_op, div_op, mod_op, less_op, less_equal_op, greater_op,
  greater_equal_op, equal_op, not_equal_op,
}
use kcc.Calc.Value.{arithmetic_value, truth_value}
use kcc.Calc.Word.{read, IsWidth, w1, w32, read_zero}
use kcc.Prelude.{
  ap, ℕ, ◌^◌, ◌<◌, Bool, true, false, ◌||◌, ◌≡◌, refl, sym, ◌∙◌, some, ◌==◌, arith, inl, inr,
  Bool-cases, if_true, if_false,
}
use kcc.Prelude.Int.{ℤ}
use kcc.Prelude.Options.{none_some}
use kcc.Prelude.Results.{Result, ok}
use kcc.Token.{Tag}
use kcc.Ty.Conversion.{Sign}

abbrev divides : Tag → Bool
divides Tag.slash = true
divides Tag.percent = true
divides _ = false

-- The operators that divide have no value for a zero pattern.
nonzero :
    (op : Tag) (s : Sign) (w : ℕ)
    → IsWidth w
    → (a b : ℕ) {z : ℤ} → divides op ≡ true
    → arithmetic_value op s w (read s w a) (read s w b) ≡ some z
    → (b == 0) ≡ false
unfolding arithmetic_value
nonzero Tag.slash s w iw a b d h = elim (Bool-cases (b == 0)) [
  | inr n ↦ n
  | inl e ↦ absurd (none_some (sym (if_true _ _ (read_zero s w iw b ∙ e)) ∙ h))
]
nonzero Tag.percent s w iw a b d h = elim (Bool-cases (b == 0)) [
  | inr n ↦ n
  | inl e ↦ absurd (none_some (sym (if_true _ _ (read_zero s w iw b ∙ e)) ∙ h))
]
nonzero _ s w iw a b d h = cc

pub bit-lt : (t : Bool) → bit t < 2 ^ 1
bit-lt true = omega arith
bit-lt false = omega arith

module _ (llvm : Llvm) (laws : IntegerLaws llvm) (globals : Globals llvm) where
  open llvm use {Constant, int_type, get_int, is_zero_value, get, get_cast, get_icmp}
  open laws use {constant_type, integer_type, integer_width, zero_value}

  abbrev pub int : ℕ → ℕ → Constant
  int w v = get_int (int_type w) v

  pub is_integer-int : (w v : ℕ) → IsWidth w → is_integer llvm (int w v) ≡ true
  is_integer-int w v iw = rw (is_integer, constant_type w v iw) (integer_type w iw)

  division-ok :
      (f : Constant → Constant → Result CalcError Constant) (l r : Constant)
      → is_zero_value r ≡ false
      → division llvm globals f (ok l) (ok r) ≡ f l r
  unfolding division
  division-ok f l r h = if_false _ _ h

  -- The operators whose instruction takes the operands as they are.
  chosen :
      (op : Tag) (u : Bool) (w a : ℕ) (r : Constant)
      → IsWidth w
      → (arithmetic_op op || integer_op op) ≡ true
      → (divides op ≡ true → is_zero_value r ≡ false)
      → binary_op llvm globals op u (ok (int w a)) (ok r) ≡ ok (get (opcode op u) (int w a) r)
  unfolding binary_op add_op sub_op sub_numbers mul_op div_op
  chosen Tag.plus u w a r iw o n = if_true _ _ (is_integer-int w a iw)
  chosen Tag.minus u w a r iw o n = rw (is_integer-int w a iw) refl
  chosen Tag.star u w a r iw o n = if_true _ _ (is_integer-int w a iw)
  chosen Tag.slash u w a r iw o n =
      division-ok (λ x y. div_op llvm x y u) (int w a) r (n refl)
      ∙ if_true _ _ (is_integer-int w a iw)
  chosen Tag.percent u w a r iw o n =
      division-ok (λ x y. ok (mod_op llvm x y u)) (int w a) r (n refl)
  chosen Tag.amp u w a r iw o n = refl
  chosen Tag.pipe u w a r iw o n = refl
  chosen Tag.caret u w a r iw o n = refl
  chosen Tag.less_less u w a r iw o n = refl
  chosen Tag.greater_greater u w a r iw o n = refl
  chosen _ u w a r iw o n = cc

  compared :
      (op : Tag) (u : Bool) (w a : ℕ) (r : Constant)
      → IsWidth w
      → comparison_op op ≡ true
      → binary_op llvm globals op u (ok (int w a)) (ok r)
        ≡ ok (get_cast CastOpcode.zext (get_icmp (predicate op u) (int w a) r) (int_type 32))
  unfolding binary_op less_op less_equal_op greater_op greater_equal_op equal_op not_equal_op
  compared Tag.less u w a r iw o = if_true _ _ (is_integer-int w a iw)
  compared Tag.less_equal u w a r iw o = if_true _ _ (is_integer-int w a iw)
  compared Tag.greater u w a r iw o = if_true _ _ (is_integer-int w a iw)
  compared Tag.greater_equal u w a r iw o = if_true _ _ (is_integer-int w a iw)
  compared Tag.equal_equal u w a r iw o = rw (is_integer-int w a iw) refl
  compared Tag.exclaim_equal u w a r iw o = rw (is_integer-int w a iw) refl
  compared _ u w a r iw o = cc

  -- An operator whose result has the type of its operands.
  pub binary-Stands :
      (op : Tag) (s : Sign) (w : ℕ)
      → IsWidth w
      → (a b : ℕ) → a < 2 ^ w
      → b < 2 ^ w
      → {z : ℤ} → (arithmetic_op op || integer_op op) ≡ true
      → arithmetic_value op s w (read s w a) (read s w b) ≡ some z
      → (c : ℕ) × (c < 2 ^ w)
        × (read s w c ≡ z)
        × (binary_op llvm globals op (is_unsigned_sign s) (ok (int w a)) (ok (int w b))
            ≡ ok (int w c))
  binary-Stands op s w iw a b ha hb o h =
      let (c, p, q, r) = fold-Stands w iw a b ha hb op s h in
      (
        c,
        q,
        r,
        chosen op (is_unsigned_sign s) w a (int w b) iw o
              (λ d. zero_value w b iw hb ∙ nonzero op s w iw a b d h)
            ∙ ap ok (laws.binary_law (opcode op (is_unsigned_sign s)) w a b iw ha hb p),
      )

  -- A comparison.
  pub compare-Stands :
      (op : Tag) (s : Sign) (w : ℕ)
      → IsWidth w
      → (a b : ℕ) → a < 2 ^ w
      → b < 2 ^ w
      → {t : Bool} → comparison_op op ≡ true
      → truth_value op (read s w a) (read s w b) ≡ some t
      → binary_op llvm globals op (is_unsigned_sign s) (ok (int w a)) (ok (int w b))
        ≡ ok (int 32 (bit t))
  compare-Stands op s w iw a b ha hb {t} o h =
      compared op (is_unsigned_sign s) w a (int w b) iw o
      ∙ ap (λ x. ok (get_cast CastOpcode.zext x (int_type 32)))
          (laws.icmp_law (predicate op (is_unsigned_sign s)) w a b iw ha hb
            (compare-truth w iw a b ha hb op s o h))
      ∙ ap ok (laws.zext_law 1 32 (bit t) w1 w32 (bit-lt t) (omega arith))
