-- ===== src/Calc/Casts.antt =====
-- Under the laws of LLVM: the casts and the unary operators on integer constants.
use kcc.Calc.Cast.{is_bit, constant_cast_to_bool, get_constant_zero, integer_cast}
use kcc.Calc.Chosen.{is_integer-int, bit-lt}
use kcc.Calc.Eval.{Globals}
use kcc.Calc.Folds.{is_unsigned_sign, in_word-Stands, encoded-Stands}
use kcc.Calc.Llvm.{
  Llvm, IntegerLaws, Opcode, UnaryOpcode, CastOpcode, Predicate, fold_unary, compares, fold_binary,
  bit,
}
use kcc.Calc.Operators.{neg_op, logic_not_op}
use kcc.Calc.Value.{in_word, complement}
use kcc.Calc.Word.{encode, read, encode-read_narrow, encode_wide, IsWidth, w1, w8, w16, w32, w64}
use kcc.Prelude.{
  ap, ℕ, ◌-◌, ◌^◌, ◌<◌, Bool, true, false, not, ◌≡◌, refl, sym, ◌∙◌, some, ltb, ◌==◌, if◌then◌else◌,
  arith, inl, inr, ◌⊎◌, if_true, if_false,
}
use kcc.Prelude.Int.{ℤ, pos, ◌-ℤ◌}
use kcc.Prelude.Results.{ok}
use kcc.Ty.Conversion.{Sign, signed, unsigned}

encode-complement :
    (s : Sign) (w : ℕ)
    → IsWidth w
    → (a : ℕ) → a < 2 ^ w
    → encode w (complement (read s w a)) ≡ 2 ^ w - 1 - a
unfolding encode read
encode-complement s w w1 a h = ground arith
encode-complement s w w8 a h = ground arith
encode-complement s w w16 a h = ground arith
encode-complement s w w32 a h = ground arith
encode-complement s w w64 a h = ground arith

order : (v w : ℕ) → (v < w) ⊎ ((v ≡ w) ⊎ (w < v))
order v w = omega arith

lt-ltb : (v w : ℕ) → v < w → ltb v w ≡ true
lt-ltb v w h = ground arith

gt-ltb : (v w : ℕ) → w < v → ltb v w ≡ false
gt-ltb v w h = ground arith

module _ (llvm : Llvm) (laws : IntegerLaws llvm) (globals : Globals llvm) where
  open llvm use {Constant, int_type, type_of, get_int, get_unary, get, get_cast, get_icmp}
  open laws use {constant_type, integer_type, integer_width}

  is_bit-int : (w v : ℕ) → IsWidth w → is_bit llvm (type_of (get_int (int_type w) v)) ≡ (w == 1)
  is_bit-int w v iw = rw (is_bit, constant_type w v iw, integer_type w iw, integer_width w iw) refl

  pub is_bit-int_type : (w : ℕ) → IsWidth w → is_bit llvm (int_type w) ≡ (w == 1)
  is_bit-int_type w iw = rw (is_bit, integer_type w iw, integer_width w iw) refl

  bool-int :
      (w : ℕ)
      → IsWidth w
      → (w == 1) ≡ false
      → (a : ℕ) → a < 2 ^ w
      → 0 < 2 ^ w
      → constant_cast_to_bool llvm (get_int (int_type w) a)
        ≡ ok (get_int (int_type 1) (bit (not (a == 0))))
  unfolding constant_cast_to_bool get_constant_zero compares
  bool-int w iw n a ha hz =
      rw (is_bit-int w a iw, n, is_integer-int llvm laws globals w a iw, constant_type w a iw)
        (ap ok (laws.icmp_law Predicate.icmp_ne w a 0 iw ha hz refl))

  -- The pattern of one bit is its truth.
  one_bit : (a : ℕ) → a < 2 ^ 1 → bit (not (a == 0)) ≡ a
  one_bit a h = ground arith

  pub cast_bool-int :
      (w : ℕ)
      → IsWidth w
      → (a : ℕ) → a < 2 ^ w
      → constant_cast_to_bool llvm (get_int (int_type w) a)
        ≡ ok (get_int (int_type 1) (bit (not (a == 0))))
  unfolding constant_cast_to_bool
  cast_bool-int w w1 a ha =
      if_true _ _ (is_bit-int 1 a w1) ∙ ap (λ x. ok (get_int (int_type 1) x)) (sym (one_bit a ha))
  cast_bool-int w w8 a ha = bool-int 8 w8 refl a ha (omega arith)
  cast_bool-int w w16 a ha = bool-int 16 w16 refl a ha (omega arith)
  cast_bool-int w w32 a ha = bool-int 32 w32 refl a ha (omega arith)
  cast_bool-int w w64 a ha = bool-int 64 w64 refl a ha (omega arith)

  xor-bit :
      (t : Bool)
      → get Opcode.xor (get_int (int_type 1) (bit t)) (get_int (int_type 1) 1)
        ≡ get_int (int_type 1) (bit (not t))
  unfolding fold_binary
  xor-bit true = laws.binary_law Opcode.xor 1 1 1 w1 (omega arith) (omega arith) refl
  xor-bit false = laws.binary_law Opcode.xor 1 0 1 w1 (omega arith) (omega arith) refl

  pub logic_not-int :
      (w : ℕ)
      → IsWidth w
      → (a : ℕ) → a < 2 ^ w
      → logic_not_op llvm (get_int (int_type w) a)
        ≡ ok (get_int (int_type 32) (bit (not (not (a == 0)))))
  unfolding logic_not_op
  logic_not-int w iw a ha =
      rw (cast_bool-int w iw a ha, xor-bit (not (a == 0)))
        (ap ok (laws.zext_law 1 32 _ w1 w32 (bit-lt (not (not (a == 0)))) (omega arith)))

  pub neg-Stands :
      (s : Sign) (w : ℕ)
      → IsWidth w
      → (a : ℕ) → a < 2 ^ w
      → {z : ℤ} → in_word s w (pos 0 -ℤ read s w a) ≡ some z
      → (c : ℕ) × (c < 2 ^ w)
        × (read s w c ≡ z)
        × (neg_op llvm (get_int (int_type w) a) (is_unsigned_sign s) ≡ ok (get_int (int_type w) c))
  unfolding neg_op fold_unary read
  neg-Stands unsigned w iw a ha h =
      let (c, p, q, r) = in_word-Stands unsigned w iw _ h in
      (
        c,
        q,
        r,
        if_true _ _ (is_integer-int llvm laws globals w a iw)
            ∙ ap ok (laws.unary_law UnaryOpcode.neg w a iw ha p),
      )
  neg-Stands signed w iw a ha h =
      let (c, p, q, r) = in_word-Stands signed w iw (pos 0 -ℤ read signed w a) h in
      (
        c,
        q,
        r,
        if_true _ _ (is_integer-int llvm laws globals w a iw)
            ∙ ap ok (laws.unary_law UnaryOpcode.nsw_neg w a iw ha p),
      )

  pub not-Stands :
      (s : Sign) (w : ℕ)
      → IsWidth w
      → (a : ℕ) → a < 2 ^ w
      → {z : ℤ} → in_word s w (complement (read s w a)) ≡ some z
      → (c : ℕ) × (c < 2 ^ w)
        × (read s w c ≡ z)
        × (get_unary UnaryOpcode.bit_not (get_int (int_type w) a) ≡ get_int (int_type w) c)
  unfolding fold_unary
  not-Stands s w iw a ha h =
      let (c, p, q, r) = encoded-Stands s w iw (complement (read s w a)) h in
      (
        c,
        q,
        r,
        laws.unary_law UnaryOpcode.bit_not w a iw ha
            (ap some (sym (encode-complement s w iw a ha)) ∙ p),
      )

  -- The cast between two integer types, of which the second has more than one bit.
  extended :
      (s : Sign) (w v : ℕ)
      → IsWidth w
      → IsWidth v
      → w < v
      → (a : ℕ) → a < 2 ^ w
      → (if is_unsigned_sign s
          then get_cast CastOpcode.zext (get_int (int_type w) a) (int_type v)
          else get_cast CastOpcode.sext (get_int (int_type w) a) (int_type v))
        ≡ get_int (int_type v) (encode v (read s w a))
  unfolding read
  extended unsigned w v iw iv l a ha =
      laws.zext_law w v a iw iv ha l
      ∙ ap (λ x. get_int (int_type v) x) (sym (encode_wide w v iw iv (omega arith) a ha))
  extended signed w v iw iv l a ha = laws.sext_law w v a iw iv ha l

  -- The test of `ConstantCastTo` on the two widths.
  sized :
      (s : Sign) (w v : ℕ)
      → IsWidth w
      → IsWidth v
      → (w == v) ≡ false
      → (a : ℕ) → a < 2 ^ w
      → (if ltb v w
          then get_cast CastOpcode.trunc (get_int (int_type w) a) (int_type v)
          else if is_unsigned_sign s
          then get_cast CastOpcode.zext (get_int (int_type w) a) (int_type v)
          else get_cast CastOpcode.sext (get_int (int_type w) a) (int_type v))
        ≡ get_int (int_type v) (encode v (read s w a))
  sized s w v iw iv n a ha = elim (order v w) [
    | inl l ↦
        if_true _ _ (lt-ltb v w l)
        ∙ laws.trunc_law w v a iw iv ha l
        ∙ ap (λ x. get_int (int_type v) x) (sym (encode-read_narrow s w v iw iv (omega arith) a ha))
    | inr (inl e) ↦ absurd (ground (arith, n, e))
    | inr (inr l) ↦ if_false _ _ (gt-ltb v w l) ∙ extended s w v iw iv l a ha
  ]

  pub integer_cast-encode :
      (s : Sign) (w v : ℕ)
      → IsWidth w
      → IsWidth v
      → (w == v) ≡ false
      → (a : ℕ) → a < 2 ^ w
      → integer_cast llvm (get_int (int_type w) a) (int_type v) (is_unsigned_sign s)
        ≡ get_int (int_type v) (encode v (read s w a))
  unfolding integer_cast
  integer_cast-encode s w v iw iv n a ha =
      rw (integer_width v iv, constant_type w a iw, integer_width w iw) (sized s w v iw iv n a ha)
