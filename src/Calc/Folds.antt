-- ===== src/Calc/Folds.antt =====
-- The instructions that the evaluation chooses give the patterns of the standard's values.
use Prim.Native.Nat.{bit_xor}
use kcc.Calc.Llvm.{Opcode, Predicate, fold_binary, compares, floor_shift}
use kcc.Calc.Value.{arithmetic_value, truth_value, in_word, shift, left}
use kcc.Calc.Word.{encode, read, fits, IsWidth, encode-lt, read-encode, encode-read, read-==ℤ}
use kcc.Ast.Rules.{comparison_op}
use kcc.Prelude.{
  ℕ, ◌%◌, ◌^◌, ◌<◌, Bool, true, false, ◌≡◌, refl, ◌∙◌, Option, none, some, ltb, if◌then◌else◌,
  bit_and, bit_or, arith, Bool-cases, inl, inr, sym, if_true, if_false,
}
use kcc.Prelude.Int.{ℤ, pos, negsuc, quot, rem}
use kcc.Prelude.Options.{some_injective, none_some}
use kcc.Token.{Tag}
use kcc.Ty.Conversion.{Sign, signed, unsigned}

abbrev pub is_unsigned_sign : Sign → Bool
is_unsigned_sign signed = false
is_unsigned_sign unsigned = true

-- What an instruction for each sign gives: the reduced result, or one that has to fit.
abbrev result_of : Sign → ℕ → ℤ → Option ℕ
result_of unsigned w z = some (encode w z)
result_of signed w z = if fits signed w z then some (encode w z) else none

-- The pattern `o` stands for `z`.
abbrev pub Stands : Sign → ℕ → Option ℕ → ℤ → Type 0
Stands s w o z = (c : ℕ) × (o ≡ some c) × (c < 2 ^ w) × (read s w c ≡ z)

-- The instruction for an operator, by the signedness.
abbrev pub opcode : Tag → Bool → Opcode
opcode Tag.plus u = if u then Opcode.add else Opcode.nsw_add
opcode Tag.minus u = if u then Opcode.sub else Opcode.nsw_sub
opcode Tag.star u = if u then Opcode.mul else Opcode.nsw_mul
opcode Tag.slash u = if u then Opcode.udiv else Opcode.sdiv
opcode Tag.percent u = if u then Opcode.urem else Opcode.srem
opcode Tag.amp u = Opcode.and
opcode Tag.pipe u = Opcode.or
opcode Tag.caret u = Opcode.xor
opcode Tag.less_less u = Opcode.shl
opcode Tag.greater_greater u = if u then Opcode.lshr else Opcode.ashr
opcode _ u = Opcode.fadd

result_is_encoded :
    (s : Sign) (w : ℕ) (z : ℤ) {c : ℕ} → result_of s w z ≡ some c → some (encode w z) ≡ some c
result_is_encoded unsigned w z h = h
result_is_encoded signed w z h = elim (Bool-cases (fits signed w z)) [
  | inl f ↦ sym (if_true _ _ f) ∙ h
  | inr f ↦ absurd (none_some (sym (if_false _ _ f) ∙ h))
]

pub in_word-Stands :
    (s : Sign) (w : ℕ)
    → IsWidth w
    → (z : ℤ) {z' : ℤ} → in_word s w z ≡ some z'
    → Stands s w (result_of s w z) z'
unfolding in_word
in_word-Stands unsigned w iw z h = (encode w z, refl, encode-lt w iw z, cc)
in_word-Stands signed w iw z h = elim (Bool-cases (fits signed w z)) [
  | inl f ↦ (
    encode w z,
    if_true _ _ f,
    encode-lt w iw z,
    read-encode signed w iw z f ∙ some_injective (sym (if_true _ _ f) ∙ h),
  )
  | inr f ↦ absurd (none_some (sym (if_false _ _ f) ∙ h))
]

-- An instruction that reduces its result also gives one that fits.
pub encoded-Stands :
    (s : Sign) (w : ℕ)
    → IsWidth w
    → (z : ℤ) {z' : ℤ} → in_word s w z ≡ some z'
    → Stands s w (some (encode w z)) z'
encoded-Stands s w iw z h =
    let (c, p, q, r) = in_word-Stands s w iw z h in (c, result_is_encoded s w z p, q, r)

-- A pattern that is computed from patterns.
pattern-Stands :
    (s : Sign) (w : ℕ)
    → IsWidth w
    → (m : ℕ) {z : ℤ} → read s w (m % 2 ^ w) ≡ z
    → Stands s w (some (m % 2 ^ w)) z
unfolding encode
pattern-Stands s w iw m h = (m % 2 ^ w, refl, encode-lt w iw (pos m), h)

-- The comparison for an operator.
abbrev pub predicate : Tag → Bool → Predicate
predicate Tag.less u = if u then Predicate.icmp_ult else Predicate.icmp_slt
predicate Tag.greater u = if u then Predicate.icmp_ugt else Predicate.icmp_sgt
predicate Tag.less_equal u = if u then Predicate.icmp_ule else Predicate.icmp_sle
predicate Tag.greater_equal u = if u then Predicate.icmp_uge else Predicate.icmp_sge
predicate Tag.equal_equal u = Predicate.icmp_eq
predicate Tag.exclaim_equal u = Predicate.icmp_ne
predicate _ u = Predicate.fcmp_oeq

-- Two tests that agree keep a pattern.
if_none-Stands :
    (s : Sign) (w : ℕ) (t : Bool) {x : Option ℤ} {y : Option ℕ} {z : ℤ}
    → (x ≡ some z → Stands s w y z)
    → (if t then none else x) ≡ some z
    → Stands s w (if t then none else y) z
if_none-Stands s w true f h = absurd (none_some h)
if_none-Stands s w false f h = f h

if_some-Stands :
    (s : Sign) (w : ℕ) (t : Bool) {x : Option ℤ} {y : Option ℕ} {z : ℤ}
    → (x ≡ some z → Stands s w y z)
    → (if t then x else none) ≡ some z
    → Stands s w (if t then y else none) z
if_some-Stands s w true f h = f h
if_some-Stands s w false f h = absurd (none_some h)

-- The remainder of an unsigned division has no condition but for the divisor.
if_any-Stands :
    (s : Sign) (w : ℕ) (t : Bool) {x : Option ℤ} {y : Option ℕ} {z : ℤ}
    → (x ≡ some z → Stands s w y z)
    → (if t then x else none) ≡ some z
    → Stands s w y z
if_any-Stands s w true f h = f h
if_any-Stands s w false f h = absurd (none_some h)

neither : (t : Bool) {z : ℤ} → ¬ ((if t then none else none) ≡ some z)
neither true h = none_some h
neither false h = none_some h

read-pos : (s : Sign) (w b : ℕ) {k : ℕ} → read s w b ≡ pos k → b ≡ k
unfolding read
read-pos s w b h = ground arith

module _ (w : ℕ) (iw : IsWidth w) (a b : ℕ) (ha : a < 2 ^ w) (hb : b < 2 ^ w) where
  bitwise-Stands :
      (s : Sign) (f : ℕ → ℕ → ℕ) {z : ℤ}
      → some (read s w (f (encode w (read s w a)) (encode w (read s w b)) % 2 ^ w)) ≡ some z
      → Stands s w (some (f a b % 2 ^ w)) z
  bitwise-Stands s f h =
      pattern-Stands s w iw (f a b)
        (rw (sym (encode-read s w iw a ha), sym (encode-read s w iw b hb)) (some_injective h))

  left-Stands :
      (x y : ℤ) {z : ℤ}
      → read signed w a ≡ x
      → read signed w b ≡ y
      → shift (left signed w) w x y ≡ some z
      → Stands signed w (fold_binary w a b Opcode.shl) z
  unfolding fold_binary
  left-Stands (pos n) (pos k) p q h =
      rw (read-pos signed w a p, read-pos signed w b q)
        (if_some-Stands signed w (ltb k w) (encoded-Stands signed w iw _) h)
  left-Stands (negsuc n) (pos k) p q h = absurd (neither (ltb k w) h)
  left-Stands _ (negsuc k) p q h = absurd (none_some h)

  right-Stands :
      (y : ℤ) {z : ℤ}
      → read signed w b ≡ y
      → shift (λ x k. in_word signed w (floor_shift x k)) w (read signed w a) y ≡ some z
      → Stands signed w (fold_binary w a b Opcode.ashr) z
  unfolding fold_binary
  right-Stands (pos k) q h =
      rw (read-pos signed w b q)
        (if_some-Stands signed w (ltb k w) (encoded-Stands signed w iw _) h)
  right-Stands (negsuc k) q h = absurd (none_some h)

  pub fold-Stands :
      (op : Tag) (s : Sign) {z : ℤ}
      → arithmetic_value op s w (read s w a) (read s w b) ≡ some z
      → Stands s w (fold_binary w a b (opcode op (is_unsigned_sign s))) z
  unfolding fold_binary arithmetic_value read
  fold-Stands Tag.plus unsigned h = in_word-Stands unsigned w iw _ h
  fold-Stands Tag.plus signed h = in_word-Stands signed w iw _ h
  fold-Stands Tag.minus unsigned h = in_word-Stands unsigned w iw _ h
  fold-Stands Tag.minus signed h = in_word-Stands signed w iw _ h
  fold-Stands Tag.star unsigned h = in_word-Stands unsigned w iw _ h
  fold-Stands Tag.star signed h = in_word-Stands signed w iw _ h
  fold-Stands Tag.slash unsigned h = if_none-Stands unsigned w _ (in_word-Stands unsigned w iw _) h
  fold-Stands Tag.slash signed h = if_none-Stands signed w _ (in_word-Stands signed w iw _) h
  fold-Stands Tag.percent unsigned h =
      if_none-Stands unsigned w _ (if_any-Stands unsigned w _ (in_word-Stands unsigned w iw _)) h
  fold-Stands Tag.percent signed h =
      if_none-Stands signed w _
        (if_some-Stands signed w (fits signed w (quot (read signed w a) (read signed w b)))
          (in_word-Stands signed w iw (rem (read signed w a) (read signed w b))))
        h
  fold-Stands Tag.amp s h = bitwise-Stands s bit_and h
  fold-Stands Tag.pipe s h = bitwise-Stands s bit_or h
  fold-Stands Tag.caret s h = bitwise-Stands s bit_xor h
  fold-Stands Tag.less_less unsigned h =
      if_some-Stands unsigned w _ (in_word-Stands unsigned w iw _) h
  fold-Stands Tag.less_less signed h = left-Stands (read signed w a) (read signed w b) refl refl h
  fold-Stands Tag.greater_greater unsigned h =
      if_some-Stands unsigned w _ (in_word-Stands unsigned w iw _) h
  fold-Stands Tag.greater_greater signed h = right-Stands (read signed w b) refl h
  fold-Stands _ s h = cc

  pub compare-truth :
      (op : Tag) (s : Sign) {t : Bool}
      → comparison_op op ≡ true
      → truth_value op (read s w a) (read s w b) ≡ some t
      → compares w a b (predicate op (is_unsigned_sign s)) ≡ some t
  unfolding compares truth_value read
  compare-truth Tag.less unsigned o h = ground (arith, h)
  compare-truth Tag.less signed o h = h
  compare-truth Tag.greater unsigned o h = ground (arith, h)
  compare-truth Tag.greater signed o h = h
  compare-truth Tag.less_equal unsigned o h = ground (arith, h)
  compare-truth Tag.less_equal signed o h = h
  compare-truth Tag.greater_equal unsigned o h = ground (arith, h)
  compare-truth Tag.greater_equal signed o h = h
  compare-truth Tag.equal_equal s o h = rw (sym (read-==ℤ s w iw a b ha hb)) h
  compare-truth Tag.exclaim_equal s o h = rw (sym (read-==ℤ s w iw a b ha hb)) h
  compare-truth _ s o h = cc
