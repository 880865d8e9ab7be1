-- ===== src/Calc/Kinds.antt =====
-- The integer types: width, sign and LLVM type.
use kcc.Calc.Folds.{is_unsigned_sign}
use kcc.Calc.Llvm.{Llvm}
use kcc.Calc.Lower.{llvm_type}
use kcc.Calc.Value.{sign, bits, is_whole, whole, is_truth}
use kcc.Calc.Word.{IsWidth, w1, w8, w16, w32, w64}
use kcc.Prelude.{
  true, not, ◌≡◌, refl, some, Bool-cases, inl, inr, ◌==◌, ◌&&◌, sym, ap, ◌∙◌, if_true, if_false,
}
use kcc.Prelude.Options.{none_some, some_injective}
use kcc.Ty.Arithmetic.{ArithmeticType, is_unsigned, is_integer_ty}
use kcc.Ty.CType.{Ty}

pub bits-IsWidth : (a : ArithmeticType) → is_whole a ≡ true → IsWidth (bits a)
bits-IsWidth ArithmeticType.bool h = w1
bits-IsWidth ArithmeticType.char h = w8
bits-IsWidth ArithmeticType.uchar h = w8
bits-IsWidth ArithmeticType.short h = w16
bits-IsWidth ArithmeticType.ushort h = w16
bits-IsWidth ArithmeticType.int h = w32
bits-IsWidth ArithmeticType.uint h = w32
bits-IsWidth ArithmeticType.long h = w64
bits-IsWidth ArithmeticType.ulong h = w64
bits-IsWidth ArithmeticType.long_long h = w64
bits-IsWidth ArithmeticType.ulong_long h = w64
bits-IsWidth _ h = absurd cc

pub unsigned-sign :
    (a : ArithmeticType) → is_whole a ≡ true → is_unsigned a ≡ is_unsigned_sign (sign a)
unfolding is_unsigned
unsigned-sign ArithmeticType.bool h = refl
unsigned-sign ArithmeticType.char h = refl
unsigned-sign ArithmeticType.uchar h = refl
unsigned-sign ArithmeticType.short h = refl
unsigned-sign ArithmeticType.ushort h = refl
unsigned-sign ArithmeticType.int h = refl
unsigned-sign ArithmeticType.uint h = refl
unsigned-sign ArithmeticType.long h = refl
unsigned-sign ArithmeticType.ulong h = refl
unsigned-sign ArithmeticType.long_long h = refl
unsigned-sign ArithmeticType.ulong_long h = refl
unsigned-sign _ h = absurd cc

pub llvm_type-bits :
    (llvm : Llvm) (a : ArithmeticType)
    → is_whole a ≡ true
    → llvm_type llvm (Ty.arithmetic a) ≡ llvm.int_type (bits a)
unfolding llvm_type
llvm_type-bits llvm ArithmeticType.bool h = refl
llvm_type-bits llvm ArithmeticType.char h = refl
llvm_type-bits llvm ArithmeticType.uchar h = refl
llvm_type-bits llvm ArithmeticType.short h = refl
llvm_type-bits llvm ArithmeticType.ushort h = refl
llvm_type-bits llvm ArithmeticType.int h = refl
llvm_type-bits llvm ArithmeticType.uint h = refl
llvm_type-bits llvm ArithmeticType.long h = refl
llvm_type-bits llvm ArithmeticType.ulong h = refl
llvm_type-bits llvm ArithmeticType.long_long h = refl
llvm_type-bits llvm ArithmeticType.ulong_long h = refl
llvm_type-bits llvm _ h = absurd cc

pub truth-bits : (a : ArithmeticType) → is_whole a ≡ true → (bits a == 1) ≡ is_truth a
truth-bits ArithmeticType.bool h = refl
truth-bits ArithmeticType.char h = refl
truth-bits ArithmeticType.uchar h = refl
truth-bits ArithmeticType.short h = refl
truth-bits ArithmeticType.ushort h = refl
truth-bits ArithmeticType.int h = refl
truth-bits ArithmeticType.uint h = refl
truth-bits ArithmeticType.long h = refl
truth-bits ArithmeticType.ulong h = refl
truth-bits ArithmeticType.long_long h = refl
truth-bits ArithmeticType.ulong_long h = refl
truth-bits _ h = absurd cc

-- The integer types but `_Bool`.
pub integer_ty :
    (a : ArithmeticType) → (is_whole a && not (is_truth a)) ≡ true → is_integer_ty a ≡ true
unfolding is_integer_ty
integer_ty ArithmeticType.char h = refl
integer_ty ArithmeticType.uchar h = refl
integer_ty ArithmeticType.short h = refl
integer_ty ArithmeticType.ushort h = refl
integer_ty ArithmeticType.int h = refl
integer_ty ArithmeticType.uint h = refl
integer_ty ArithmeticType.long h = refl
integer_ty ArithmeticType.ulong h = refl
integer_ty ArithmeticType.long_long h = refl
integer_ty ArithmeticType.ulong_long h = refl
integer_ty _ h = absurd cc

-- The type of an expression that has a value.
pub whole-eq-some :
    (t : Ty) {a : ArithmeticType} → whole t ≡ some a → (t ≡ Ty.arithmetic a) × (is_whole a ≡ true)
whole-eq-some (Ty.arithmetic b) h = elim (Bool-cases (is_whole b)) [
  | inl w ↦ (let e = some_injective (sym (if_true _ _ w) ∙ h) in (ap Ty.arithmetic e, rw (sym e) w))
  | inr n ↦ absurd (none_some (sym (if_false _ _ n) ∙ h))
]
whole-eq-some _ h = absurd (none_some h)
