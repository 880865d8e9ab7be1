-- ===== src/Calc/Llvm.antt =====
-- LLVM's constants, which src/calc.cpp and src/llvm_common.cpp only call: a parameter of the model.
-- A field is a function of LLVM under its own name, with the opcode or predicate as an argument.
use kcc.Prelude.{
  ℕ, ◌-◌, ◌%◌, ◌/◌, ◌^◌, ◌<◌, Bool, true, false, not, ◌≡◌, List, Option, none, some, Bytes, ltb,
  ◌==◌, if◌then◌else◌, bit_and, bit_or,
}
use Prim.Native.Nat.{bit_xor}
use kcc.Prelude.Int.{ℤ, pos, negsuc, ◌+ℤ◌, ◌-ℤ◌, ◌*ℤ◌, ltb_ℤ, ◌==ℤ◌, quot, rem}
use kcc.Calc.Word.{IsWidth, encode, read, fits}
use kcc.Ty.Conversion.{signed}

-- The binary operations of `ConstantExpr`, those on floating constants behind the others.
pub data Opcode : Type 0 where
  add nsw_add sub nsw_sub mul nsw_mul udiv sdiv urem srem and or xor shl lshr ashr : Opcode
  fadd fsub fmul fdiv : Opcode

pub data UnaryOpcode : Type 0 where
  neg nsw_neg fneg bit_not : UnaryOpcode

pub data CastOpcode : Type 0 where
  trunc zext sext ui_to_fp si_to_fp fp_to_ui fp_to_si fp_trunc fp_extend : CastOpcode
  ptr_to_int int_to_ptr pointer_cast : CastOpcode

-- `CmpInst::Predicate`.
pub data Predicate : Type 0 where
  icmp_eq icmp_ne icmp_ult icmp_ule icmp_ugt icmp_uge icmp_slt icmp_sle icmp_sgt icmp_sge :
      Predicate
  fcmp_oeq fcmp_one fcmp_olt fcmp_ole fcmp_ogt fcmp_oge : Predicate

pub record Llvm : Type 1 where
  pub LlvmType : Type 0
  pub Constant : Type 0
  pub type_of : Constant → LlvmType
  pub int_type : ℕ → LlvmType
  pub void_type : LlvmType
  pub float_type : LlvmType
  pub double_type : LlvmType
  pub x86_fp80_type : LlvmType
  pub array_type : LlvmType → ℕ → LlvmType
  pub struct_type : ℕ → LlvmType
  pub function_type : LlvmType → List LlvmType → Bool → LlvmType
  pub is_integer_ty : LlvmType → Bool
  pub is_floating_point_ty : LlvmType → Bool
  pub is_float_ty : LlvmType → Bool
  pub is_double_ty : LlvmType → Bool
  pub is_x86_fp80_ty : LlvmType → Bool
  pub is_pointer_ty : LlvmType → Bool
  pub is_array_ty : LlvmType → Bool
  pub is_aggregate_type : LlvmType → Bool
  pub is_void_ty : LlvmType → Bool
  pub same_type : LlvmType → LlvmType → Bool
  pub get_integer_bit_width : LlvmType → ℕ
  pub get_pointer_element_type : LlvmType → LlvmType
  pub get_array_element_type : LlvmType → LlvmType
  pub get_pointer_to : LlvmType → LlvmType
  pub get_type_alloc_size : LlvmType → ℕ
  pub get_int : LlvmType → ℕ → Constant
  pub get_fp : LlvmType → Bytes → Constant
  pub get_fp_zero : LlvmType → Constant
  pub get_null : LlvmType → Constant
  pub get_aggregate_zero : LlvmType → Constant
  pub is_zero_value : Constant → Bool
  pub get_sext_value : Constant → Option ℕ
  pub get_unary : UnaryOpcode → Constant → Constant
  pub get : Opcode → Constant → Constant → Constant
  pub get_cast : CastOpcode → Constant → LlvmType → Constant
  pub get_icmp : Predicate → Constant → Constant → Constant
  pub get_fcmp : Predicate → Constant → Constant → Constant
  pub get_element_ptr : Constant → List Constant → Constant

-- The language reference on the integer instructions; `none` where it leaves the result undefined.
abbrev checked : ℕ → ℤ → Option ℕ
checked w z = if fits signed w z then some (encode w z) else none

-- A division by zero is undefined, and so is a quotient that does not fit.
abbrev divided : ℤ → Option ℕ → Option ℕ
divided b o = if b ==ℤ pos 0 then none else o

abbrev remainder : ℕ → ℤ → ℤ → Option ℕ
remainder w a b = if fits signed w (quot a b) then checked w (rem a b) else none

abbrev shifted : ℕ → ℕ → ℤ → Option ℕ
shifted w b z = if ltb b w then some (encode w z) else none

-- An integer shifted to the right, rounded down.
abbrev pub floor_shift : ℤ → ℕ → ℤ
floor_shift (pos n) k = pos (n / 2 ^ k)
floor_shift (negsuc n) k = negsuc (n / 2 ^ k)

module _ (w a b : ℕ) where
  unfoldable pub fold_binary : Opcode → Option ℕ
  fold_binary Opcode.add = some (encode w (pos a +ℤ pos b))
  fold_binary Opcode.sub = some (encode w (pos a -ℤ pos b))
  fold_binary Opcode.mul = some (encode w (pos a *ℤ pos b))
  fold_binary Opcode.nsw_add = checked w (read signed w a +ℤ read signed w b)
  fold_binary Opcode.nsw_sub = checked w (read signed w a -ℤ read signed w b)
  fold_binary Opcode.nsw_mul = checked w (read signed w a *ℤ read signed w b)
  fold_binary Opcode.udiv = divided (pos b) (some (encode w (quot (pos a) (pos b))))
  fold_binary Opcode.urem = divided (pos b) (some (encode w (rem (pos a) (pos b))))
  fold_binary Opcode.sdiv =
      divided (read signed w b) (checked w (quot (read signed w a) (read signed w b)))
  fold_binary Opcode.srem =
      divided (read signed w b) (remainder w (read signed w a) (read signed w b))
  fold_binary Opcode.and = some (bit_and a b % 2 ^ w)
  fold_binary Opcode.or = some (bit_or a b % 2 ^ w)
  fold_binary Opcode.xor = some (bit_xor a b % 2 ^ w)
  fold_binary Opcode.shl = shifted w b (pos a *ℤ pos (2 ^ b))
  fold_binary Opcode.lshr = shifted w b (floor_shift (pos a) b)
  fold_binary Opcode.ashr = shifted w b (floor_shift (read signed w a) b)
  fold_binary _ = none

  unfoldable pub compares : Predicate → Option Bool
  compares Predicate.icmp_eq = some (a == b)
  compares Predicate.icmp_ne = some (not (a == b))
  compares Predicate.icmp_ult = some (ltb a b)
  compares Predicate.icmp_ule = some (not (ltb b a))
  compares Predicate.icmp_ugt = some (ltb b a)
  compares Predicate.icmp_uge = some (not (ltb a b))
  compares Predicate.icmp_slt = some (ltb_ℤ (read signed w a) (read signed w b))
  compares Predicate.icmp_sle = some (not (ltb_ℤ (read signed w b) (read signed w a)))
  compares Predicate.icmp_sgt = some (ltb_ℤ (read signed w b) (read signed w a))
  compares Predicate.icmp_sge = some (not (ltb_ℤ (read signed w a) (read signed w b)))
  compares _ = none

module _ (w a : ℕ) where
  unfoldable pub fold_unary : UnaryOpcode → Option ℕ
  fold_unary UnaryOpcode.neg = some (encode w (pos 0 -ℤ pos a))
  fold_unary UnaryOpcode.nsw_neg = checked w (pos 0 -ℤ read signed w a)
  fold_unary UnaryOpcode.bit_not = some (2 ^ w - 1 - a)
  fold_unary UnaryOpcode.fneg = none

abbrev pub bit : Bool → ℕ
bit true = 1
bit false = 0

-- What the language reference says of integer constants of the widths that C's types have.
module _ (llvm : Llvm) where
  open llvm use {
    Constant, type_of, int_type, is_integer_ty, get_integer_bit_width, get_int, is_zero_value,
    get_sext_value, get_unary, get, get_cast, get_icmp,
  }

  pub record IntegerLaws : Type 0 where
    pub constant_type : (w v : ℕ) → IsWidth w → type_of (get_int (int_type w) v) ≡ int_type w
    pub integer_type : (w : ℕ) → IsWidth w → is_integer_ty (int_type w) ≡ true
    pub integer_width : (w : ℕ) → IsWidth w → get_integer_bit_width (int_type w) ≡ w
    pub truncated :
        (w v : ℕ) → IsWidth w → get_int (int_type w) v ≡ get_int (int_type w) (v % 2 ^ w)
    pub zero_value :
        (w v : ℕ) → IsWidth w → v < 2 ^ w → is_zero_value (get_int (int_type w) v) ≡ (v == 0)
    pub sext_value :
        (w v : ℕ)
        → IsWidth w
        → v < 2 ^ w
        → get_sext_value (get_int (int_type w) v) ≡ some (encode 64 (read signed w v))
    pub unary_law :
        (op : UnaryOpcode) (w a : ℕ) {c : ℕ}
        → IsWidth w
        → a < 2 ^ w
        → fold_unary w a op ≡ some c
        → get_unary op (get_int (int_type w) a) ≡ get_int (int_type w) c
    pub binary_law :
        (op : Opcode) (w a b : ℕ) {c : ℕ}
        → IsWidth w
        → a < 2 ^ w
        → b < 2 ^ w
        → fold_binary w a b op ≡ some c
        → get op (get_int (int_type w) a) (get_int (int_type w) b) ≡ get_int (int_type w) c
    pub icmp_law :
        (p : Predicate) (w a b : ℕ) {c : Bool}
        → IsWidth w
        → a < 2 ^ w
        → b < 2 ^ w
        → compares w a b p ≡ some c
        → get_icmp p (get_int (int_type w) a) (get_int (int_type w) b)
          ≡ get_int (int_type 1) (bit c)
    pub trunc_law :
        (w v a : ℕ)
        → IsWidth w
        → IsWidth v
        → a < 2 ^ w
        → v < w
        → get_cast CastOpcode.trunc (get_int (int_type w) a) (int_type v)
          ≡ get_int (int_type v) (a % 2 ^ v)
    pub zext_law :
        (w v a : ℕ)
        → IsWidth w
        → IsWidth v
        → a < 2 ^ w
        → w < v
        → get_cast CastOpcode.zext (get_int (int_type w) a) (int_type v) ≡ get_int (int_type v) a
    pub sext_law :
        (w v a : ℕ)
        → IsWidth w
        → IsWidth v
        → a < 2 ^ w
        → w < v
        → get_cast CastOpcode.sext (get_int (int_type w) a) (int_type v)
          ≡ get_int (int_type v) (encode v (read signed w a))
