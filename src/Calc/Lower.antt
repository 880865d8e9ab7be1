-- ===== src/Calc/Lower.antt =====
-- The LLVM types of the types: the constructors of the classes of `Type` in src/type.cpp.
use kcc.Calc.Llvm.{Llvm}
use kcc.Prelude.{ℕ, List, [], ◌∷◌, Option, none, some}
use kcc.Ty.Arithmetic.{ArithmeticType}
use kcc.Ty.CType.{Ty, QualType, qual, Params, nil, cons}

module _ (llvm : Llvm) where
  open llvm use {
    LlvmType, void_type, int_type, float_type, double_type, x86_fp80_type, get_pointer_to,
    array_type, struct_type, function_type,
  }

  unfoldable pub arithmetic_llvm_type : ArithmeticType → LlvmType
  arithmetic_llvm_type ArithmeticType.bool = int_type 1
  arithmetic_llvm_type ArithmeticType.char = int_type 8
  arithmetic_llvm_type ArithmeticType.uchar = int_type 8
  arithmetic_llvm_type ArithmeticType.short = int_type 16
  arithmetic_llvm_type ArithmeticType.ushort = int_type 16
  arithmetic_llvm_type ArithmeticType.int = int_type 32
  arithmetic_llvm_type ArithmeticType.uint = int_type 32
  arithmetic_llvm_type ArithmeticType.long = int_type 64
  arithmetic_llvm_type ArithmeticType.ulong = int_type 64
  arithmetic_llvm_type ArithmeticType.long_long = int_type 64
  arithmetic_llvm_type ArithmeticType.ulong_long = int_type 64
  arithmetic_llvm_type ArithmeticType.float = float_type
  arithmetic_llvm_type ArithmeticType.double = double_type
  arithmetic_llvm_type ArithmeticType.long_double = x86_fp80_type

  abbrev elements : Option ℕ → ℕ
  elements none = 0
  elements (some n) = n

  unfoldable mutual
    unfolding arithmetic_llvm_type

    pub llvm_type : Ty → LlvmType
    llvm_type Ty.void = void_type
    llvm_type (Ty.arithmetic a) = arithmetic_llvm_type a
    llvm_type (Ty.pointer (qual Ty.void q)) = get_pointer_to (int_type 8)
    llvm_type (Ty.pointer e) = get_pointer_to (qual_llvm_type e)
    llvm_type (Ty.array e n) = array_type (qual_llvm_type e) (elements n)
    llvm_type (Ty.struct i) = struct_type i.llvm_type
    llvm_type (Ty.function r ps v) = function_type (qual_llvm_type r) (param_llvm_types ps) v

    pub qual_llvm_type : QualType → LlvmType
    qual_llvm_type (qual t q) = llvm_type t

    pub param_llvm_types : Params → List LlvmType
    param_llvm_types nil = []
    param_llvm_types (cons p ps) = qual_llvm_type p ∷ param_llvm_types ps
