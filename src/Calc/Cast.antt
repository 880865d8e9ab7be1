-- ===== src/Calc/Cast.antt =====
-- Casts of constants: `ConstantCastTo` and what it calls of src/llvm_common.cpp.
use kcc.Calc.Llvm.{Llvm, CastOpcode, Predicate}
use kcc.Prelude.{ℕ, Bool, ◌&&◌, ◌||◌, [], ◌∷◌, ltb, ◌==◌, if◌then◌else◌}
use kcc.Prelude.Results.{Result, ok, err, ◌>>=◌}

-- How an evaluation ends without a value: a null pointer, which is `not_constant`, or the calls of
-- `Error` and failed assertions, which end the compiler.
pub data CalcError : Type 0 where
  not_constant division_by_zero cannot_cast cannot_cast_to_bool : CalcError
  constant_expected integer_constant_expected integer_type_expected assertion : CalcError

module _ (llvm : Llvm) where
  open llvm use {
    LlvmType, Constant, type_of, int_type, is_integer_ty, is_floating_point_ty, is_float_ty,
    is_double_ty, is_x86_fp80_ty, is_pointer_ty, is_array_ty, is_aggregate_type, is_void_ty,
    same_type, get_integer_bit_width, get_pointer_element_type, get_array_element_type,
    get_pointer_to, get_int, get_fp_zero, get_null, get_aggregate_zero, get_cast, get_icmp,
    get_fcmp, get_element_ptr,
  }

  unfoldable pub get_constant_zero : LlvmType → Result CalcError Constant
  get_constant_zero t =
      if is_integer_ty t
      then ok (get_int t 0)
      else if is_floating_point_ty t
      then ok (get_fp_zero t)
      else if is_pointer_ty t
      then ok (get_null t)
      else if is_aggregate_type t
      then ok (get_aggregate_zero t)
      else err CalcError.assertion

  unfoldable pub float_point_rank : LlvmType → Result CalcError ℕ
  float_point_rank t =
      if is_float_ty t
      then ok 0
      else if is_double_ty t
      then ok 1
      else if is_x86_fp80_ty t
      then ok 2
      else err CalcError.assertion

  -- `IsIntegerTy`, `IsFloatingPointTy` and `IsPointerTy` of a value.
  abbrev pub is_integer : Constant → Bool
  is_integer c = is_integer_ty (type_of c)

  abbrev pub is_floating_point : Constant → Bool
  is_floating_point c = is_floating_point_ty (type_of c)

  abbrev pub is_pointer : Constant → Bool
  is_pointer c = is_pointer_ty (type_of c)

  -- `isIntegerTy(1)`.
  abbrev pub is_bit : LlvmType → Bool
  is_bit t = is_integer_ty t && get_integer_bit_width t == 1

  unfoldable pub is_arr_cast_to_ptr : Constant → LlvmType → Bool
  is_arr_cast_to_ptr c t =
      is_pointer c
      && is_array_ty (get_pointer_element_type (type_of c))
      && is_pointer_ty t
      && same_type (get_pointer_to (get_array_element_type (get_pointer_element_type (type_of c))))
          t

  unfoldable pub constant_cast_to_bool : Constant → Result CalcError Constant
  unfolding get_constant_zero
  constant_cast_to_bool c =
      if is_bit (type_of c)
      then ok c
      else if is_integer c || is_pointer c
      then (do z ← get_constant_zero (type_of c); ok (get_icmp Predicate.icmp_ne c z))
      else if is_floating_point c
      then (do z ← get_constant_zero (type_of c); ok (get_fcmp Predicate.fcmp_one c z))
      else err CalcError.cannot_cast_to_bool

  -- The case of two integer types.
  unfoldable pub integer_cast : Constant → LlvmType → Bool → Constant
  integer_cast c t u =
      if ltb (get_integer_bit_width t) (get_integer_bit_width (type_of c))
      then get_cast CastOpcode.trunc c t
      else if u
      then get_cast CastOpcode.zext c t
      else get_cast CastOpcode.sext c t

  -- The case of two floating types.
  unfoldable pub float_cast : Constant → LlvmType → Result CalcError Constant
  unfolding float_point_rank
  float_cast c t = do
    from ← float_point_rank (type_of c)
    to ← float_point_rank t
    ok (get_cast (if ltb to from then CastOpcode.fp_trunc else CastOpcode.fp_extend) c t)

  unfoldable pub constant_cast_to : Constant → LlvmType → Bool → Result CalcError Constant
  unfolding is_arr_cast_to_ptr constant_cast_to_bool integer_cast float_cast
  constant_cast_to c t u =
      if is_bit t
      then constant_cast_to_bool c
      else if is_integer c && is_integer_ty t
      then ok (integer_cast c t u)
      else if is_integer c && is_floating_point_ty t
      then ok (get_cast (if u then CastOpcode.ui_to_fp else CastOpcode.si_to_fp) c t)
      else if is_floating_point c && is_integer_ty t
      then ok (get_cast (if u then CastOpcode.fp_to_ui else CastOpcode.fp_to_si) c t)
      else if is_floating_point c && is_floating_point_ty t
      then float_cast c t
      else if is_pointer c && is_integer_ty t
      then ok (get_cast CastOpcode.ptr_to_int c t)
      else if is_integer c && is_pointer_ty t
      then ok (get_cast CastOpcode.int_to_ptr c t)
      else if is_void_ty t || same_type (type_of c) t
      then ok c
      else if is_arr_cast_to_ptr c t
      then ok (get_element_ptr c (get_int (int_type 64) 0 ∷ get_int (int_type 64) 0 ∷ []))
      else if is_pointer c && is_pointer_ty t
      then ok (get_cast CastOpcode.pointer_cast c t)
      else err CalcError.cannot_cast
