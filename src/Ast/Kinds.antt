-- ===== src/Ast/Kinds.antt =====
-- The tests of `Type` in src/type.cpp that tell the kinds of types apart.
use kcc.Prelude.{Bool, true, false, ◌||◌, Option, none, some}
use kcc.Ty.Arithmetic.{is_integer_ty, is_bool_ty, is_float_point_ty}
use kcc.Ty.CType.{Ty, QualType}

-- `Type::IsVoidTy`, `IsPointerTy`, `IsFunctionTy` and `IsStructOrUnionTy`.
abbrev pub is_void : Ty → Bool
is_void Ty.void = true
is_void _ = false

abbrev pub is_pointer : Ty → Bool
is_pointer (Ty.pointer e) = true
is_pointer _ = false

abbrev pub is_function : Ty → Bool
is_function (Ty.function r ps v) = true
is_function _ = false

abbrev pub is_struct_or_union : Ty → Bool
is_struct_or_union (Ty.struct i) = true
is_struct_or_union _ = false

-- `Type::IsIntegerTy`, `IsBoolTy` and `IsFloatPointTy`, of any type.
abbrev pub is_integer : Ty → Bool
is_integer (Ty.arithmetic a) = is_integer_ty a
is_integer _ = false

abbrev pub is_bool : Ty → Bool
is_bool (Ty.arithmetic a) = is_bool_ty a
is_bool _ = false

abbrev pub is_float_point : Ty → Bool
is_float_point (Ty.arithmetic a) = is_float_point_ty a
is_float_point _ = false

-- `Type::IsRealTy`, `IsArithmeticTy`, `IsScalarTy` and `IsIntegerOrBoolTy`.
abbrev pub is_real : Ty → Bool
is_real t = is_integer t || is_float_point t

abbrev pub is_arithmetic : Ty → Bool
is_arithmetic t = is_bool t || is_integer t || is_float_point t

abbrev pub is_scalar : Ty → Bool
is_scalar t = is_arithmetic t || is_pointer t

abbrev pub is_integer_or_bool : Ty → Bool
is_integer_or_bool t = is_integer t || is_bool t

-- `Type::PointerGetElementType`; `none` is its failed assertion.
abbrev pub element_type : Ty → Option QualType
element_type (Ty.pointer e) = some e
element_type _ = none
