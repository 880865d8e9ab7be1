-- ===== src/Ty/CType.antt =====
-- `Type` and its classes (src/type.h), with width, decay, `Equal` and `Compatible` (src/type.cpp).
--
-- A class is a constructor of `Ty`. A struct or union is known by what these functions read of it;
-- its LLVM type, which they compare by address, is a number. An array is complete if its number of
-- elements is known.
use kcc.Prelude.{
  ℕ, ◌*◌, ◌%◌, ◌^◌, Bool, true, false, not, ◌&&◌, ◌||◌, [], Option, none, some, Bytes, same_bytes,
  if◌then◌else◌, ◌==◌,
}
use kcc.Ty.Arithmetic.{ArithmeticType, arithmetic_width}

pub record StructInfo : Type 0 where
  pub is_struct : Bool
  pub name : Bytes
  pub complete : Bool
  pub num_members : ℕ
  pub llvm_type : ℕ

mutual
  pub data Ty : Type 0 where
    void : Ty
    arithmetic : ArithmeticType → Ty
    pointer : QualType → Ty
    array : QualType → Option ℕ → Ty
    struct : StructInfo → Ty
    function : QualType → Params → Bool → Ty

  -- A type and its qualifiers.
  pub data QualType : Type 0 where
    qual : Ty → ℕ → QualType

  -- The types of the parameters.
  pub data Params : Type 0 where
    nil : Params
    cons : QualType → Params → Params

abbrev pub get_type : QualType → Ty
get_type (qual t q) = t

abbrev pub get_type_qual : QualType → ℕ
get_type_qual (qual t q) = q

-- `Type::MayCast`: functions and arrays become pointers. `GetPointerTo` makes no qualifier.
unfoldable pub may_cast : QualType → QualType
may_cast (qual (function r ps v) q) = qual (pointer (qual (function r ps v) 0)) 0
may_cast (qual (array e n) q) = qual (pointer (qual (get_type e) 0)) 0
may_cast t = t

-- `GetWidth` in bytes, as the bit pattern of a `std::int32_t`. `struct_size` is what LLVM's data
-- layout says of a struct; `none` is a failed assertion.
module _ (struct_size : ℕ → ℕ) where
  unfoldable mutual
    pub width : Ty → Option ℕ
    width void = some 1
    width (arithmetic a) = some (arithmetic_width a)
    width (pointer e) = some 8
    width (array e none) = none
    width (array e (some n)) = elim (qual_width e) [
      | none ↦ none
      | some w ↦ some ((w * n) % 2 ^ 32)
    ]
    width (struct i) = if i.complete then some (struct_size i.llvm_type) else none
    width (function r ps v) = some 1

    pub qual_width : QualType → Option ℕ
    qual_width (qual t q) = width t

is_empty : Bytes → Bool
is_empty [] = true
is_empty _ = false

-- `StructType::HasName`.
unfoldable pub has_name : StructInfo → Bool
unfolding is_empty
has_name i = not (is_empty i.name)

-- `StructType::Equal` and `StructType::Compatible`, which have the same body.
unfoldable pub struct_equal : StructInfo → StructInfo → Bool
unfolding has_name
struct_equal a b =
    if not (a.is_struct && b.is_struct || not a.is_struct && not b.is_struct)
    then false
    else if has_name a && has_name b && not (same_bytes a.name b.name)
    then false
    else if a.complete && b.complete
    then (if not (a.num_members == b.num_members) then false else a.llvm_type == b.llvm_type)
    else true

-- The comparison of two numbers of elements.
unfoldable pub same_size : Option ℕ → Option ℕ → Bool
same_size (some n) (some m) = n == m
same_size _ _ = true
