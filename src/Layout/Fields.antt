-- ===== src/Layout/Fields.antt =====
-- The state of `StructType` while members are added (src/type.h, src/type.cpp) and the steps that its
-- operations share.
--
-- `members_` and `llvm_types_` are lists with the last one first. The scope of the type is its list of
-- usual names. An LLVM type is the one of a type, or the bytes that `GetBitFieldSpace` reserves.
use kcc.Prelude.{
  ℕ, ◌+◌, ◌-◌, ◌*◌, ◌/◌, ◌%◌, ◌^◌, Bool, true, false, not, ◌&&◌, ◌||◌, ◌==◌, ltb, leb, List, [],
  ◌∷◌, Option, none, some, Bytes, if◌then◌else◌,
}
use kcc.Prelude.Results.{Result, ok, err}
use kcc.Ty.CType.{Ty, QualType, qual}
use kcc.Ty.Arithmetic.{arithmetic_width}

-- `ObjectExpr` as a member; its bit-field width is 0 if it is no bit-field.
pub record Member : Type 0 where
  pub name : Bytes
  pub ty : Ty
  pub align : ℕ
  pub anonymous : Bool
  pub bit_field_width : ℕ
  pub offset : ℕ
  pub bit_field_begin : ℕ
  pub indexs : List ℕ

pub data LlvmType : Type 0 where
  of_type : Ty → LlvmType
  space : ℕ → LlvmType

pub record StructType : Type 0 where
  pub is_struct : Bool
  pub llvm_types : List LlvmType
  pub members : List Member
  pub scope : List (Bytes × Member)
  pub offset : ℕ
  pub width : ℕ
  pub align : ℕ
  pub bit_field_used_width : ℕ
  pub bit_field_base_type_width : ℕ
  pub index : ℕ
  pub bit_field_space_count : ℕ

-- The initialisers of the fields of `StructType`.
abbrev pub new_struct_type : Bool → StructType
new_struct_type is_struct = record {
  is_struct = is_struct;
  llvm_types = [];
  members = [];
  scope = [];
  offset = 0;
  width = 0;
  align = 1;
  bit_field_used_width = 0;
  bit_field_base_type_width = 0;
  index = 0;
  bit_field_space_count = 0;
}

-- The calls of `Error`, failed assertions, and sums that a `std::int32_t` does not hold, which C++
-- leaves undefined.
pub data LayoutError : Type 0 where
  duplicate_member incomplete_type declared_as_function declares_nothing : LayoutError
  int_or_bool_expected negative_width zero_width_with_name width_exceeds_type : LayoutError
  assertion overflow : LayoutError

abbrev pub max : ℕ → ℕ → ℕ
max a b = if ltb a b then b else a

-- Whether `StructType::MakeAlign` is defined: a `std::int32_t` that is not negative holds the offset and
-- the sum.
abbrev pub alignable : ℕ → ℕ → Bool
alignable offset align =
    ltb offset (2 ^ 31) && (offset % align == 0 || ltb (offset + align) (2 ^ 31))

-- `StructType::MakeAlign`, with a positive alignment, where it is defined.
abbrev pub make_align : ℕ → ℕ → ℕ
make_align offset align = if offset % align == 0 then offset else offset + align - offset % align

-- The sum of an offset and what `GetWidth` gives, a `std::int32_t` whose pattern is `w`. A negative
-- sum fails the assertion of `MakeAlign`, which follows.
unfoldable pub add_width : ℕ → ℕ → Result LayoutError ℕ
add_width offset w =
    if ltb w (2 ^ 31)
    then (if ltb (offset + w) (2 ^ 31) then ok (offset + w) else err overflow)
    else if leb (2 ^ 32) (offset + w)
    then ok (offset + w - 2 ^ 32)
    else err assertion

-- Where the steps before have added to the offset: a sum that overflows is larger than those before.
unfoldable pub in_int32 : StructType → Result LayoutError StructType
in_int32 s = if alignable s.offset s.align && ltb s.width (2 ^ 31) then ok s else err overflow

-- `GetBitFieldSpace`, whose argument is a `std::int8_t`.
abbrev pub get_bit_field_space : ℕ → LlvmType
get_bit_field_space bits =
    let w = bits % 2 ^ 8 in if leb w 8 || leb 128 w then space 1 else space ((w + 7) / 8)

-- `llvm::Type::isStructTy`.
abbrev is_struct_ty : LlvmType → Bool
is_struct_ty (of_type (Ty.struct i)) = true
is_struct_ty _ = false

abbrev pub reset_bit_field : StructType → StructType
reset_bit_field s = record s { bit_field_used_width = 0; bit_field_base_type_width = 0 }

-- What `AddBitFieldBeforeMember` and `AddSpaceBetweenBitField` begin with: the bits used so far
-- become bytes.
unfoldable pub close_bit_field : StructType → StructType
close_bit_field s =
    let offset = s.offset + make_align s.bit_field_used_width 8 / 8 in
    record s {
      llvm_types = get_bit_field_space s.bit_field_used_width ∷ s.llvm_types;
      index = s.index + 1;
      offset = offset;
      width = make_align offset s.align;
    }

-- `BitFieldPacked` of a struct.
unfoldable pub pack_struct : StructType → StructType
pack_struct s =
    let offset = s.offset + s.bit_field_base_type_width / 8 in
    record s {
      llvm_types = get_bit_field_space s.bit_field_base_type_width ∷ s.llvm_types;
      offset = offset;
      width = make_align offset s.align;
      index = s.index + 1;
    }

-- `StructType::BitFieldPacked`.
unfoldable pub bit_field_packed : StructType → StructType
unfolding pack_struct
bit_field_packed s = reset_bit_field (if s.is_struct then pack_struct s else s)

-- `GetLLVMTypeSize` is what LLVM's data layout says of a type, `struct_size` and `struct_align` what
-- it says of a struct.
module _ (get_llvm_type_size : LlvmType → ℕ) (struct_size struct_align : ℕ → ℕ) where
  -- `GetAlign` of the types; `none` is a failed assertion.
  unfoldable mutual
    pub get_align : Ty → Option ℕ
    get_align Ty.void = some 1
    get_align (Ty.arithmetic a) = some (arithmetic_width a)
    get_align (Ty.pointer e) = some 8
    get_align (Ty.array e n) = qual_align e
    get_align (Ty.struct i) = if i.complete then some (struct_align i.llvm_type) else some 1
    get_align (Ty.function r ps v) = none

    pub qual_align : QualType → Option ℕ
    qual_align (qual t q) = get_align t

  -- `StructType::AddLLVMType`.
  unfoldable pub add_llvm_type : Ty → StructType → StructType
  add_llvm_type t s =
      if s.is_struct then record s { llvm_types = of_type t ∷ s.llvm_types } else record s {
        llvm_types = (elim s.llvm_types [
          | [] ↦ of_type t ∷ []
          | back ∷ rest ↦
              (if ltb (get_llvm_type_size back) (get_llvm_type_size (of_type t))
                then of_type t ∷ rest
                else if get_llvm_type_size back == get_llvm_type_size (of_type t)
                    && is_struct_ty back
                    && not (is_struct_ty (of_type t))
                then of_type t ∷ rest
                else back ∷ rest)
        ]);
      }

  -- `StructType::AddSpace`, with the width in bytes.
  unfoldable pub add_space : ℕ → StructType → StructType
  add_space w s =
      if w == 0
      then s
      else (let space = get_bit_field_space (w * 8) in
          let offset = s.offset + get_llvm_type_size space in
          record s {
            llvm_types = space ∷ s.llvm_types;
            index = s.index + 1;
            offset = offset;
            width = make_align offset s.align;
          })

  -- `AddBitFieldBeforeMember` of a struct: the space behind the bit-field is counted.
  unfoldable pub fill_to_align : StructType → StructType
  unfolding add_space
  fill_to_align s =
      add_space (s.width - s.offset)
        (record s { bit_field_space_count = s.bit_field_space_count + (s.width - s.offset) })

  -- `AddBitFieldBeforeMember` of a union.
  unfoldable pub close_union_bit_field : StructType → StructType
  close_union_bit_field s =
      let type = get_bit_field_space s.bit_field_used_width in
      record s {
        llvm_types = (elim s.llvm_types [
          | [] ↦ type ∷ []
          | back ∷ rest ↦
              (if ltb (get_llvm_type_size back) (get_llvm_type_size type)
                then type ∷ rest
                else back ∷ rest)
        ]);
        index = s.index + 1;
        width = make_align (max s.width (make_align s.bit_field_used_width 8 / 8)) s.align;
      }

  -- `StructType::AddBitFieldBeforeMember`.
  unfoldable pub add_bit_field_before_member : StructType → Result LayoutError StructType
  unfolding close_bit_field fill_to_align close_union_bit_field in_int32
  add_bit_field_before_member s =
      if s.bit_field_used_width == 0
      then ok (record s { bit_field_base_type_width = 0 })
      else if s.bit_field_base_type_width == 0
      then err assertion
      else if s.is_struct
      then in_int32 (reset_bit_field (fill_to_align (close_bit_field s)))
      else in_int32 (reset_bit_field (close_union_bit_field s))

  -- `StructType::UnionAddBitField`.
  unfoldable pub union_add_bit_field : Ty → StructType → Result LayoutError StructType
  union_add_bit_field t s =
      if not (s.offset == 0)
      then err assertion
      else ok (record s {
        llvm_types = (elim s.llvm_types [
          | [] ↦ of_type t ∷ []
          | back ∷ rest ↦
              (if ltb (get_llvm_type_size back) (get_llvm_type_size (of_type t))
                then of_type t ∷ rest
                else back ∷ rest)
        ]);
        width = make_align (max s.width (s.bit_field_base_type_width / 8)) s.align;
      })

  -- `StructType::AddSpaceBetweenBitField`: the space goes to the end of the unit, even if it is empty.
  unfoldable pub add_space_between_bit_field : StructType → Result LayoutError StructType
  unfolding close_bit_field
  add_space_between_bit_field s =
      if s.bit_field_base_type_width == 0
      then err assertion
      else (let space =
            get_bit_field_space
              (s.bit_field_base_type_width - make_align s.bit_field_used_width 8) in
          let c = close_bit_field s in
          let offset = c.offset + get_llvm_type_size space in
          ok (record (reset_bit_field c) {
            llvm_types = space ∷ c.llvm_types;
            index = c.index + 1;
            offset = offset;
            width = make_align offset c.align;
          }))
