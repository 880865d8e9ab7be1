-- ===== src/Layout/Operations.antt =====
-- The operations of `StructType` that add members (src/type.cpp).
use kcc.Layout.Fields.{
  Member, LlvmType, StructType, LayoutError, duplicate_member, assertion, overflow, max, make_align,
  alignable, add_width, in_int32, get_align, add_llvm_type, add_space, add_bit_field_before_member,
  union_add_bit_field, bit_field_packed, add_space_between_bit_field,
}
use kcc.Prelude.{
  ℕ, ◌+◌, ◌-◌, ◌*◌, ◌^◌, Bool, true, false, not, ◌&&◌, ◌||◌, ◌==◌, ltb, List, [], ◌∷◌, none, some,
  Bytes, if◌then◌else◌,
}
use kcc.Prelude.Results.{Result, ok, err, ◌>>=◌, or_err}
use kcc.Scope.{assign, lookup}
use kcc.Ty.Arithmetic.{is_character_ty}
use kcc.Ty.CType.{Ty, width}

-- `Type::IsCharacterTy`, of any type.
abbrev pub is_character : Ty → Bool
is_character (Ty.arithmetic a) = is_character_ty a
is_character _ = false

-- The type of a flexible array member has no elements.
abbrev pub member_type : Ty → Ty
member_type (Ty.array e none) = Ty.array e (some 0)
member_type t = t

-- `members_.push_back` and `Scope::InsertUsual`.
abbrev pub push_member : Member → StructType → StructType
push_member m s = record s { members = m ∷ s.members; scope = assign m.name m s.scope }

abbrev pub is_bit_field : Member → Bool
is_bit_field m = not (m.bit_field_width == 0)

abbrev pub last_is_bit_field : List Member → Bool
last_is_bit_field [] = true
last_is_bit_field (m ∷ ms) = is_bit_field m

-- The names of an anonymous member, which become names of this struct: each object moves by `offset`.
-- The other identifiers of its scope are no objects and are left out.
unfoldable pub merge_names :
    ℕ → ℕ → List Member → List (Bytes × Member) → Result LayoutError (List (Bytes × Member))
merge_names offset index [] scope = ok scope
merge_names offset index (m ∷ ms) scope = elim (lookup m.name scope) [
  | some _ ↦ err duplicate_member
  | none ↦
      (let rest = merge_names offset index ms (
          assign m.name (record m { offset = offset + m.offset; indexs = index ∷ m.indexs })
            scope) in
        if ltb (offset + m.offset) (2 ^ 31) then rest else err overflow)
]

abbrev pub unnamed_bit_field : Member → Bool
unnamed_bit_field m = m.anonymous && is_bit_field m

-- `std::remove_if` with the unnamed bit-fields.
abbrev pub named_members : List Member → List Member
named_members [] = []
named_members (m ∷ ms) = if unnamed_bit_field m then named_members ms else m ∷ named_members ms

module _ (get_llvm_type_size : LlvmType → ℕ) (struct_size struct_align : ℕ → ℕ) where
  abbrev type_width : Ty → Result LayoutError ℕ
  type_width t = or_err assertion (width struct_size t)

  -- The members of a struct end at `end`.
  unfoldable pub extend : ℕ → StructType → Result LayoutError StructType
  extend end s =
      if alignable end s.align
      then ok (record s { offset = end; width = make_align end s.align })
      else err overflow

  -- How `AddMember` and `MergeAnonymous` end: a struct grows, a union is as wide as its widest member.
  unfoldable pub grow : ℕ → ℕ → StructType → Result LayoutError StructType
  unfolding add_width extend
  grow offset w s =
      if s.is_struct
      then (do end ← add_width offset w; extend end s)
      else if not (s.offset == 0)
      then err assertion
      else (let widest = max s.width (if ltb w (2 ^ 31) then w else 0) in
          if alignable widest s.align
          then ok (record s { width = make_align widest s.align })
          else err overflow)

  -- `StructType::AddMember`.
  unfoldable pub add_member : Member → StructType → Result LayoutError StructType
  unfolding grow
  add_member m s0 = do
    s ←
        add_bit_field_before_member get_llvm_type_size struct_size struct_align
          (record s0 { align = max s0.align m.align })
    w ← type_width (member_type m.ty)
    if m.align == 0
        then err assertion
        else if not (alignable s.offset m.align)
        then err overflow
        else (let offset = make_align s.offset m.align in
            let placed = record m {
              ty = member_type m.ty;
              offset = offset - s.bit_field_space_count;
              indexs = s.index ∷ m.indexs;
            } in
            grow offset w (
              add_llvm_type get_llvm_type_size struct_size struct_align (member_type m.ty)
                (push_member placed (record s { index = s.index + 1 }))))

  -- `StructType::MergeAnonymous`, with the objects in the scope of the member's type.
  unfoldable pub merge_anonymous : Member → List Member → StructType → Result LayoutError StructType
  unfolding grow merge_names
  merge_anonymous m inner s0 = do
    s ←
        add_bit_field_before_member get_llvm_type_size struct_size struct_align
          (record s0 { align = max s0.align m.align })
    w ← type_width m.ty
    if m.align == 0
        then err assertion
        else if not (alignable s.offset m.align)
        then err overflow
        else (let offset = make_align s.offset m.align in
            let placed = record m { offset = offset; indexs = s.index ∷ m.indexs } in
            do
              scope ← merge_names offset s.index inner s.scope
              grow offset w (
                  add_llvm_type get_llvm_type_size struct_size struct_align m.ty (record s {
                    members = placed ∷ s.members;
                    scope = scope;
                    index = s.index + 1;
                  })))

  -- The bit-field becomes a member at the bit `begin` of the current unit.
  unfoldable pub push_bit_field : Member → ℕ → StructType → Result LayoutError StructType
  push_bit_field m begin s =
      let t =
        push_member
          (record m { offset = s.offset; bit_field_begin = begin; indexs = s.index ∷ m.indexs })
          s in
      if not s.is_struct
      then union_add_bit_field get_llvm_type_size struct_size struct_align m.ty t
      else ok t

  -- How `AddBitField` ends: the bits are used, and a full unit is closed.
  unfoldable pub use_bits : ℕ → StructType → Result LayoutError StructType
  use_bits bits s =
      let used = s.bit_field_used_width + bits in
      let t = record s { bit_field_used_width = used } in
      if ltb s.bit_field_base_type_width used
      then err assertion
      else if used == s.bit_field_base_type_width
      then ok (bit_field_packed t)
      else ok t

  -- A first bit-field behind another member begins at a multiple of the alignment.
  unfoldable pub align_first : StructType → StructType
  align_first s =
      if s.is_struct && not (last_is_bit_field s.members)
      then (let w = make_align s.offset s.align in
          add_space get_llvm_type_size struct_size struct_align (w - s.offset)
            (record s { width = w }))
      else s

  -- A bit-field of the width 0 opens no unit, but leaves its type's width behind.
  unfoldable pub open_unit : Member → ℕ → StructType → Result LayoutError StructType
  unfolding push_bit_field use_bits
  open_unit m w s =
      let t = record s { bit_field_base_type_width = w * 8 } in
      if m.bit_field_width == 0
      then ok t
      else (do u ← push_bit_field m 0 t; use_bits m.bit_field_width u)

  -- `AddBitField` where no unit is open.
  unfoldable pub first_bit_field : Member → StructType → Result LayoutError StructType
  unfolding align_first open_unit
  first_bit_field m s =
      if not (s.bit_field_base_type_width == 0)
      then err assertion
      else (do w ← type_width m.ty; open_unit m w (align_first s))

  -- `AddBitField` with the width 0 where a unit is open.
  unfoldable pub break_bit_field : Member → StructType → Result LayoutError StructType
  break_bit_field m s =
      if not s.is_struct || is_character m.ty
      then ok s
      else add_space_between_bit_field get_llvm_type_size struct_size struct_align s

  -- A struct begins a new unit if the bits do not fit in the one that is open.
  unfoldable pub make_room : ℕ → ℕ → StructType → Result LayoutError StructType
  make_room bits base s =
      let t = record s { bit_field_base_type_width = max s.bit_field_base_type_width base } in
      if ltb t.bit_field_base_type_width (t.bit_field_used_width + bits) && t.is_struct
      then (do
        u ← add_space_between_bit_field get_llvm_type_size struct_size struct_align t
        ok (record u { bit_field_base_type_width = base }))
      else ok t

  -- `AddBitField` with bits where a unit is open.
  unfoldable pub next_bit_field : Member → StructType → Result LayoutError StructType
  unfolding make_room push_bit_field use_bits
  next_bit_field m s = do
    w ← type_width m.ty
    t ← make_room m.bit_field_width (w * 8) s
    u ← push_bit_field m (if t.is_struct then t.bit_field_used_width else 0) t
    use_bits m.bit_field_width u

  abbrev raise_align : Member → StructType → StructType
  raise_align m s =
      if m.bit_field_width == 0 || ltb 8 m.bit_field_width
      then record s { align = max m.align s.align }
      else s

  unfoldable pub add_aligned : Member → StructType → Result LayoutError StructType
  unfolding first_bit_field break_bit_field next_bit_field
  add_aligned m s =
      if s.bit_field_used_width == 0
      then first_bit_field m s
      else if m.bit_field_width == 0
      then break_bit_field m s
      else next_bit_field m s

  -- `StructType::AddBitField`. The type is `int` or a character type, so that the widths in bits fit
  -- in their `std::int8_t`.
  unfoldable pub add_bit_field : Member → StructType → Result LayoutError StructType
  unfolding add_aligned in_int32
  add_bit_field m s = do t ← add_aligned m (raise_align m s); in_int32 t

  -- The alignment of the last member, a bit-field, of a unit that is open.
  unfoldable pub align_to_last : List Member → StructType → Result LayoutError StructType
  align_to_last [] s = err assertion
  align_to_last (m ∷ ms) s = do
    a ← or_err assertion (get_align get_llvm_type_size struct_size struct_align m.ty)
    ok (record s { align = max s.align a })

  unfoldable pub align_last : StructType → Result LayoutError StructType
  unfolding align_to_last
  align_last s = align_to_last s.members s

  -- `StructType::Finish`, but for the body that LLVM's type is given.
  unfoldable pub finish : StructType → Result LayoutError StructType
  unfolding align_last
  finish s0 = do
    s ←
        (if not (s0.bit_field_used_width == 0)
          then (do
            t ← align_last s0
            add_bit_field_before_member get_llvm_type_size struct_size struct_align t)
          else ok s0)
    ok (record s { members = named_members s.members })
