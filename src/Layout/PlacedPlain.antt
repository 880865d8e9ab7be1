-- ===== src/Layout/PlacedPlain.antt =====
-- `ParseStructDeclList` of src/parse_decl.cpp on a struct without bit-fields and anonymous members.
use kcc.Ast.Kinds.{is_function}
use kcc.Layout.Declare.{Declarator, copy, is_empty, is_open_array}
use kcc.Layout.Fields.{Member, LlvmType, of_type, StructType, make_align, max, get_align}
use kcc.Layout.Operations.{member_type, push_member, unnamed_bit_field}
use kcc.Layout.Placed.{Placed}
use kcc.Prelude.{
  ℕ, ◌+◌, ◌-◌, Bool, true, false, not, ◌==◌, ◌≡◌, List, [], ◌∷◌, some, none, Bytes, same_bytes,
  every,
}
use kcc.Scope.{lookup}
use kcc.Ty.CType.{get_type, width}

-- No name of a list is `n`.
abbrev pub Unseen : List Bytes → Bytes → Type 0
Unseen seen n = every (λ m. not (same_bytes m n)) seen ≡ true

-- A member that `Finish` leaves where it is.
abbrev is_named : Member → Bool
is_named m = not (unnamed_bit_field m)

module _ (size : LlvmType → ℕ) (struct_size struct_align : ℕ → ℕ) where
  -- A declarator of a member with a name and a complete type of the size `w` and the alignment `a`.
  pub record Simple (d : Declarator) : Type 0 where
    pub named : is_empty d.name ≡ false
    pub no_bits : d.bit_width ≡ none
    pub closed : is_open_array (get_type (copy d)) ≡ false
    pub object : is_function (get_type (copy d)) ≡ false
    pub bytes : ℕ
    pub width_known : width struct_size (member_type (get_type (copy d))) ≡ some bytes
    pub alignment : ℕ
    pub align_known : get_align size struct_size struct_align (get_type (copy d)) ≡ some alignment
    pub align_positive : (alignment == 0) ≡ false

  -- Declarators with names that differ from one another and from the ones seen.
  pub data Fresh : List Bytes → List Declarator → Type 0 where
    no_more : {seen : List Bytes} → Fresh seen []
    one_more :
        {seen : List Bytes} {d : Declarator} {ds : List Declarator}
        → Simple d
        → Unseen seen d.name
        → Fresh (d.name ∷ seen) ds
        → Fresh seen (d ∷ ds)

  -- The bytes of the members and of their alignments.
  unfoldable pub total : {seen : List Bytes} {ds : List Declarator} → Fresh seen ds → ℕ
  total no_more = 0
  total (one_more p n f) = p.bytes + p.alignment + total f

  -- A struct with these names and no bit-fields.
  record Ready (seen : List Bytes) (s : StructType) : Type 0 where
    struct_type : s.is_struct ≡ true
    unused : s.bit_field_used_width ≡ 0
    no_space : s.bit_field_space_count ≡ 0
    all_named : every is_named s.members ≡ true
    names : (n : Bytes) → Unseen seen n → lookup n s.scope ≡ none

  -- The member that `AddMember` places in a struct without bit-fields, and the struct.
  abbrev placed_member : Member → StructType → Member
  placed_member m s = record m {
    ty = member_type m.ty;
    offset = make_align s.offset m.align - s.bit_field_space_count;
    indexs = s.index ∷ m.indexs;
  }

  abbrev grown_struct : Member → ℕ → StructType → StructType
  grown_struct m w s = record (push_member (placed_member m s) s) {
    align = max s.align m.align;
    bit_field_base_type_width = 0;
    index = s.index + 1;
    llvm_types = of_type (member_type m.ty) ∷ s.llvm_types;
    offset = make_align s.offset m.align + w;
    width = make_align (make_align s.offset m.align + w) (max s.align m.align);
  }

  -- The member of a declarator.
  abbrev member_of : Declarator → ℕ → Member
  member_of d a = record {
    name = d.name;
    ty = get_type (copy d);
    align = a;
    anonymous = false;
    bit_field_width = 0;
    offset = 0;
    bit_field_begin = 0;
    indexs = [];
  }
