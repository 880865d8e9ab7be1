-- ===== src/Layout/Tests.antt =====
-- Members of structs and unions at concrete declarations.
use kcc.Layout.Declare.{
  Declarator, BitWidth, is_empty, non_negative, declare_all, parse_struct_decl_list,
}
use kcc.Layout.Fields.{
  Member, LlvmType, of_type, space, StructType, new_struct_type, LayoutError, assertion,
}
use kcc.Layout.Operations.{finish}
use kcc.Layout.Placed.{Placed}
use kcc.Layout.PlacedPlain.{Simple}
use kcc.Prelude.{
  ◌==◌, ℕ, ◌≡◌, refl, Bool, true, false, List, [], ◌∷◌, map, Option, some, none, Bytes, codes,
}
use kcc.Prelude.Results.{Result, ok, err, ◌>>=◌}
use kcc.Ty.Arithmetic.{ArithmeticType, is_bool_ty, arithmetic_width}
use kcc.Ty.CType.{Ty, qual, width}

abbrev struct_size : ℕ → ℕ
struct_size i = 0

abbrev struct_align : ℕ → ℕ
struct_align i = 1

abbrev size_or : Option ℕ → ℕ
size_or none = 0
size_or (some w) = w

abbrev type_size : LlvmType → ℕ
type_size (of_type t) = size_or (width struct_size t)
type_size (space n) = n

abbrev declarator : Bytes → ArithmeticType → Option BitWidth → Declarator
declarator name a w = record {
  name = name;
  base_type = qual (Ty.arithmetic a) 0;
  derive = λ t. t;
  bit_width = w;
  inner = [];
}

abbrev field : Bytes → ArithmeticType → Declarator
field name a = declarator name a none

abbrev bits : Bytes → ℕ → Declarator
bits name n = declarator name ArithmeticType.int (some (non_negative n))

-- Name, offset and first bit, the last member first.
abbrev place : Member → Bytes × ℕ × ℕ
place m = (m.name, m.offset, m.bit_field_begin)

abbrev places : Bool → List Declarator → Result LayoutError (List (Bytes × ℕ × ℕ))
places is_struct ds = do
  (rest, s) ←
      parse_struct_decl_list type_size struct_size struct_align ds (new_struct_type is_struct)
  ok (map place s.members)

-- `char c; int x : 5; int y : 6; int : 3;`
abbrev flags : List Declarator
flags =
    field (codes "c") ArithmeticType.char ∷ bits (codes "x") 5 ∷ bits (codes "y") 6 ∷ bits [] 3 ∷ []

flags_placed :
    places true flags ≡ ok ((codes "y", 1, 5) ∷ (codes "x", 1, 0) ∷ (codes "c", 0, 0) ∷ [])
unfolding parse_struct_decl_list kcc.Scope.lookup kcc.Ty.Arithmetic.is_bool_ty
    kcc.Layout.Fields.get_align kcc.Layout.Operations.add_member
    kcc.Layout.Fields.add_bit_field_before_member width kcc.Ty.Arithmetic.arithmetic_width
    kcc.Layout.Fields.add_llvm_type kcc.Scope.assign kcc.Layout.Operations.add_bit_field finish
flags_placed = refl

-- `int x : 5; int i;`: the member `i` is at the byte 4, but has the offset 1.
space_not_in_offset :
    places true (bits (codes "x") 5 ∷ field (codes "i") ArithmeticType.int ∷ [])
    ≡ ok ((codes "i", 1, 0) ∷ (codes "x", 0, 0) ∷ [])
unfolding parse_struct_decl_list kcc.Ty.Arithmetic.is_bool_ty width
    kcc.Ty.Arithmetic.arithmetic_width kcc.Scope.lookup kcc.Layout.Fields.get_align
    kcc.Layout.Operations.add_bit_field kcc.Scope.assign kcc.Layout.Operations.add_member
    kcc.Layout.Fields.add_bit_field_before_member kcc.Layout.Fields.add_llvm_type finish
space_not_in_offset = refl

-- `int x : 25; int y : 25;`: an empty space takes a byte.
empty_space :
    places true (bits (codes "x") 25 ∷ bits (codes "y") 25 ∷ [])
    ≡ ok ((codes "y", 5, 0) ∷ (codes "x", 0, 0) ∷ [])
unfolding parse_struct_decl_list kcc.Ty.Arithmetic.is_bool_ty width
    kcc.Ty.Arithmetic.arithmetic_width kcc.Scope.lookup kcc.Layout.Fields.get_align
    kcc.Layout.Operations.add_bit_field kcc.Scope.assign
    kcc.Layout.Fields.add_space_between_bit_field finish
    kcc.Layout.Fields.add_bit_field_before_member
empty_space = refl

-- `union { int x : 20; int y : 20; }`: the widths of a union's bit-fields are added up.
union_bits_overflow : places false (bits (codes "x") 20 ∷ bits (codes "y") 20 ∷ []) ≡ err assertion
unfolding parse_struct_decl_list kcc.Ty.Arithmetic.is_bool_ty width
    kcc.Ty.Arithmetic.arithmetic_width kcc.Scope.lookup kcc.Layout.Fields.get_align
    kcc.Layout.Operations.add_bit_field kcc.Layout.Fields.union_add_bit_field kcc.Scope.assign
union_bits_overflow = refl

-- `int : 0; int x : 3;`: the width that the first one leaves behind fails the next one's assertion.
zero_width_first : places true (bits [] 0 ∷ bits (codes "x") 3 ∷ []) ≡ err assertion
unfolding parse_struct_decl_list kcc.Ty.Arithmetic.is_bool_ty width
    kcc.Ty.Arithmetic.arithmetic_width kcc.Layout.Fields.get_align
    kcc.Layout.Operations.add_bit_field kcc.Scope.lookup
zero_width_first = refl

abbrev chars : Bytes → ℕ → Declarator
chars name n = record (field name ArithmeticType.char) {
  derive = λ t. qual (Ty.array t (some n)) 0;
}

-- `char x[100]; char a[4294967246]; char b;`: the width of `a` is -50 as a `std::int32_t`, so `b` lies
-- within `x`.
negative_array :
    places true (
      chars (codes "x") 100
      ∷ chars (codes "a") 4294967246
      ∷ field (codes "b") ArithmeticType.char
      ∷ [])
    ≡ ok ((codes "b", 50, 0) ∷ (codes "a", 100, 0) ∷ (codes "x", 0, 0) ∷ [])
unfolding parse_struct_decl_list kcc.Scope.lookup kcc.Ty.Arithmetic.is_bool_ty
    kcc.Layout.Fields.get_align kcc.Layout.Operations.add_member
    kcc.Layout.Fields.add_bit_field_before_member width kcc.Ty.Arithmetic.arithmetic_width
    kcc.Layout.Fields.add_llvm_type kcc.Scope.assign finish
negative_array = refl

abbrev value : {A : Type 0} → A → Result LayoutError A → A
value a (ok b) = b
value a (err e) = a

-- The struct of `flags`, before and behind `Finish`.
abbrev declared : List Declarator × StructType
declared =
    value ([], new_struct_type true)
      (declare_all type_size struct_size struct_align flags (new_struct_type true))

abbrev finished : StructType
finished = value (new_struct_type true) (finish type_size struct_size struct_align declared.1)

-- `char c; int i; double d;`
abbrev plain_fields : List Declarator
plain_fields =
    field (codes "c") ArithmeticType.char
    ∷ field (codes "i") ArithmeticType.int
    ∷ field (codes "d") ArithmeticType.double
    ∷ []

unfoldable simple_field :
    (name : Bytes) (a : ArithmeticType) (w : ℕ)
    → is_empty name ≡ false
    → is_bool_ty a ≡ false
    → arithmetic_width a ≡ w
    → (w == 0) ≡ false
    → Simple type_size struct_size struct_align (field name a)
unfolding width kcc.Layout.Fields.get_align
simple_field name a w n b h p = record {
  named = n;
  no_bits = refl;
  closed = rw b refl;
  object = rw b refl;
  bytes = w;
  width_known = rw (b, h) refl;
  alignment = w;
  align_known = rw (b, h) refl;
  align_positive = p;
}
