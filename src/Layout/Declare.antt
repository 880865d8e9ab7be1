-- ===== src/Layout/Declare.antt =====
-- `Parser::ParseStructDeclList` and `Parser::ParseBitField` of src/parse_decl.cpp: the declarators of a
-- list become members.
use kcc.Ast.Kinds.{is_bool, is_function}
use kcc.Layout.Fields.{
  Member, LlvmType, StructType, LayoutError, duplicate_member, incomplete_type,
  declared_as_function, declares_nothing, int_or_bool_expected, negative_width,
  zero_width_with_name, width_exceeds_type, assertion, get_align,
}
use kcc.Layout.Operations.{add_member, merge_anonymous, add_bit_field, finish, is_character}
use kcc.Prelude.{
  ℕ, ◌*◌, Bool, true, false, not, ◌&&◌, ◌||◌, ◌==◌, ltb, List, [], ◌∷◌, Option, none, some, Bytes,
  if◌then◌else◌, bit_or,
}
use kcc.Prelude.Results.{Result, ok, err, ◌>>=◌, or_err}
use kcc.Scope.{lookup}
use kcc.Ty.Arithmetic.{ArithmeticType, is_bool_ty, type_spec}
use kcc.Ty.CType.{Ty, QualType, qual, get_type, width, has_name}
use kcc.Ty.Spec.{k_int, k_unsigned}

-- The value of the constant expression behind `:`.
pub data BitWidth : Type 0 where
  negative : BitWidth
  non_negative : ℕ → BitWidth

-- A declarator with the type of its specifiers. `derive` is what `ParseDeclarator` makes of that type,
-- `inner` the objects in the scope of a struct or union without a name.
pub record Declarator : Type 0 where
  pub name : Bytes
  pub base_type : QualType
  pub derive : QualType → QualType
  pub bit_width : Option BitWidth
  pub inner : List Member

-- `bool` is stored as an 8-bit integer.
abbrev pub stored_type : QualType → QualType
stored_type (qual (Ty.arithmetic a) q) =
    if is_bool_ty a then qual (Ty.arithmetic ArithmeticType.uchar) q else qual (Ty.arithmetic a) q
stored_type t = t

abbrev pub copy : Declarator → QualType
copy d = d.derive (stored_type d.base_type)

abbrev pub is_empty : Bytes → Bool
is_empty [] = true
is_empty _ = false

-- `Type::IsIntTy`.
abbrev pub is_int : Ty → Bool
is_int (Ty.arithmetic a) = type_spec a == k_int || type_spec a == bit_or k_int k_unsigned
is_int _ = false

-- A struct or union whose tag has no name.
abbrev pub is_nameless : Ty → Bool
is_nameless (Ty.struct i) = not (has_name i)
is_nameless _ = false

abbrev pub is_open_array : Ty → Bool
is_open_array (Ty.array e none) = true
is_open_array _ = false

abbrev pub is_some : {A : Type 0} → Option A → Bool
is_some none = false
is_some (some x) = true

abbrev pub is_nil : {A : Type 0} → List A → Bool
is_nil [] = true
is_nil _ = false

-- `type->GetMember(name)`.
abbrev pub has_member : Bytes → StructType → Bool
has_member name s = is_some (lookup name s.scope)

module _ (get_llvm_type_size : LlvmType → ℕ) (struct_size struct_align : ℕ → ℕ) where
  -- `ObjectExpr::ObjectExpr`: the alignment is that of the type.
  unfoldable pub new_member : Bytes → Ty → Bool → ℕ → Result LayoutError Member
  new_member name t anonymous bits = do
    align ← or_err assertion (get_align get_llvm_type_size struct_size struct_align t)
    ok (record {
      name = name;
      ty = t;
      align = align;
      anonymous = anonymous;
      bit_field_width = bits;
      offset = 0;
      bit_field_begin = 0;
      indexs = [];
    })

  -- `ParseBitField` behind the reading of the width.
  unfoldable pub parse_bit_field :
      Bytes → Ty → BitWidth → StructType → Result LayoutError StructType
  unfolding new_member
  parse_bit_field name t negative s =
      if not (is_int t) && not (is_character t)
      then err int_or_bool_expected
      else err negative_width
  parse_bit_field name t (non_negative n) s =
      if not (is_int t) && not (is_character t) then err int_or_bool_expected else (do
        w ← or_err assertion (width struct_size t)
        if n == 0 && not (is_empty name)
            then err zero_width_with_name
            else if ltb (w * 8) n || is_bool t && ltb 1 n
            then err width_exceeds_type
            else if not (is_empty name) && has_member name s
            then err duplicate_member
            else (do
              m ← new_member name t (is_empty name) n
              add_bit_field get_llvm_type_size struct_size struct_align m s))

  -- A declarator without a name.
  unfoldable pub declare_anonymous : Declarator → StructType → Result LayoutError StructType
  unfolding new_member
  declare_anonymous d s =
      if is_nameless (get_type (copy d))
      then (do
        m ← new_member [] (get_type (copy d)) true 0
        merge_anonymous get_llvm_type_size struct_size struct_align m d.inner s)
      else err declares_nothing

  -- A declarator with a name; the answer is whether it is a flexible array member.
  unfoldable pub declare_named : Declarator → StructType → Result LayoutError (Bool × StructType)
  unfolding new_member
  declare_named d s =
      let t = get_type (copy d) in
      if has_member d.name s
      then err duplicate_member
      else if is_open_array t
      then (if s.is_struct && not (is_nil s.members)
          then (do
            m ← new_member d.name t false 0
            s' ← add_member get_llvm_type_size struct_size struct_align m s
            ok (true, s'))
          else err incomplete_type)
      else if is_function t
      then err declared_as_function
      else (do
        m ← new_member d.name t false 0
        s' ← add_member get_llvm_type_size struct_size struct_align m s
        ok (false, s'))

  -- One round of the inner loop.
  unfoldable pub declare_with :
      Option BitWidth → Declarator → StructType → Result LayoutError (Bool × StructType)
  unfolding parse_bit_field declare_anonymous declare_named
  declare_with (some w) d s = do s' ← parse_bit_field d.name (get_type (copy d)) w s; ok (false, s')
  declare_with none d s =
      if is_empty d.name then (do s' ← declare_anonymous d s; ok (false, s')) else declare_named d s

  unfoldable pub declare : Declarator → StructType → Result LayoutError (Bool × StructType)
  unfolding declare_with
  declare d s = declare_with d.bit_width d s

  -- The loops of `ParseStructDeclList` end behind a flexible array member. The declarators of all
  -- declarations are one list; the ones that are left are an answer too.
  unfoldable pub declare_all :
      List Declarator → StructType → Result LayoutError (List Declarator × StructType)
  unfolding declare
  declare_all [] s = ok ([], s)
  declare_all (d ∷ ds) s = do
    (last, s') ← declare d s
    rest ← (if last then ok (ds, s') else declare_all ds s')
    ok rest

  -- `ParseStructDeclList`; `SetComplete` calls `Finish`.
  unfoldable pub parse_struct_decl_list :
      List Declarator → StructType → Result LayoutError (List Declarator × StructType)
  unfolding declare_all
  parse_struct_decl_list ds s = do
    (rest, s') ← declare_all ds s
    s'' ← finish get_llvm_type_size struct_size struct_align s'
    ok (rest, s'')
