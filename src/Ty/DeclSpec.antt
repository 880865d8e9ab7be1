-- ===== src/Ty/DeclSpec.antt =====
-- `Parser::ParseDeclSpec` (src/parse_decl.cpp): the declaration specifiers, one after the other.
--
-- A specifier that another function of the parser reads (typeof, struct, union and enum specifiers,
-- _Alignas, an identifier looked up as a type name) stands here with what that function returned.
-- Attributes, which leave no trace in these variables, are left out.
use kcc.Prelude.{
  ℕ, Bool, true, false, not, List, [], ◌∷◌, Option, none, some, if◌then◌else◌, ltb, ◌==◌, bit_or,
}
use kcc.Ty.Arithmetic.{ArithmeticType, get}
use kcc.Ty.CType.{Ty, QualType, qual, get_type, get_type_qual}
use kcc.Ty.Spec.{
  k_signed, k_unsigned, k_void, k_char, k_short, k_int, k_long, k_float, k_double, k_bool,
  k_struct_union_spec, k_enum_spec, k_typedef_name, k_long_long, has, without,
}

pub data Keyword : Type 0 where
  void char short int long float double signed unsigned bool : Keyword

pub data Specifier : Type 0 where
  extension thread_local complex atomic : Specifier
  typedef extern static auto register : Specifier
  const restrict volatile inline noreturn : Specifier
  keyword : Keyword → Specifier
  typeof : QualType → Specifier
  struct_union enum : Ty → Specifier
  alignas : ℕ → Specifier
  type_name : QualType → Specifier
  other : Specifier

-- The calls of `Error`, a null pointer that is read, and the assertion of `ArithmeticType::Get`.
pub data SpecError : Type 0 where
  duplicated_storage_class two_or_more_types typeof_misplaced specifier_misplaced : SpecError
  no_thread_local no_complex no_atomic alignas_misplaced type_missing : SpecError
  null_pointer bad_type_spec : SpecError

pub data Result (A : Type 0) : Type 0 where
  ok : A → Result A
  err : SpecError → Result A

-- The local variables, and what the three pointers point to: `none` is a null pointer.
pub record State : Type 0 where
  pub storage_class_spec : Option ℕ
  pub func_spec : Option ℕ
  pub align : Option ℕ
  pub type_spec : ℕ
  pub type_qual : ℕ
  pub has_typeof : Bool
  pub ty : Option QualType

abbrev pub initial : Option ℕ → Option ℕ → Option ℕ → State
initial storage_class_spec func_spec align = record {
  storage_class_spec = storage_class_spec;
  func_spec = func_spec;
  align = align;
  type_spec = 0;
  type_qual = 0;
  has_typeof = false;
  ty = none;
}

-- `enum TypeSpecCompatibility`.
abbrev pub k_comp_signed : ℕ
k_comp_signed = bit_or k_short (bit_or k_int (bit_or k_long k_long_long))

abbrev pub k_comp_char : ℕ
k_comp_char = bit_or k_signed k_unsigned

abbrev pub k_comp_short : ℕ
k_comp_short = bit_or k_comp_char k_int

abbrev pub k_comp_int : ℕ
k_comp_int = bit_or k_comp_char (bit_or k_short (bit_or k_long k_long_long))

abbrev pub k_comp_long : ℕ
k_comp_long = bit_or k_comp_char (bit_or k_int k_long)

-- The bits that may be set when a keyword comes.
unfoldable pub allowed : Keyword → ℕ
allowed Keyword.void = 0
allowed Keyword.char = k_comp_char
allowed Keyword.short = k_comp_short
allowed Keyword.int = k_comp_int
allowed Keyword.long = k_comp_long
allowed Keyword.float = 0
allowed Keyword.double = k_long
allowed Keyword.signed = k_comp_signed
allowed Keyword.unsigned = k_comp_signed
allowed Keyword.bool = 0

-- The bits after a keyword.
unfoldable pub add_keyword : Keyword → ℕ → ℕ
add_keyword Keyword.void s = bit_or s k_void
add_keyword Keyword.char s = bit_or s k_char
add_keyword Keyword.short s = bit_or s k_short
add_keyword Keyword.int s = bit_or s k_int
add_keyword Keyword.long s =
    if has s k_long then bit_or (without s k_long) k_long_long else bit_or s k_long
add_keyword Keyword.float s = bit_or s k_float
add_keyword Keyword.double s = bit_or s k_double
add_keyword Keyword.signed s = bit_or s k_signed
add_keyword Keyword.unsigned s = bit_or s k_unsigned
add_keyword Keyword.bool s = bit_or s k_bool

-- The cases of the type specifiers that are one keyword.
unfoldable pub step_keyword : Keyword → State → Result State
unfolding allowed add_keyword
step_keyword k s =
    if not (without s.type_spec (allowed k) == 0)
    then err two_or_more_types
    else if s.has_typeof
    then err specifier_misplaced
    else ok (record s { type_spec = add_keyword k s.type_spec })

-- `CHECK_AND_SET_STORAGE_CLASS_SPEC`: the pointer is read before it is tested.
unfoldable pub step_storage : ℕ → State → Option ℕ → Result State
step_storage spec s none = err null_pointer
step_storage spec s (some old) =
    if not (old == 0)
    then err duplicated_storage_class
    else ok (record s { storage_class_spec = some (bit_or old spec) })

-- `CHECK_AND_SET_FUNC_SPEC`; a repeated specifier is a warning.
unfoldable pub step_function : ℕ → State → Option ℕ → Result State
step_function spec s none = err null_pointer
step_function spec s (some old) = ok (record s { func_spec = some (bit_or old spec) })

-- The cases of struct, union and enum.
unfoldable pub step_tagged : ℕ → Ty → State → Result State
step_tagged spec t s =
    if not (s.type_spec == 0)
    then err two_or_more_types
    else if s.has_typeof
    then err specifier_misplaced
    else ok (record s { ty = some (qual t 0); type_spec = bit_or s.type_spec spec })

unfoldable pub step_alignas : ℕ → State → Option ℕ → Result State
step_alignas n s none = err alignas_misplaced
step_alignas n s (some old) = ok (record s { align = some (if ltb old n then n else old) })

-- The type of a type name: an array of unknown length is copied, without its qualifiers.
unfoldable pub named_type : QualType → QualType
named_type (qual (Ty.array e none) q) = qual (Ty.array e none) 0
named_type t = t

abbrev pub add_qualifier : ℕ → State → State
add_qualifier q s = record s { type_qual = bit_or s.type_qual q }

-- What one round of the loop does: it goes on, or it leaves the loop.
pub data Round : Type 0 where
  more : State → Round
  finish : Round

abbrev pub go_on : Result State → Result Round
go_on (ok s) = ok (more s)
go_on (err e) = err e

-- The switch of the loop.
unfoldable pub step : Specifier → State → Result Round
unfolding step_keyword step_storage step_function step_tagged step_alignas named_type
step Specifier.extension s = ok (more s)
step (typeof t) s =
    if not (s.type_spec == 0)
    then err typeof_misplaced
    else ok (more (record s { ty = some t; has_typeof = true }))
step Specifier.typedef s = go_on (step_storage 0x1 s s.storage_class_spec)
step Specifier.extern s = go_on (step_storage 0x2 s s.storage_class_spec)
step Specifier.static s = go_on (step_storage 0x4 s s.storage_class_spec)
step Specifier.auto s = go_on (step_storage 0x10 s s.storage_class_spec)
step Specifier.register s = go_on (step_storage 0x20 s s.storage_class_spec)
step Specifier.thread_local s = err no_thread_local
step (keyword k) s = go_on (step_keyword k s)
step (struct_union t) s = go_on (step_tagged k_struct_union_spec t s)
step (enum t) s = go_on (step_tagged k_enum_spec t s)
step Specifier.complex s = if s.has_typeof then err specifier_misplaced else err no_complex
step Specifier.atomic s = if s.has_typeof then err specifier_misplaced else err no_atomic
step Specifier.const s = ok (more (add_qualifier 0x1 s))
step Specifier.restrict s = ok (more (add_qualifier 0x2 s))
step Specifier.volatile s = ok (more (add_qualifier 0x4 s))
step Specifier.inline s = go_on (step_function 0x1 s s.func_spec)
step Specifier.noreturn s = go_on (step_function 0x2 s s.func_spec)
step (alignas n) s = go_on (step_alignas n s s.align)
step (type_name t) s =
    if s.type_spec == 0
    then ok (
        more (record s { ty = some (named_type t); type_spec = bit_or s.type_spec k_typedef_name }))
    else ok finish
step Specifier.other s = ok finish

-- The type that `ArithmeticType::Get` makes of the bits, which asserts for bits that it does not know.
arithmetic_or : Option ArithmeticType → Result QualType
arithmetic_or none = err bad_type_spec
arithmetic_or (some a) = ok (qual (Ty.arithmetic a) 0)

-- The type that the loop has kept; a null type is a null pointer.
kept : Option QualType → Result QualType
kept none = err null_pointer
kept (some t) = ok t

-- The switch after the loop.
unfoldable pub base_type : State → Result QualType
unfolding arithmetic_or kept
base_type s =
    if s.type_spec == 0
    then (if not s.has_typeof then err type_missing else kept s.ty)
    else if s.type_spec == k_void
    then ok (qual Ty.void 0)
    else if s.type_spec == k_struct_union_spec
    then kept s.ty
    else if s.type_spec == k_enum_spec
    then kept s.ty
    else if s.type_spec == k_typedef_name
    then kept s.ty
    else arithmetic_or (get s.type_spec)

-- The type with the qualifiers that the loop has read, the variables behind the pointers, and what
-- is left of the input.
pub record Declared : Type 0 where
  pub type : QualType
  pub state : State
  pub rest : List Specifier

with_qualifiers : State → List Specifier → Result QualType → Result Declared
with_qualifiers s rest (err e) = err e
with_qualifiers s rest (ok t) = ok (record {
  type = qual (get_type t) (bit_or (get_type_qual t) s.type_qual);
  state = s;
  rest = rest;
})

unfoldable pub finish_decl_spec : State → List Specifier → Result Declared
unfolding base_type with_qualifiers
finish_decl_spec s rest = with_qualifiers s rest (base_type s)

-- `Parser::ParseDeclSpec` from a given state of its loop.
unfoldable pub parse_decl_spec : State → List Specifier → Result Declared
unfolding step finish_decl_spec
parse_decl_spec s [] = finish_decl_spec s []
parse_decl_spec s (x ∷ xs) = elim (step x s) [
  | err e ↦ err e
  | ok finish ↦ finish_decl_spec s (x ∷ xs)
  | ok (more t) ↦ parse_decl_spec t xs
]
