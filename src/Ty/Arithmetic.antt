-- ===== src/Ty/Arithmetic.antt =====
-- `ArithmeticType` of src/type.cpp, and the tests of `Type` that read its `type_spec_`. Each of the
-- static objects of `ArithmeticType::Get` is a constructor. `none` is a failed assertion.
use kcc.Prelude.{
  ℕ, ◌-◌, ◌^◌, Bool, true, false, not, ◌&&◌, ◌||◌, List, [], ◌∷◌, Option, none, some, ltb, leb,
  if◌then◌else◌, ◌==◌, bit_or,
}
use kcc.Ty.Spec.{
  k_unsigned, k_char, k_short, k_int, k_long, k_float, k_double, k_bool, k_long_long, has,
  deal_with_type_spec,
}

pub data ArithmeticType : Type 0 where
  bool char uchar short ushort int uint long ulong : ArithmeticType
  long_long ulong_long float double long_double : ArithmeticType

-- The field `type_spec_`.
unfoldable pub type_spec : ArithmeticType → ℕ
type_spec ArithmeticType.bool = k_bool
type_spec ArithmeticType.char = k_char
type_spec ArithmeticType.uchar = bit_or k_char k_unsigned
type_spec ArithmeticType.short = k_short
type_spec ArithmeticType.ushort = bit_or k_short k_unsigned
type_spec ArithmeticType.int = k_int
type_spec ArithmeticType.uint = bit_or k_int k_unsigned
type_spec ArithmeticType.long = k_long
type_spec ArithmeticType.ulong = bit_or k_long k_unsigned
type_spec ArithmeticType.long_long = k_long_long
type_spec ArithmeticType.ulong_long = bit_or k_long_long k_unsigned
type_spec ArithmeticType.float = k_float
type_spec ArithmeticType.double = k_double
type_spec ArithmeticType.long_double = bit_or k_double k_long

-- The switch of `ArithmeticType::Get`; `none` is its default case.
find_type : ℕ → Option ArithmeticType
find_type spec =
    if spec == k_bool
    then some ArithmeticType.bool
    else if spec == k_char
    then some ArithmeticType.char
    else if spec == bit_or k_char k_unsigned
    then some ArithmeticType.uchar
    else if spec == k_short
    then some ArithmeticType.short
    else if spec == bit_or k_short k_unsigned
    then some ArithmeticType.ushort
    else if spec == k_int
    then some ArithmeticType.int
    else if spec == bit_or k_int k_unsigned
    then some ArithmeticType.uint
    else if spec == k_long
    then some ArithmeticType.long
    else if spec == bit_or k_long k_unsigned
    then some ArithmeticType.ulong
    else if spec == k_long_long
    then some ArithmeticType.long_long
    else if spec == bit_or k_long_long k_unsigned
    then some ArithmeticType.ulong_long
    else if spec == k_float
    then some ArithmeticType.float
    else if spec == k_double
    then some ArithmeticType.double
    else if spec == bit_or k_double k_long
    then some ArithmeticType.long_double
    else none

-- `ArithmeticType::Get`.
unfoldable pub get : ℕ → Option ArithmeticType
unfolding find_type deal_with_type_spec
get spec = find_type (deal_with_type_spec spec)

-- `Type::IsBoolTy`, `IsFloatTy`, `IsDoubleTy`, `IsLongDoubleTy`.
unfoldable pub is_bool_ty : ArithmeticType → Bool
unfolding type_spec
is_bool_ty t = type_spec t == k_bool

-- `Type::IsRealFloatPointTy`, which `Type::IsFloatPointTy` calls.
unfoldable pub is_float_point_ty : ArithmeticType → Bool
unfolding type_spec
is_float_point_ty t =
    type_spec t == k_float || type_spec t == k_double || type_spec t == bit_or k_long k_double

-- `Type::IsIntegerTy`, of an arithmetic type.
unfoldable pub is_integer_ty : ArithmeticType → Bool
unfolding is_float_point_ty is_bool_ty
is_integer_ty t = not (is_float_point_ty t) && not (is_bool_ty t)

-- `Type::IsCharacterTy`.
unfoldable pub is_character_ty : ArithmeticType → Bool
unfolding type_spec
is_character_ty t = has (type_spec t) k_char

-- `Type::IsUnsigned`, of an arithmetic type.
unfoldable pub is_unsigned : ArithmeticType → Bool
unfolding is_bool_ty is_integer_ty type_spec
is_unsigned t =
    if is_bool_ty t
    then true
    else if not (is_integer_ty t)
    then false
    else has (type_spec t) k_unsigned

-- `ArithmeticType::GetWidth`, in bytes.
unfoldable pub arithmetic_width : ArithmeticType → ℕ
arithmetic_width ArithmeticType.bool = 1
arithmetic_width ArithmeticType.char = 1
arithmetic_width ArithmeticType.uchar = 1
arithmetic_width ArithmeticType.short = 2
arithmetic_width ArithmeticType.ushort = 2
arithmetic_width ArithmeticType.int = 4
arithmetic_width ArithmeticType.uint = 4
arithmetic_width ArithmeticType.long = 8
arithmetic_width ArithmeticType.ulong = 8
arithmetic_width ArithmeticType.long_long = 8
arithmetic_width ArithmeticType.ulong_long = 8
arithmetic_width ArithmeticType.float = 4
arithmetic_width ArithmeticType.double = 8
arithmetic_width ArithmeticType.long_double = 16

-- `ArithmeticType::Rank`.
unfoldable pub rank : ArithmeticType → ℕ
rank ArithmeticType.bool = 0
rank ArithmeticType.char = 1
rank ArithmeticType.uchar = 1
rank ArithmeticType.short = 2
rank ArithmeticType.ushort = 2
rank ArithmeticType.int = 3
rank ArithmeticType.uint = 3
rank ArithmeticType.long = 4
rank ArithmeticType.ulong = 4
rank ArithmeticType.long_long = 5
rank ArithmeticType.ulong_long = 5
rank ArithmeticType.float = 6
rank ArithmeticType.double = 7
rank ArithmeticType.long_double = 8

-- `ArithmeticType::MaxIntegerValue`; no case for the others.
unfoldable pub max_integer_value : ArithmeticType → Option ℕ
max_integer_value ArithmeticType.char = some (2 ^ 7 - 1)
max_integer_value ArithmeticType.uchar = some (2 ^ 8 - 1)
max_integer_value ArithmeticType.short = some (2 ^ 15 - 1)
max_integer_value ArithmeticType.ushort = some (2 ^ 16 - 1)
max_integer_value ArithmeticType.int = some (2 ^ 31 - 1)
max_integer_value ArithmeticType.uint = some (2 ^ 32 - 1)
max_integer_value ArithmeticType.long = some (2 ^ 63 - 1)
max_integer_value ArithmeticType.long_long = some (2 ^ 63 - 1)
max_integer_value ArithmeticType.ulong = some (2 ^ 64 - 1)
max_integer_value ArithmeticType.ulong_long = some (2 ^ 64 - 1)
max_integer_value _ = none

-- `ArithmeticType::Equal`, of two arithmetic types.
unfoldable pub arithmetic_equal : ArithmeticType → ArithmeticType → Bool
unfolding type_spec
arithmetic_equal a b = type_spec a == type_spec b

-- `ArithmeticType::IntegerPromote`, with its assertion.
unfoldable pub integer_promote : ArithmeticType → Option ArithmeticType
unfolding is_integer_ty is_bool_ty rank
integer_promote t =
    if is_integer_ty t || is_bool_ty t
    then some (if ltb (rank t) (rank ArithmeticType.int) then ArithmeticType.int else t)
    else none

-- The case of `MaxType` where one type is unsigned and the other signed.
max_mixed : ArithmeticType → ArithmeticType → Option ArithmeticType
unfolding rank max_integer_value type_spec get
max_mixed unsigned_type signed_type =
    if leb (rank signed_type) (rank unsigned_type)
    then some unsigned_type
    else elim (max_integer_value signed_type) [
      | none ↦ none
      | some s ↦ elim (max_integer_value unsigned_type) [
        | none ↦ none
        | some u ↦
            if leb u s then some signed_type else get (bit_or (type_spec signed_type) k_unsigned)
      ]
    ]

max_higher : ArithmeticType → ArithmeticType → ArithmeticType
unfolding rank
max_higher l r = if leb (rank r) (rank l) then l else r

-- The case of `MaxType` behind the promotions.
max_promoted : ArithmeticType → ArithmeticType → Option ArithmeticType
unfolding arithmetic_equal is_unsigned max_higher max_mixed
max_promoted l r =
    if arithmetic_equal l r
    then some l
    else if is_unsigned l && is_unsigned r || not (is_unsigned l) && not (is_unsigned r)
    then some (max_higher l r)
    else if is_unsigned l
    then max_mixed l r
    else max_mixed r l

-- `ArithmeticType::MaxType`.
unfoldable pub max_type : ArithmeticType → ArithmeticType → Option ArithmeticType
unfolding is_integer_ty is_bool_ty max_higher integer_promote max_promoted
max_type lhs rhs =
    if (not (is_integer_ty lhs) || not (is_integer_ty rhs))
      && (not (is_bool_ty lhs) && not (is_bool_ty rhs))
    then some (max_higher lhs rhs)
    else elim (integer_promote lhs) [
      | none ↦ none
      | some l ↦ elim (integer_promote rhs) [ none ↦ none | some r ↦ max_promoted l r ]
    ]

abbrev pub all_types : List ArithmeticType
all_types =
    ArithmeticType.bool ∷ ArithmeticType.char ∷ ArithmeticType.uchar ∷ ArithmeticType.short
    ∷ ArithmeticType.ushort ∷ ArithmeticType.int ∷ ArithmeticType.uint ∷ ArithmeticType.long
    ∷ ArithmeticType.ulong ∷ ArithmeticType.long_long ∷ ArithmeticType.ulong_long
    ∷ ArithmeticType.float ∷ ArithmeticType.double ∷ ArithmeticType.long_double ∷ []
