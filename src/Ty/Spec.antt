-- ===== src/Ty/Spec.antt =====
-- The bit masks of src/type.h, and `ArithmeticType::DealWithTypeSpec` of src/type.cpp.
use kcc.Prelude.{ℕ, ◌-◌, ◌^◌, Bool, not, ◌||◌, if◌then◌else◌, ◌==◌, bit_and, bit_or}

-- `enum TypeSpec`.
abbrev pub k_signed : ℕ
k_signed = 0x1

abbrev pub k_unsigned : ℕ
k_unsigned = 0x2

abbrev pub k_void : ℕ
k_void = 0x4

abbrev pub k_char : ℕ
k_char = 0x8

abbrev pub k_short : ℕ
k_short = 0x10

abbrev pub k_int : ℕ
k_int = 0x20

abbrev pub k_long : ℕ
k_long = 0x40

abbrev pub k_float : ℕ
k_float = 0x80

abbrev pub k_double : ℕ
k_double = 0x100

abbrev pub k_bool : ℕ
k_bool = 0x200

abbrev pub k_struct_union_spec : ℕ
k_struct_union_spec = 0x1000

abbrev pub k_enum_spec : ℕ
k_enum_spec = 0x2000

abbrev pub k_typedef_name : ℕ
k_typedef_name = 0x4000

abbrev pub k_long_long : ℕ
k_long_long = 0x8000

-- `a & b`, as a condition.
abbrev pub has : ℕ → ℕ → Bool
has a b = not (bit_and a b == 0)

-- `a & ~b` on `std::uint32_t`.
abbrev pub without : ℕ → ℕ → ℕ
without a b = bit_and a (2 ^ 32 - 1 - b)

abbrev with_int : ℕ → ℕ
with_int spec =
    if spec == k_signed then k_int else if spec == k_unsigned then bit_or spec k_int else spec

abbrev drop_int : ℕ → ℕ
drop_int spec =
    if has spec k_short || has spec k_long || has spec k_long_long then without spec k_int else spec

-- `ArithmeticType::DealWithTypeSpec`.
unfoldable pub deal_with_type_spec : ℕ → ℕ
deal_with_type_spec spec = drop_int (without (with_int spec) k_signed)
