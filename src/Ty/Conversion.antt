-- ===== src/Ty/Conversion.antt =====
-- `MaxType` and the usual arithmetic conversions of the C standard, 6.3.1.8, written out from the standard.
use kcc.Prelude.{ℕ, Bool, true, false, Option, none, some, ◌≡◌, ltb, leb, if◌then◌else◌, arith}
use kcc.Ty.Arithmetic.{ArithmeticType, max_type}

-- Signedness and width in bits of the standard integer types of this target.
pub data Sign : Type 0 where
  signed unsigned : Sign

pub data Kind : Type 0 where
  integer : Sign → ℕ → ℕ → Kind
  floating : ℕ → Kind

-- The kind of a type: a sign, a conversion rank and a width in bits, or a floating format.
abbrev pub kind : ArithmeticType → Kind
kind ArithmeticType.bool = integer unsigned 0 1
kind ArithmeticType.char = integer signed 1 8
kind ArithmeticType.uchar = integer unsigned 1 8
kind ArithmeticType.short = integer signed 2 16
kind ArithmeticType.ushort = integer unsigned 2 16
kind ArithmeticType.int = integer signed 3 32
kind ArithmeticType.uint = integer unsigned 3 32
kind ArithmeticType.long = integer signed 4 64
kind ArithmeticType.ulong = integer unsigned 4 64
kind ArithmeticType.long_long = integer signed 5 64
kind ArithmeticType.ulong_long = integer unsigned 5 64
kind ArithmeticType.float = floating 1
kind ArithmeticType.double = floating 2
kind ArithmeticType.long_double = floating 3

-- The unsigned type of the same rank.
abbrev pub to_unsigned : Kind → Kind
to_unsigned (integer s r w) = integer unsigned r w
to_unsigned (floating f) = floating f

-- 6.3.1.1: a type whose values all fit in `int` becomes `int`.
abbrev pub promote : Kind → Kind
promote (integer s r w) = if ltb w 32 then integer signed 3 32 else integer s r w
promote (floating f) = floating f

-- 6.3.1.8 for two promoted integer types.
abbrev pub common : Kind → Kind → Kind
common (integer signed r w) (integer signed r' w') =
    if leb r' r then integer signed r w else integer signed r' w'
common (integer unsigned r w) (integer unsigned r' w') =
    if leb r' r then integer unsigned r w else integer unsigned r' w'
common (integer unsigned r w) (integer signed r' w') =
    if leb r' r
    then integer unsigned r w
    else if ltb w w'
    then integer signed r' w'
    else integer unsigned r' w'
common (integer signed r w) (integer unsigned r' w') =
    if leb r r'
    then integer unsigned r' w'
    else if ltb w' w
    then integer signed r w
    else integer unsigned r w
common (floating f) (floating f') = if leb f' f then floating f else floating f'
common (floating f) (integer s r w) = floating f
common (integer s r w) (floating f) = floating f

-- The usual arithmetic conversions.
abbrev pub usual : ArithmeticType → ArithmeticType → Kind
usual a b = common (promote (kind a)) (promote (kind b))

abbrev is_floating : Kind → Bool
is_floating (floating f) = true
is_floating (integer s r w) = false

-- One operand is `_Bool` and the other one a floating type.
abbrev pub is_bool_with_float : ArithmeticType → ArithmeticType → Bool
is_bool_with_float ArithmeticType.bool b = is_floating (kind b)
is_bool_with_float a ArithmeticType.bool = is_floating (kind a)
is_bool_with_float _ _ = false

-- The kind of a result, if there is one.
unfoldable pub kind_of_result : Option ArithmeticType → Option Kind
kind_of_result none = none
kind_of_result (some t) = some (kind t)

-- `MaxType` is the usual arithmetic conversions, for all pairs of types but those of `_Bool` and a
-- floating type, where it fails: there `IntegerPromote` is called on the floating type, against its
-- assertion.
pub max_type-usual :
    (a b : ArithmeticType)
    → kind_of_result (max_type a b) ≡ (if is_bool_with_float a b then none else some (usual a b))
unfolding max_type kind_of_result
max_type-usual a b = ground arith
