-- ===== src/Parse/Integer.antt =====
-- `Parser::ParseInteger` of src/parse_expr.cpp.
--
-- `std::stoull` is a parameter: from a base and a text the value, below 2 ^ 64, and the text behind the
-- number, or nothing where it throws. A type specifier is a mask as in Ty/Spec.
use kcc.Ast.Expr.{Expr, make_constant}
use kcc.Prelude.{
  ℕ, Bool, true, false, ◌&&◌, ◌||◌, ◌==◌, ltb, leb, bit_or, [], ◌∷◌, Option, none, some, Bytes,
  if◌then◌else◌,
}
use kcc.Prelude.Results.{Result, ok, ◌>>=◌, or_err}
use kcc.Ty.Arithmetic.{get}
use kcc.Ty.Spec.{has, k_unsigned, k_int, k_long, k_long_long}

pub data IntegerError : Type 0 where
  out_of_range invalid_suffix assertion : IntegerError

-- `ch == 'u' || ch == 'U'`, and the same for `l`.
abbrev pub is_u : ℕ → Bool
is_u c = c == 117 || c == 85

abbrev pub is_l : ℕ → Bool
is_l c = c == 108 || c == 76

-- The type specifier so far, where an `l` that may begin `ll` was not counted yet.
abbrev pub settled : Bool → ℕ → ℕ
settled one_l spec = if one_l then bit_or spec k_long else spec

-- The loop over the suffix. `one_l` says that the byte in front of the text was an `l` which is not
-- counted yet: the code looks at the byte behind it.
unfoldable pub parse_suffix : Bytes → Bool → ℕ → Option ℕ
parse_suffix [] one_l spec = some (settled one_l spec)
parse_suffix (c ∷ cs) one_l spec =
    if one_l && is_l c
    then parse_suffix cs false (bit_or spec k_long_long)
    else if c == 0
    then some (settled one_l spec)
    else if is_u c
    then (if has (settled one_l spec) k_unsigned
        then none
        else parse_suffix cs false (bit_or (settled one_l spec) k_unsigned))
    else if is_l c
    then (if has (settled one_l spec) k_long || has (settled one_l spec) k_long_long
        then none
        else parse_suffix cs true (settled one_l spec))
    else none

abbrev pub max_int32 : ℕ
max_int32 = 2147483647

abbrev pub max_uint32 : ℕ
max_uint32 = 4294967295

abbrev pub max_int64 : ℕ
max_int64 = 9223372036854775807

-- The switch for decimal numbers.
unfoldable pub decimal_type : ℕ → ℕ → ℕ
decimal_type spec val =
    if spec == 0
    then (if ltb max_int32 val then bit_or spec k_long else bit_or spec k_int)
    else if spec == k_unsigned
    then (if ltb max_uint32 val
        then bit_or spec (bit_or k_long k_unsigned)
        else bit_or spec (bit_or k_int k_unsigned))
    else spec

-- The switch for the other numbers.
unfoldable pub other_type : ℕ → ℕ → ℕ
other_type spec val =
    if spec == 0
    then (if ltb max_int64 val
        then bit_or spec (bit_or k_long k_unsigned)
        else if ltb max_uint32 val
        then bit_or spec k_long
        else if ltb max_int32 val
        then bit_or spec (bit_or k_int k_unsigned)
        else bit_or spec k_int)
    else if spec == k_unsigned
    then (if ltb max_uint32 val
        then bit_or spec (bit_or k_long k_unsigned)
        else bit_or spec (bit_or k_int k_unsigned))
    else if spec == k_long
    then (if ltb max_int64 val then bit_or spec (bit_or k_long k_unsigned) else bit_or spec k_long)
    else if spec == k_long_long
    then (if ltb max_int64 val
        then bit_or spec (bit_or k_long_long k_unsigned)
        else bit_or spec k_long_long)
    else spec

-- `0b` or `0B` with something behind it: what is behind it.
unfoldable pub binary_digits : Bytes → Option Bytes
binary_digits (z ∷ b ∷ d ∷ ds) = if z == 48 && (b == 98 || b == 66) then some (d ∷ ds) else none
binary_digits _ = none

-- `'1' <= str.front() && str.front() <= '9'`.
abbrev pub is_decimal : Bytes → Bool
is_decimal [] = false
is_decimal (c ∷ cs) = leb 49 c && leb c 57

module _ (stoull : ℕ → Bytes → Option (ℕ × Bytes)) where
  unfoldable pub read_value : Bytes → Option Bytes → Option (ℕ × Bytes)
  read_value str (some digits) = stoull 2 digits
  read_value str none = stoull 0 str

  unfoldable pub parse_integer : Bytes → Result IntegerError Expr
  unfolding binary_digits read_value parse_suffix decimal_type other_type
  parse_integer str = do
    (val, suffix) ← or_err out_of_range (read_value str (binary_digits str))
    spec ← or_err invalid_suffix (parse_suffix suffix false 0)
    type ←
        or_err assertion
          (get (if is_decimal str then decimal_type spec val else other_type spec val))
    ok (make_constant type val)
