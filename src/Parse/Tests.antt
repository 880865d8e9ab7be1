-- ===== src/Parse/Tests.antt =====
-- Constants of src/parse_expr.cpp at concrete texts.
use kcc.Ast.Expr.{Expr, constant}
use kcc.Parse.Character.{parse_character, parse_character-byte}
use kcc.Parse.Integer.{parse_integer, is_decimal, IntegerError, invalid_suffix}
use kcc.Parse.IntegerLaws.{parse_integer-table}
use kcc.Parse.IntegerTable.{Suffix}
use kcc.Prelude.{
  arith, ℕ, ◌+◌, ◌*◌, ◌-◌, ◌≡◌, refl, ◌&&◌, leb, [], ◌∷◌, Option, some, Bytes, codes, head, tail,
  if◌then◌else◌,
}
use kcc.Prelude.Results.{ok, err}
use kcc.Ty.Arithmetic.{ArithmeticType}

-- Decimal digits alone, for any base.
abbrev digits : Bytes → ℕ → ℕ × Bytes
digits [] n = (n, [])
digits (c ∷ cs) n = if leb 48 c && leb c 57 then digits cs (10 * n + (c - 48)) else (n, c ∷ cs)

abbrev stoull : ℕ → Bytes → Option (ℕ × Bytes)
stoull base text = some (digits text 0)

parse_integer-table_example :
    parse_integer stoull (codes "42uLL") ≡ ok (constant ArithmeticType.ulong_long 42)
unfolding kcc.Parse.Integer.read_value kcc.Parse.Integer.binary_digits
parse_integer-table_example =
    parse_integer-table stoull (codes "42uLL") (codes "uLL") 42 Suffix.ull ArithmeticType.ulong_long
      refl (tail head) refl

-- 2 ^ 63 has no type among those of a decimal constant; it becomes a negative `long`.
too_large :
    parse_integer stoull (codes "9223372036854775808")
    ≡ ok (constant ArithmeticType.long 9223372036854775808)
unfolding parse_integer kcc.Ty.Arithmetic.get kcc.Ast.Expr.make_constant
    kcc.Ty.Arithmetic.arithmetic_width
too_large = refl

two_suffixes : parse_integer stoull (codes "1uu") ≡ err invalid_suffix
unfolding parse_integer
two_suffixes = refl

-- The byte 200.
parse_character-byte_example :
    parse_character (b'\'' ∷ 200 ∷ b'\'' ∷ []) ≡ ok (constant ArithmeticType.int 4294967240)
parse_character-byte_example = parse_character-byte 200 (omega arith) refl refl
