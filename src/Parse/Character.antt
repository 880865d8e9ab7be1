-- ===== src/Parse/Character.antt =====
-- `Parser::ParseCharacter` of src/parse_expr.cpp, on the text of a token.
use kcc.Ast.Expr.{Expr, constant, make_constant}
use kcc.Lex.Escape.{Encoding, plain, utf8, char16, char32, wchar, handle_encoding, wrap32}
use kcc.Lex.Literal.{handle_character, character_from, next_value}
use kcc.Lex.Scanner.{
  Error, Scanner, new_scanner, ◌>>=◌, pure, with_budget, next, test, peek, try, next_in,
}
use kcc.Prelude.{
  ℕ, ◌+◌, ◌-◌, ◌%◌, ◌^◌, ◌<◌, ltb, ◌==◌, ◌≡◌, false, [], ◌∷◌, Bytes, if◌then◌else◌, arith, ap,
}
use kcc.Prelude.Results.{Result, ok, err}
use kcc.Ty.Arithmetic.{ArithmeticType, arithmetic_width}

pub data CharacterError : Type 0 where
  scan_error : Error → CharacterError
  utf8_not_allowed : CharacterError

-- A `char` of these bits, as a `std::uint64_t`.
abbrev pub sign_extended : ℕ → ℕ
sign_extended val = let b = val % 2 ^ 8 in if ltb b 128 then b else b + (2 ^ 64 - 2 ^ 8)

-- The switch over the encoding. The type of `wchar_t` wraps what its sign extends to 32 bits again.
unfoldable pub character_constant : Encoding → ℕ → Result CharacterError Expr
character_constant plain val = ok (make_constant ArithmeticType.int (sign_extended val))
character_constant char16 val = ok (make_constant ArithmeticType.ushort (val % 2 ^ 16))
character_constant char32 val = ok (make_constant ArithmeticType.uint (val % 2 ^ 32))
character_constant wchar val = ok (make_constant ArithmeticType.uint (val % 2 ^ 32))
character_constant utf8 val = err utf8_not_allowed

unfoldable pub of_scan :
    kcc.Lex.Scanner.Result ((ℕ × Encoding) × Scanner) → Result CharacterError Expr
unfolding character_constant
of_scan (kcc.Lex.Scanner.ok ((val, encoding), s)) = character_constant encoding val
of_scan (kcc.Lex.Scanner.err e) = err (scan_error e)

unfoldable pub parse_character : Bytes → Result CharacterError Expr
unfolding of_scan
parse_character str = of_scan (handle_character (new_scanner str))

-- The value of a byte as a `char`, in 32 bits.
abbrev pub char_value : ℕ → ℕ
char_value c = if ltb c 128 then c else c + (2 ^ 32 - 2 ^ 8)

extended : (c : ℕ) → c < 256 → sign_extended (wrap32 (0 + c)) % 2 ^ 32 ≡ char_value c
extended c h = ground (arith, h)

-- A character constant of one byte that is no backslash and no quote, without a prefix, has the type
-- `int` and the byte's value as a signed `char`.
pub parse_character-byte :
    (c : ℕ)
    → c < 256
    → (c == b'\\') ≡ false
    → (c == b'\'') ≡ false
    → parse_character (b'\'' ∷ c ∷ b'\'' ∷ []) ≡ ok (constant ArithmeticType.int (char_value c))
unfolding parse_character handle_character handle_encoding character_from next_value with_budget try
    test peek next pure ◌>>=◌ make_constant arithmetic_width
parse_character-byte c h b q =
    rw (q, b) (ap (λ v. ok (constant ArithmeticType.int v)) (extended c h))
