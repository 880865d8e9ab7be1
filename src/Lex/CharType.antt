-- ===== src/Lex/CharType.antt =====
-- The tests of <cctype> in the "C" locale that src/lex.cpp calls, and its own digit helpers.
use kcc.Prelude.{ℕ, ◌+◌, ◌-◌, Bool, ◌&&◌, ◌||◌, Option, none, some, leb, ◌==◌, if◌then◌else◌}

abbrev pub within : ℕ → ℕ → ℕ → Bool
within lo hi c = leb lo c && leb c hi

unfoldable pub is_digit : ℕ → Bool
is_digit c = within b'0' b'9' c

unfoldable pub is_alpha : ℕ → Bool
is_alpha c = within b'a' b'z' c || within b'A' b'Z' c

unfoldable pub is_alnum : ℕ → Bool
unfolding is_digit is_alpha
is_alnum c = is_digit c || is_alpha c

unfoldable pub is_space : ℕ → Bool
is_space c = c == b' ' || within 9 13 c

unfoldable pub is_xdigit : ℕ → Bool
unfolding is_digit
is_xdigit c = is_digit c || within b'a' b'f' c || within b'A' b'F' c

-- `IsOctDigit`.
unfoldable pub is_oct_digit : ℕ → Bool
is_oct_digit c = leb b'0' c && leb c b'7'

-- The bytes of a character that is not ASCII: `ch >= 0x80 && ch <= 0xfd`.
unfoldable pub is_utf8_byte : ℕ → Bool
is_utf8_byte c = leb 0x80 c && leb c 0xfd

-- `CharToDigit`; `none` is its failed assertion.
unfoldable pub char_to_digit : ℕ → Option ℕ
char_to_digit c =
    if leb b'0' c && leb c b'9'
    then some (c - b'0')
    else if leb b'a' c && leb c b'f'
    then some (c - b'a' + 10)
    else if leb b'A' c && leb c b'F'
    then some (c - b'A' + 10)
    else none
