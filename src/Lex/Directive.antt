-- ===== src/Lex/Directive.antt =====
-- Line directives, `# row "file" ...`, of the preprocessor's output: `Scanner::SkipLineDirectives`.
use kcc.Lex.CharType.{is_digit}
use kcc.Lex.Scanner.{
  M, bad_row, empty_file_name, no_number, out_of_fuel, ◌>>=◌, ◌>>◌, pure, fail, with_budget,
  has_next, next, clear_buffer, update_location,
}
use kcc.Lex.Skip.{skip_number, skip_string_literal}
use kcc.Location.{set_row, set_file_name}
use kcc.Prelude.{
  ℕ, zero, suc, ◌+◌, ◌-◌, ◌*◌, ◌^◌, true, false, [], ◌∷◌, Bytes, rev_onto, if◌then◌else◌, ltb, ◌==◌,
}
use kcc.Token.{Token}

-- The value of the digits at the front.
leading_digits : Bytes → ℕ → ℕ
unfolding is_digit
leading_digits [] n = n
leading_digits (c ∷ cs) n =
    let rest = leading_digits cs (n * 10 + (c - b'0')) in if is_digit c then rest else n

unfoldable pub in_range : ℕ → M ℕ
in_range n = if ltb n (2 ^ 31) then pure n else fail no_number

unfoldable pub starts_with_digit : Bytes → M ℕ
unfolding leading_digits
starts_with_digit [] = fail no_number
starts_with_digit (c ∷ cs) =
    if is_digit c then in_range (leading_digits (c ∷ cs) 0) else fail no_number

-- `std::stoi`, of the text of a number token, which begins with no blank and no sign.
unfoldable pub stoi : Bytes → M ℕ
unfolding starts_with_digit
stoi str = starts_with_digit str

-- `loc_.SetRow(n - 1)` with its assertion that the row is not negative.
unfoldable pub set_row_before : ℕ → M (Unit {0})
set_row_before zero = fail bad_row
set_row_before (suc n) = update_location (set_row n)

drop_last : Bytes → Bytes
drop_last [] = []
drop_last (_ ∷ cs) = cs

-- `file_name.substr(1, size - 2)`: without the quotes.
unfoldable pub unquote : Bytes → Bytes
unfolding drop_last
unquote [] = []
unquote (_ ∷ cs) = rev_onto (drop_last (rev_onto cs [])) []

unfoldable pub set_name : Bytes → M (Unit {0})
set_name [] = fail empty_file_name
set_name (c ∷ cs) = update_location (set_file_name (c ∷ cs))

-- The loop at the end of `SkipLineDirectives`.
unfoldable pub line_loop : ℕ → M (Unit {0})
line_loop zero = fail out_of_fuel
line_loop (suc fuel) = do
  more ← has_next
  if more then (do c ← next false; if c == b'\n' then pure tt else line_loop fuel) else pure tt

-- `Next(); SkipNumber()`, where the first byte of the number is in the buffer.
unfoldable pub read_number : M Token
read_number = do _ ← next true; skip_number

-- `Next(); SkipStringLiteral()`.
unfoldable pub read_name : M Token
read_name = do _ ← next true; skip_string_literal

-- `Scanner::SkipLineDirectives`.
unfoldable pub skip_line_directives : M (Unit {0})
skip_line_directives = do
  clear_buffer
  _ ← next false
  number ← read_number
  row ← stoi number.str
  set_row_before row
  _ ← next false
  name ← read_name
  set_name (unquote name.str)
  with_budget line_loop
  clear_buffer
