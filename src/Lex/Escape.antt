-- ===== src/Lex/Escape.antt =====
-- Escape sequences and encoding prefixes of src/lex.cpp. A value of `std::int32_t` is its bit pattern,
-- a number below 2 ^ 32.
use kcc.Lex.CharType.{is_xdigit, is_oct_digit, char_to_digit}
use kcc.Lex.Scanner.{
  M, unknown_escape, no_hex_digits, no_oct_digits, no_ucn_digits, bad_digit, out_of_fuel, ◌>>=◌,
  ◌>>◌, pure, fail, with_budget, next, put_back, try,
}
use kcc.Prelude.{
  ℕ, zero, suc, ◌+◌, ◌*◌, ◌%◌, ◌^◌, true, not, ◌||◌, Option, none, some, if◌then◌else◌, ◌==◌,
}

pub data Encoding : Type 0 where
  plain utf8 char16 char32 wchar : Encoding

abbrev pub wrap32 : ℕ → ℕ
wrap32 n = n % 2 ^ 32

unfoldable pub pure_digit : Option ℕ → M ℕ
pure_digit none = fail bad_digit
pure_digit (some d) = pure d

-- `CharToDigit` where a failed assertion stops the scanner.
unfoldable pub digit : ℕ → M ℕ
unfolding pure_digit
digit c = pure_digit (char_to_digit c)

-- The loop of `Scanner::HandleHexEscape`, and its `PutBack`.
unfoldable pub hex_loop : ℕ → ℕ → ℕ → M ℕ
hex_loop zero value ch = fail out_of_fuel
hex_loop (suc fuel) value ch =
    if is_xdigit ch
    then (do d ← digit ch; c ← next true; hex_loop fuel (wrap32 (value * 16 + d)) c)
    else (do put_back; pure value)

-- `Scanner::HandleHexEscape`.
unfoldable pub handle_hex_escape : M ℕ
handle_hex_escape = do
  ch ← next true
  if not (is_xdigit ch) then fail no_hex_digits else with_budget (λ fuel. hex_loop fuel 0 ch)

-- The loop of `Scanner::HandleOctEscape`, with the rounds left.
unfoldable pub oct_loop : ℕ → ℕ → M ℕ
oct_loop zero value = pure value
oct_loop (suc rounds) value = do
  c ← next true
  if is_oct_digit c
      then (do d ← digit c; oct_loop rounds (wrap32 (value * 8 + d)))
      else (do put_back; pure value)

-- `Scanner::HandleOctEscape`: the digit `ch`, and up to three more.
unfoldable pub handle_oct_escape : ℕ → M ℕ
handle_oct_escape ch = do
  value ← digit ch
  if not (is_oct_digit ch) then fail no_oct_digits else oct_loop 3 value

-- The loop of `Scanner::HandleUCN`, with the digits left.
unfoldable pub ucn_loop : ℕ → ℕ → M ℕ
ucn_loop zero val = pure val
ucn_loop (suc rounds) val = do
  c ← next true
  if is_xdigit c
      then (do d ← digit c; ucn_loop rounds (wrap32 (val * 16 + d)))
      else fail no_ucn_digits

-- `Scanner::HandleUCN`.
unfoldable pub handle_ucn : ℕ → M ℕ
handle_ucn length = ucn_loop length 0

-- The cases of `HandleEscape` that return a character at once.
unfoldable pub simple_escape : ℕ → Option ℕ
simple_escape c =
    if c == b'\'' || c == b'"' || c == b'?' || c == b'\\'
    then some c
    else if c == b'a'
    then some 7
    else if c == b'b'
    then some 8
    else if c == b'f'
    then some 12
    else if c == b'n'
    then some 10
    else if c == b'r'
    then some 13
    else if c == b't'
    then some 9
    else if c == b'v'
    then some 11
    else if c == b'e'
    then some 27
    else none

-- The other cases of `HandleEscape`.
unfoldable pub numeric_escape : ℕ → M ℕ
numeric_escape c =
    if c == b'X' || c == b'x'
    then handle_hex_escape
    else if is_oct_digit c
    then handle_oct_escape c
    else if c == b'u'
    then handle_ucn 4
    else if c == b'U'
    then handle_ucn 8
    else fail unknown_escape

unfoldable pub escape_or : ℕ → Option ℕ → M ℕ
escape_or c none = numeric_escape c
escape_or c (some v) = pure v

-- `Scanner::HandleEscape`.
unfoldable pub handle_escape : M ℕ
unfolding escape_or
handle_escape = do c ← next true; escape_or c (simple_escape c)

-- `Scanner::HandleEncoding`.
unfoldable pub handle_encoding : M Encoding
handle_encoding = do
  u ← try b'u'
  if u then (do e ← try b'8'; pure (if e then utf8 else char16)) else (do
    v ← try b'U'
    if v then pure char32 else (do l ← try b'L'; pure (if l then wchar else plain)))
