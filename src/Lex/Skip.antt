-- ===== src/Lex/Skip.antt =====
-- The token bodies of src/lex.cpp: spaces, numbers, identifiers, character and string literals.
use kcc.Lex.CharType.{is_alnum, is_space, is_utf8_byte}
use kcc.Lex.Escape.{handle_escape}
use kcc.Lex.Keywords.{find}
use kcc.Lex.Scanner.{
  M, missing_char_end, missing_string_end, empty_buffer, out_of_fuel, ok, err, ◌>>=◌, ◌>>◌, pure,
  fail, with_budget, peek, next, put_back, try, is_ucn, make_token,
}
use kcc.Prelude.{
  ℕ, zero, suc, Bool, true, false, not, ◌&&◌, ◌||◌, [], ◌∷◌, Bytes, rev_onto, if◌then◌else◌, leb,
  ◌==◌,
}
use kcc.Token.{Tag, Token}

-- The loop of `Scanner::SkipSpace`.
unfoldable pub space_loop : ℕ → M (Unit {0})
space_loop zero = fail out_of_fuel
space_loop (suc fuel) = do
  c ← peek
  if is_space c then (do _ ← next false; space_loop fuel) else pure tt

-- `Scanner::SkipSpace`.
unfoldable pub skip_space : M (Unit {0})
skip_space = with_budget space_loop

-- The condition of the loop in `SkipNumber`.
unfoldable pub in_number : ℕ → M Bool
in_number ch =
    if ch == b'.' || is_alnum ch || ch == b'_'
    then pure true
    else (do u ← is_ucn ch; pure (u || is_utf8_byte ch))

-- The tag after an exponent letter.
unfoldable pub exponent_tag : Bool → ℕ → Tag → Tag
exponent_tag saw_hex_prefix ch tag =
    if (ch == b'p' || ch == b'P') && saw_hex_prefix
    then Tag.floating_point
    else if (ch == b'e' || ch == b'E') && not saw_hex_prefix
    then Tag.floating_point
    else tag

-- `if (!Try('-')) Try('+');`.
unfoldable pub try_sign : M (Unit {0})
try_sign = do minus ← try b'-'; plus ← (if minus then pure false else try b'+'); pure tt

-- The body of the loop in `SkipNumber` up to its `Next`: the new `saw_hex_prefix` and `tag`.
unfoldable pub number_body : Bool → Tag → ℕ → M (Bool × Tag)
number_body saw_hex_prefix tag ch =
    if ch == b'e' || ch == b'E' || ch == b'p' || ch == b'P'
    then (do try_sign; pure (saw_hex_prefix, exponent_tag saw_hex_prefix ch tag))
    else (do
      u ← is_ucn ch
      if u
          then (do _ ← handle_escape; pure (saw_hex_prefix, tag))
          else if ch == b'.'
          then pure (saw_hex_prefix, Tag.floating_point)
          else pure (saw_hex_prefix || ch == b'x' || ch == b'X', tag))

-- The loop of `SkipNumber` with the `PutBack` behind it; the result is the tag.
unfoldable pub number_loop : ℕ → Bool → Tag → ℕ → M Tag
number_loop zero saw_hex_prefix tag ch = fail out_of_fuel
number_loop (suc fuel) saw_hex_prefix tag ch = do
  more ← in_number ch
  if more
      then (do
        (saw', tag') ← number_body saw_hex_prefix tag ch
        c ← next true
        number_loop fuel saw' tag' c)
      else (do put_back; pure tag)

unfoldable pub front_in : Bytes → M ℕ
front_in [] s = err empty_buffer
front_in (c ∷ _) s = ok ((if leb 0x80 c then 256 else c), s)

-- `buffer_.front()`. A byte from 0x80 on is a negative number there and passes none of the tests of
-- the loop, like the 256 that stands for it.
unfoldable pub front : M ℕ
unfolding front_in
front s = front_in (rev_onto s.buffer []) s

-- `Scanner::SkipNumber`.
unfoldable pub skip_number : M Token
skip_number = do
  ch ← front
  tag ← with_budget (λ fuel. number_loop fuel false Tag.integer ch)
  make_token tag

-- The condition of the loop in `SkipIdentifier`, but for `IsUCN(ch)`.
unfoldable pub in_word : ℕ → Bool
unfolding is_alnum is_utf8_byte
in_word ch = is_alnum ch || ch == b'_' || is_utf8_byte ch || ch == b'$'

-- The loop of `SkipIdentifier` with the `PutBack` behind it.
unfoldable pub identifier_loop : ℕ → ℕ → M (Unit {0})
identifier_loop zero ch = fail out_of_fuel
identifier_loop (suc fuel) ch = do
  u ← is_ucn ch
  if u
      then (do _ ← handle_escape; c ← next true; identifier_loop fuel c)
      else if in_word ch
      then (do c ← next true; identifier_loop fuel c)
      else put_back

-- `Keywords.Find(buffer_)`.
unfoldable pub keyword_of_buffer : M Tag
keyword_of_buffer s = ok (find (rev_onto s.buffer []), s)

-- `Scanner::SkipIdentifier`.
unfoldable pub skip_identifier : M Token
skip_identifier = do
  put_back
  ch ← next true
  with_budget (λ fuel. identifier_loop fuel ch)
  tag ← keyword_of_buffer
  make_token tag

-- The loop of `SkipCharacter` and of `SkipStringLiteral`; the result is the byte that ends it.
unfoldable pub literal_loop : ℕ → ℕ → ℕ → M ℕ
literal_loop zero quote ch = fail out_of_fuel
literal_loop (suc fuel) quote ch = if ch == quote || ch == b'\n' || ch == 0 then pure ch else (do
  _ ← (if ch == b'\\' then next true else pure 0)
  c ← next true
  literal_loop fuel quote c)

-- `Scanner::SkipCharacter`.
unfoldable pub skip_character : M Token
skip_character = do
  ch ← next true
  last ← with_budget (λ fuel. literal_loop fuel b'\'' ch)
  if last == b'\'' then make_token Tag.character else fail missing_char_end

-- `Scanner::SkipStringLiteral`.
unfoldable pub skip_string_literal : M Token
skip_string_literal = do
  ch ← next true
  last ← with_budget (λ fuel. literal_loop fuel b'"' ch)
  if last == b'"' then make_token Tag.string_literal else fail missing_string_end
