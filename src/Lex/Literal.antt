-- ===== src/Lex/Literal.antt =====
-- `HandleIdentifier`, `HandleCharacter` and `HandleStringLiteral` of src/lex.cpp, which the parser
-- calls on a new scanner with the text of one token, and `AppendUCN` of src/encoding.cpp.
use kcc.Lex.Escape.{Encoding, plain, wrap32, handle_encoding, handle_escape}
use kcc.Lex.Scanner.{M, out_of_fuel, ◌>>=◌, pure, fail, with_budget, has_next, next, test, is_ucn}
use kcc.Prelude.{
  ℕ, zero, suc, ◌+◌, ◌*◌, ◌%◌, Bool, true, false, ◌&&◌, [], ◌∷◌, ◌++◌, Bytes, if◌then◌else◌, ◌==◌,
}

-- `to_utf8` is Boost's conversion of one code point.
module _ (to_utf8 : ℕ → Bytes) where
  -- `AppendUCN`.
  abbrev pub append_ucn : Bytes → ℕ → Bytes
  append_ucn s value = s ++ to_utf8 value

  unfoldable pub identifier_from : ℕ → Bytes → M Bytes
  identifier_from zero ident = fail out_of_fuel
  identifier_from (suc fuel) ident = do
    more ← has_next
    if more
        then (do
          ch ← next false
          u ← is_ucn ch
          if u
              then (do v ← handle_escape; identifier_from fuel (append_ucn ident v))
              else identifier_from fuel (ident ++ ch ∷ []))
        else pure ident

  -- `Scanner::HandleIdentifier`.
  unfoldable pub handle_identifier : M Bytes
  handle_identifier = with_budget (λ fuel. identifier_from fuel [])

  -- What is appended for one character of a string literal; `push_back` keeps the low byte.
  abbrev pub append_char : Bool → Bytes → ℕ → Bytes
  append_char as_ucn str ch = if as_ucn then append_ucn str ch else str ++ (ch % 256) ∷ []

  unfoldable pub string_from : Bool → ℕ → Bytes → M Bytes
  string_from escapes zero str = fail out_of_fuel
  string_from escapes (suc fuel) str = do
    end ← test b'"'
    if end then pure str else (do
      ch ← next false
      u ← is_ucn ch
      value ← (if escapes && (ch == b'\\') then handle_escape else pure ch)
      string_from escapes fuel (append_char (escapes && u) str value))

  -- `Scanner::HandleStringLiteral`.
  unfoldable pub handle_string_literal : Bool → M (Bytes × Encoding)
  handle_string_literal escapes = do
    encoding ← handle_encoding
    _ ← next false
    str ← with_budget (λ fuel. string_from escapes fuel [])
    pure (str, encoding)

abbrev is_plain : Encoding → Bool
is_plain plain = true
is_plain _ = false

-- The value behind one more character: bytes are shifted in where there is no prefix.
unfoldable pub next_value : Encoding → ℕ → ℕ → ℕ
next_value encoding value ch = if is_plain encoding then wrap32 (value * 256 + ch) else ch

unfoldable pub character_from : Encoding → ℕ → ℕ → M ℕ
character_from encoding zero value = fail out_of_fuel
character_from encoding (suc fuel) value = do
  end ← test b'\''
  if end then pure value else (do
    ch ← next false
    c ← (if ch == b'\\' then handle_escape else pure ch)
    character_from encoding fuel (next_value encoding value c))

-- `Scanner::HandleCharacter`, but for its warning on a constant of several characters.
unfoldable pub handle_character : M (ℕ × Encoding)
handle_character = do
  encoding ← handle_encoding
  _ ← next false
  value ← with_budget (λ fuel. character_from encoding fuel 0)
  pure (value, encoding)
