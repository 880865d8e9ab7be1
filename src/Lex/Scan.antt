-- ===== src/Lex/Scan.antt =====
-- `Scanner::Scan` and `Scanner::Tokenize` (src/lex.cpp): the switch on the first byte of a token.
use kcc.Lex.CharType.{is_digit, is_alpha, is_utf8_byte}
use kcc.Lex.Directive.{skip_line_directives}
use kcc.Lex.Escape.{handle_encoding}
use kcc.Lex.Scanner.{
  Scanner, M, Result, invalid_input, out_of_fuel, new_scanner, ◌>>=◌, ◌>>◌, pure, fail, with_budget,
  peek, next, put_back, test, try, make_token, mark_location, clear_buffer,
}
use kcc.Lex.Skip.{skip_space, skip_number, skip_identifier, skip_character, skip_string_literal}
use kcc.Prelude.{
  ℕ, zero, suc, true, ◌||◌, List, [], ◌∷◌, Option, none, some, Bytes, if◌then◌else◌, ◌==◌,
}
use kcc.Token.{Tag, Token, is_eof}

-- The cases that make a token of one byte.
unfoldable pub single_tag : ℕ → Option Tag
single_tag ch =
    if ch == b'['
    then some Tag.left_square
    else if ch == b']'
    then some Tag.right_square
    else if ch == b'('
    then some Tag.left_paren
    else if ch == b')'
    then some Tag.right_paren
    else if ch == b'{'
    then some Tag.left_brace
    else if ch == b'}'
    then some Tag.right_brace
    else if ch == b'~'
    then some Tag.tilde
    else if ch == b'?'
    then some Tag.question
    else if ch == b';'
    then some Tag.semicolon
    else if ch == b','
    then some Tag.comma
    else none

-- `MakeToken(Try(c) ? yes : no)`.
unfoldable pub one_more : ℕ → Tag → Tag → M Token
one_more c longer shorter = do b ← try c; make_token (if b then longer else shorter)

-- `if (Try(c)) return MakeToken(tag); else ...`.
unfoldable pub try_or : ℕ → Tag → M Token → M Token
try_or c tag other = do b ← try c; if b then make_token tag else other

unfoldable pub scan_period : M Token
scan_period = do
  c ← peek
  if is_digit c then skip_number else (do
    second ← try b'.'
    if second
        then (do
          third ← try b'.'
          if third then make_token Tag.ellipsis else (do put_back; make_token Tag.period))
        else make_token Tag.period)

unfoldable pub scan_sharp_sharp : M Token
scan_sharp_sharp = do
  p ← try b'%'
  if p
      then (do
        c ← try b':'
        if c then make_token Tag.sharp_sharp else (do put_back; make_token Tag.sharp))
      else make_token Tag.sharp

unfoldable pub scan_percent : M Token
scan_percent = try_or b'=' Tag.percent_equal (
    try_or b'>' Tag.right_brace
      (do c ← try b':'; if c then scan_sharp_sharp else make_token Tag.percent))

unfoldable pub scan_less : M Token
scan_less = do
  l ← try b'<'
  if l
      then one_more b'=' Tag.less_less_equal Tag.less_less
      else try_or b'=' Tag.less_equal
          (try_or b':' Tag.left_square (try_or b'%' Tag.left_brace (make_token Tag.less)))

unfoldable pub scan_greater : M Token
scan_greater = do
  g ← try b'>'
  if g
      then one_more b'=' Tag.greater_greater_equal Tag.greater_greater
      else one_more b'=' Tag.greater_equal Tag.greater

-- The number that the enumerator `Tag::kGreater` stands for, which the case of ':' compares with the
-- next byte.
abbrev pub greater_value : ℕ
greater_value = 67

unfoldable pub scan_colon : M Token
scan_colon = one_more greater_value Tag.right_square Tag.colon

-- The operators, by their first byte.
unfoldable pub scan_operator : ℕ → Option (M Token)
scan_operator ch =
    if ch == b'.'
    then some scan_period
    else if ch == b'+'
    then some (try_or b'+' Tag.plus_plus (one_more b'=' Tag.plus_equal Tag.plus))
    else if ch == b'-'
    then some (
        try_or b'>' Tag.arrow
          (try_or b'-' Tag.minus_minus (one_more b'=' Tag.minus_equal Tag.minus)))
    else if ch == b'&'
    then some (try_or b'&' Tag.amp_amp (one_more b'=' Tag.amp_equal Tag.amp))
    else if ch == b'*'
    then some (one_more b'=' Tag.star_equal Tag.star)
    else if ch == b'!'
    then some (one_more b'=' Tag.exclaim_equal Tag.exclaim)
    else if ch == b'/'
    then some (one_more b'=' Tag.slash_equal Tag.slash)
    else if ch == b'%'
    then some scan_percent
    else if ch == b'<'
    then some scan_less
    else if ch == b'>'
    then some scan_greater
    else if ch == b'='
    then some (one_more b'=' Tag.equal_equal Tag.equal)
    else if ch == b'^'
    then some (one_more b'=' Tag.caret_equal Tag.caret)
    else if ch == b'|'
    then some (try_or b'|' Tag.pipe_pipe (one_more b'=' Tag.pipe_equal Tag.pipe))
    else if ch == b':'
    then some scan_colon
    else none

-- The case of 'u', 'U' and 'L'.
unfoldable pub scan_prefixed : M Token
scan_prefixed = do
  put_back
  _ ← handle_encoding
  quote ← try b'\''
  if quote then skip_character else (do
    double ← try b'"'
    if double then skip_string_literal else (do _ ← next true; skip_identifier))

-- The case of a backslash.
unfoldable pub scan_backslash : M Token
scan_backslash = do
  u ← test b'u'
  if u
      then skip_identifier
      else (do v ← test b'U'; if v then skip_identifier else fail invalid_input)

-- The cases that are no punctuator and no directive.
unfoldable pub scan_other : ℕ → M Token
scan_other ch =
    if is_digit ch
    then skip_number
    else if ch == b'\''
    then skip_character
    else if ch == b'"'
    then skip_string_literal
    else if ch == b'u' || ch == b'U' || ch == b'L'
    then scan_prefixed
    else if ch == b'\\'
    then scan_backslash
    else if ch == b'_' || ch == b'$'
    then skip_identifier
    else if ch == 0
    then (do clear_buffer; make_token Tag.eof)
    else if is_alpha ch || is_utf8_byte ch
    then skip_identifier
    else fail invalid_input

unfoldable pub operator_or : ℕ → Option (M Token) → M Token
operator_or ch none = scan_other ch
operator_or ch (some op) = op

unfoldable pub token_or : ℕ → Option Tag → M Token
token_or ch none = operator_or ch (scan_operator ch)
token_or ch (some tag) = make_token tag

-- The switch; `again` is the call of `Scan` behind a directive.
unfoldable pub scan_case : M Token → ℕ → M Token
unfolding token_or operator_or
scan_case again ch =
    if ch == b'#' then (do skip_line_directives; again) else token_or ch (single_tag ch)

unfoldable pub scan_from : ℕ → M Token
scan_from zero = fail out_of_fuel
scan_from (suc fuel) = do skip_space; mark_location; ch ← next true; scan_case (scan_from fuel) ch

-- `Scanner::Scan`.
unfoldable pub scan : M Token
scan = with_budget scan_from

unfoldable pub tokenize_from : ℕ → M (List Token)
tokenize_from zero = fail out_of_fuel
tokenize_from (suc fuel) = do
  t ← scan
  if is_eof t then pure (t ∷ []) else (do ts ← tokenize_from fuel; pure (t ∷ ts))

-- `Scanner::Tokenize`, of a new scanner.
unfoldable pub tokenize : Bytes → Result (List Token × Scanner)
tokenize source = with_budget tokenize_from (new_scanner source)
