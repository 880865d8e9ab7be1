-- ===== src/Lex/Tests.antt =====
-- Runs of the lexer, and the properties of its proofs at concrete inputs.
use kcc.Lex.CharType.{
  char_to_digit, is_digit, is_alpha, is_alnum, is_space, is_xdigit, is_oct_digit, is_utf8_byte,
}
use kcc.Lex.Directive.{
  skip_line_directives, read_number, read_name, in_range, stoi, set_row_before, unquote, set_name,
  line_loop,
}
use kcc.Lex.Escape.{
  plain, handle_encoding, handle_escape, simple_escape, numeric_escape, handle_hex_escape, hex_loop,
  handle_oct_escape, oct_loop, handle_ucn, ucn_loop, digit,
}
use kcc.Lex.Gap.{Covers}
use kcc.Lex.Keywords.{keywords, find}
use kcc.Lex.KeywordsLaws.{find-keywords}
use kcc.Lex.Lossless.{tokenize-Covers, tokenize_terminates}
use kcc.Lex.Skip.{
  skip_space, space_loop, skip_number, front, number_loop, in_number, number_body, try_sign,
  exponent_tag, skip_identifier, identifier_loop, in_word, keyword_of_buffer, skip_character,
  skip_string_literal, literal_loop,
}
use kcc.Lex.Scan.{
  tokenize, tokenize_from, scan, scan_from, scan_case, single_tag, scan_operator, try_or, one_more,
  scan_period, scan_percent, scan_sharp_sharp, scan_less, scan_greater, scan_colon, scan_other,
  scan_prefixed, scan_backslash,
}
use kcc.Lex.Scanner.{
  Scanner, new_scanner, out_of_fuel, empty_buffer, bad_digit, Result, ok, err, with_budget, peek,
  next, mark_location, make_token, try, put_back, test, is_ucn, has_next, clear_buffer,
  update_location, pure, fail, ◌>>=◌,
}
use kcc.Lex.Literal.{handle_identifier, handle_string_literal}
use kcc.Lex.LiteralLaws.{handle_identifier_lem, handle_string_literal_lem}
use kcc.Lex.PutBack.{put_back-next, restored}
use kcc.Location.{initial_location}
use kcc.Prelude.{
  head, tail, ℕ, true, arith, List, [], ◌∷◌, ◌++◌, ◌≡◌, ◌≢◌, refl, Bytes, codes, map, rev_onto,
}
use kcc.Token.{Tag, Token}

-- Opens the lexer, for runs.
run : Bytes → Result (List Token × Scanner)
unfolding tokenize tokenize_from with_budget scan scan_from skip_space space_loop peek next
    mark_location scan_case single_tag make_token scan_operator try_or try one_more scan_period
    scan_percent scan_sharp_sharp scan_less scan_greater scan_colon scan_other scan_prefixed
    scan_backslash put_back handle_encoding test is_ucn skip_number front number_loop in_number
    number_body try_sign exponent_tag skip_identifier identifier_loop in_word keyword_of_buffer find
    skip_character skip_string_literal literal_loop handle_escape simple_escape numeric_escape
    handle_hex_escape hex_loop handle_oct_escape oct_loop handle_ucn ucn_loop digit char_to_digit
    is_digit is_alpha is_alnum is_space is_xdigit is_oct_digit is_utf8_byte skip_line_directives
    read_number read_name in_range stoi set_row_before unquote set_name line_loop has_next
    clear_buffer update_location pure fail ◌>>=◌
run source = tokenize source

abbrev tags_of : Result (List Token × Scanner) → Result (List Tag)
tags_of (ok (ts, _)) = ok (map (λ t. t.tag) ts)
tags_of (err e) = err e

tokenize_run :
    tags_of (run (codes "int a%:%=x->y ...\n# 3 \"f.c\"\nL'a' u8\"b\" 0x1p-3;"))
    ≡ ok (
        Tag.int ∷ Tag.identifier ∷ Tag.sharp ∷ Tag.percent_equal ∷ Tag.identifier ∷ Tag.arrow
        ∷ Tag.identifier ∷ Tag.ellipsis ∷ Tag.character ∷ Tag.string_literal ∷ Tag.floating_point
        ∷ Tag.semicolon ∷ Tag.eof ∷ [])
unfolding run
tokenize_run = refl

-- A colon before a capital C is read as a closing bracket, and the digraph is not.
digraph_read :
    (tags_of (run (codes "?:C")) ≡ ok (Tag.question ∷ Tag.right_square ∷ Tag.eof ∷ []))
    × (tags_of (run (codes ":>")) ≡ ok (Tag.colon ∷ Tag.greater ∷ Tag.eof ∷ []))
unfolding run
digraph_read = (refl, refl)

abbrev tokens_read : Result (List Token × Scanner) → List Token
tokens_read (ok (ts, _)) = ts
tokens_read (err e) = []

abbrev scanner_left : Result (List Token × Scanner) → Scanner
scanner_left (ok (_, s)) = s
scanner_left (err e) = new_scanner []

abbrev two_lines : Bytes
two_lines = codes "# 1 \"a.c\"\nint x;"

tokenize-Covers_example :
    Covers [] (tokens_read (run two_lines)) (scanner_left (run two_lines)).before
    × (rev_onto (scanner_left (run two_lines)).before (scanner_left (run two_lines)).after
        ≡ two_lines ++ 0 ∷ [])
unfolding run
tokenize-Covers_example =
    tokenize-Covers two_lines (tokens_read (run two_lines)) (scanner_left (run two_lines)) refl

tokenize_terminates_example :
    (tokenize two_lines ≢ err out_of_fuel)
    × (tokenize two_lines ≢ err empty_buffer)
    × (tokenize two_lines ≢ err bad_digit)
tokenize_terminates_example = tokenize_terminates two_lines

abbrev no_text : ℕ → Bytes
no_text c = []

handle_identifier_lem_example :
    (s : Scanner) × (handle_identifier no_text (new_scanner (codes "x_1")) ≡ ok (codes "x_1", s))
handle_identifier_lem_example = handle_identifier_lem no_text (codes "x_1") refl

handle_string_literal_lem_example :
    (s : Scanner) × (handle_string_literal no_text true
        (new_scanner (b'"' ∷ (codes "a b" ++ b'"' ∷ [])))
      ≡ ok ((codes "a b", plain), s))
handle_string_literal_lem_example = handle_string_literal_lem no_text true (codes "a b") refl

put_back-next_example :
    (next true >>= λ _. put_back) (new_scanner (codes "\nx"))
    ≡ ok (tt, record (new_scanner (codes "\nx")) { loc = restored b'\n' 1 initial_location })
put_back-next_example =
    put_back-next b'\n' (codes "x" ++ 0 ∷ []) (new_scanner (codes "\nx")) refl (omega arith)
      (omega arith)

find-keywords_example : find (codes "case") ≡ Tag.case
unfolding keywords
find-keywords_example =
    find-keywords (record { spelling = codes "case"; tag = Tag.case }) (tail (tail head))
