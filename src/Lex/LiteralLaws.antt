-- ===== src/Lex/LiteralLaws.antt =====
-- What `HandleIdentifier` and `HandleStringLiteral` (src/lex.cpp) give for text without escapes.
use kcc.Lex.Escape.{plain, handle_encoding}
use kcc.Lex.Literal.{identifier_from, handle_identifier, string_from, handle_string_literal}
use kcc.Lex.Scanner.{
  Scanner, ok, ◌>>=◌, pure, with_budget, has_next, has_next_in, next, moved, test, is_ucn, peek,
  try, new_scanner,
}
use kcc.Location.{Location, initial_location}
use kcc.Prelude.{
  ℕ, zero, suc, ◌%◌, ◌<◌, Bool, true, false, not, ◌&&◌, [], ◌∷◌, ◌++◌, ◌≡◌, refl, ap, ◌∙◌, Bytes,
  ◌==◌, length, ltb, arith, append_assoc, append-nil, length-append,
}

-- No byte of a text is a backslash.
abbrev pub no_backslash : Bytes → Bool
no_backslash [] = true
no_backslash (c ∷ cs) = not (c == b'\\') && no_backslash cs

has_next_in_more : (c : ℕ) (cs : Bytes) → has_next_in (c ∷ (cs ++ 0 ∷ [])) ≡ true
has_next_in_more c [] = refl
has_next_in_more c (d ∷ cs) = refl

-- The scanner with a text to come.
abbrev before_text : Bytes → Bytes → Bytes → Location → Location → Scanner
before_text text before buffer loc token_loc = record {
  before = before;
  after = text ++ 0 ∷ [];
  loc = loc;
  token_loc = token_loc;
  buffer = buffer;
}

-- No byte of a text is a backslash or a double quote, and each is below 256.
abbrev pub is_simple : Bytes → Bool
is_simple [] = true
is_simple (c ∷ cs) = not (c == b'\\') && not (c == b'"') && ltb c 256 && is_simple cs

module _ (to_utf8 : ℕ → Bytes) where
  -- The loop appends what is left of the text.
  identifier_from-append :
      (f : ℕ) (ident text before buffer : Bytes) (loc token_loc : Location)
      → length text < f
      → no_backslash text ≡ true
      → (s : Scanner) × (identifier_from to_utf8 f ident
            (before_text text before buffer loc token_loc)
          ≡ ok (ident ++ text, s))
  unfolding identifier_from has_next next is_ucn pure ◌>>=◌
  identifier_from-append zero ident text before buffer loc token_loc h e = absurd (omega (arith, h))
  identifier_from-append (suc f) ident [] before buffer loc token_loc h e =
      (before_text [] before buffer loc token_loc, rw (append-nil ident))
  identifier_from-append (suc f) ident (c ∷ cs) before buffer loc token_loc h e =
      let plain_byte : (c == b'\\') ≡ false = ground (arith, e) in
      let rest =
        identifier_from-append f (ident ++ c ∷ []) cs (c ∷ before) buffer
          (moved c (suc (length before)) loc) token_loc (omega (arith, h)) (ground (arith, e)) in
      (
        rest.0,
        rw (has_next_in_more c cs) (
            rw plain_byte
              (rest.1 ∙ ap (λ (w : Bytes). ok (w, rest.0)) (append_assoc ident (c ∷ []) cs))),
      )

  -- For the text of an identifier without universal character names, of any length, `HandleIdentifier`
  -- gives the text itself.
  pub handle_identifier_lem :
      (text : Bytes)
      → no_backslash text ≡ true
      → (s : Scanner) × (handle_identifier to_utf8 (new_scanner text) ≡ ok (text, s))
  unfolding handle_identifier with_budget
  handle_identifier_lem text e =
      identifier_from-append (suc (length (text ++ 0 ∷ []))) [] text [] [] initial_location
        initial_location (rw (length-append text (0 ∷ [])) (omega arith)) e

  string_from-append :
      (escapes : Bool) (f : ℕ) (str text before buffer : Bytes) (loc token_loc : Location)
      → length text < f
      → is_simple text ≡ true
      → (s : Scanner) × (string_from to_utf8 escapes f str
            (before_text (text ++ b'"' ∷ []) before buffer loc token_loc)
          ≡ ok (str ++ text, s))
  unfolding string_from test peek next is_ucn pure ◌>>=◌
  string_from-append escapes zero str text before buffer loc token_loc h e =
      absurd (omega (arith, h))
  string_from-append escapes (suc f) str [] before buffer loc token_loc h e =
      (before_text (b'"' ∷ []) before buffer loc token_loc, rw (append-nil str))
  string_from-append escapes (suc f) str (c ∷ cs) before buffer loc token_loc h e =
      let plain_byte : (c == b'\\') ≡ false = ground (arith, e) in
      let inner_byte : (c == b'"') ≡ false = ground (arith, e) in
      let below : c < 256 = ground (arith, e) in
      let low_byte : c % 256 ≡ c = omega (arith, below) in
      let no_escape : (escapes && false) ≡ false = ground arith in
      let rest =
        string_from-append escapes f (str ++ c ∷ []) cs (c ∷ before) buffer
          (moved c (suc (length before)) loc) token_loc (omega (arith, h)) (ground (arith, e)) in
      (
        rest.0,
        rw inner_byte (
            rw plain_byte (
              rw no_escape (
                rw low_byte
                  (rest.1 ∙ ap (λ (w : Bytes). ok (w, rest.0)) (append_assoc str (c ∷ []) cs))))),
      )

  -- For a string literal without a prefix whose text, of any length, has no backslash and no quote,
  -- `HandleStringLiteral` gives the text and no encoding, whether it handles escapes or not.
  pub handle_string_literal_lem :
      (escapes : Bool) (text : Bytes)
      → is_simple text ≡ true
      → (s : Scanner) × (handle_string_literal to_utf8 escapes
            (new_scanner (b'"' ∷ (text ++ b'"' ∷ [])))
          ≡ ok ((text, plain), s))
  unfolding handle_string_literal handle_encoding try peek next pure with_budget ◌>>=◌
  handle_string_literal_lem escapes text e =
      let r =
        string_from-append escapes (suc (length ((text ++ b'"' ∷ []) ++ 0 ∷ []))) [] text
          (b'"' ∷ []) [] (moved b'"' 1 initial_location) initial_location
          (rw (length-append (text ++ b'"' ∷ []) (0 ∷ []))
            (rw (length-append text (b'"' ∷ [])) (omega arith)))
          e in
      (r.0, rw r.1 refl)
