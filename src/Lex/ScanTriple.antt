-- ===== src/Lex/ScanTriple.antt =====
-- The triples of the cases of `Scan` that are no operator and no directive.
use kcc.Lex.Actions.{Tried-if, try-Tried, Made, Made-le}
use kcc.Lex.Assert.{In, Held, In-weak, next-Held, put_back-back, peek-Next}
use kcc.Lex.CharType.{is_digit, is_alpha, is_alnum, is_utf8_byte}
use kcc.Lex.EscapeTriple.{handle_encoding-Ahead}
use kcc.Lex.OperatorTriple.{Single, Makes, Makes-In}
use kcc.Lex.Scan.{scan_prefixed, scan_backslash, scan_other}
use kcc.Lex.Scanner.{Scanner, ◌>>=◌, test, make_token, clear_buffer, invalid_input}
use kcc.Lex.Skip.{in_word, skip_identifier, skip_character, skip_string_literal}
use kcc.Lex.TokenTriple.{
  skip_number-more, skip_identifier-Made, skip_identifier-more, skip_identifier-ucn,
  skip_character-Made, skip_string_literal-Made,
}
use kcc.Lex.Triple.{Triple, Triple-pure, Triple-if, Triple-fail, weaken, strengthen, ◌⟫◌}
use kcc.Prelude.{
  ℕ, suc, Bool, true, ◌||◌, [], ◌∷◌, ◌++◌, ◌≡◌, refl, ◌∙◌, ap, Bytes, arith, ◌==◌, ==_iff,
}
use kcc.Token.{Tag}

word_start : (c : ℕ) → (c == b'_' || c == b'$') ≡ true → in_word c ≡ true
unfolding in_word
word_start c h = ground arith

word_letter : (c : ℕ) → (is_alpha c || is_utf8_byte c) ≡ true → in_word c ≡ true
unfolding in_word is_alnum
word_letter c h = ground arith

module _ {P : Scanner → Type 0} where
  test-Next :
      (x : ℕ)
      → Triple P
          (test x)
          (λ b s. P s × ((h : ℕ) × (r : Bytes) × (s.after ≡ h ∷ r) × (b ≡ (h == x))))
  unfolding test
  test-Next x = peek-Next ⟫ λ h. Triple-pure (h == x) (λ s g. (g.0, (h, g.1.0, g.1.1, refl)))

module _ {start text : Bytes} {d k : ℕ} where
  Single-Held : (c : ℕ) (s : Scanner) → Single start text d k c s → Held start text d k c s
  Single-Held c s h = record { inside = h.1.held.inside; rest = []; last = h.0 }

module _ {start text : Bytes} {d k : ℕ} where
  character-Made : Triple (In start text d k) skip_character (Made start text d k)
  character-Made = weaken (Made-le (omega arith) (omega arith)) skip_character-Made

  string-Made : Triple (In start text d k) skip_string_literal (Made start text d k)
  string-Made = weaken (Made-le (omega arith) (omega arith)) skip_string_literal-Made

module _ {start text : Bytes} {d k : ℕ} where
  -- The prefix is read, and with it at least the first byte.
  prefixed-Makes :
      (c : ℕ) → (c == b'u' || c == b'U' || c == b'L') ≡ true → Makes start text d k c scan_prefixed
  unfolding scan_prefixed
  prefixed-Makes c e = record {
    at = λ s h.
        (put_back-back c s.after ⟫ λ _. handle_encoding-Ahead c s.after e ⟫ λ _.
        try-Tried b'\'' (λ s i. i) ⟫ λ quote.
        Tried-if quote (strengthen (λ s i. In-weak s i.held.inside) character-Made) (
          try-Tried b'"' (λ s i. i) ⟫ λ double.
          Tried-if double (strengthen (λ s i. In-weak s i.held.inside) string-Made)
            (next-Held ⟫ λ b. skip_identifier-Made b))).at
          s (refl, Single-Held c s h);
  }

  -- What `Test` found ahead is a universal character name.
  tested-Makes :
      (c x : ℕ) (b : Bool)
      → c ≡ b'\\'
      → ((h : ℕ) → (b ≡ (h == x)) → (h == b'u' || h == b'U') ≡ true)
      → Triple
          (λ s.
            Single start text (suc d) k c s
            × ((h : ℕ) × (r : Bytes) × (s.after ≡ h ∷ r) × (b ≡ (h == x))))
          skip_identifier
          (Made start text (suc d) k)
  tested-Makes c x b e letter = record {
    at = λ s g.
        (skip_identifier-ucn c g.1.0 g.1.1 e (letter g.1.0 g.1.3)).at s
          (g.1.2, Single-Held c s g.0);
  }

  backslash-Makes : (c : ℕ) → c ≡ b'\\' → Makes start text d k c scan_backslash
  unfolding scan_backslash
  backslash-Makes c e = test-Next b'u' ⟫ λ u.
      Triple-if u (λ yes_u. tested-Makes c b'u' u e (λ h p. small h yes_u p))
        (λ _. strengthen (λ s g. g.0) (test-Next b'U') ⟫ λ v.
          Triple-if v (λ yes_v. tested-Makes c b'U' v e (λ h p. capital h yes_v p))
            (λ _. Triple-fail invalid_input tt))
    where
      small : (h : ℕ) {b : Bool} → b ≡ true → b ≡ (h == b'u') → (h == b'u' || h == b'U') ≡ true
      small h p q = ground arith

      capital : (h : ℕ) {b : Bool} → b ≡ true → b ≡ (h == b'U') → (h == b'u' || h == b'U') ≡ true
      capital h p q = ground arith

  -- The token of the end has no text, and stands at the terminator.
  eof-Makes : (c : ℕ) → c ≡ 0 → Makes start text d k c (clear_buffer >>= λ _. make_token Tag.eof)
  unfolding clear_buffer make_token ◌>>=◌
  eof-Makes c e = record {
    at = λ s h. record {
      taken = (
        refl,
        h.1.held.inside.taken ∙ ap (λ (b : Bytes). b ++ start) h.0 ∙ ap (λ (x : ℕ). x ∷ start) e,
      );
      empty = refl;
      whole = h.1.held.inside.whole;
      room = h.1.held.inside.room;
    };
  }

  word-Makes : (c : ℕ) → in_word c ≡ true → Makes start text d k c skip_identifier
  word-Makes c w = strengthen (Single-Held c) (skip_identifier-more c w)

  pub scan_other-Makes : (c : ℕ) → Makes start text d k c (scan_other c)
  unfolding scan_other
  scan_other-Makes c =
      Triple-if (is_digit c) (λ e. skip_number-more c (ground arith))
        (λ _.
          Triple-if (c == b'\'') (λ _. Makes-In c character-Made)
            (λ _.
              Triple-if (c == b'"') (λ _. Makes-In c string-Made)
                (λ _. Triple-if (c == b'u' || c == b'U' || c == b'L') (prefixed-Makes c) (λ _.
                  Triple-if (c == b'\\') (λ e. backslash-Makes c ((==_iff c b'\\').0 e))
                    (λ _.
                      Triple-if (c == b'_' || c == b'$') (λ e. word-Makes c (word_start c e))
                        (λ _.
                          Triple-if (c == 0) (λ e. eof-Makes c ((==_iff c 0).0 e))
                            (λ _.
                              Triple-if (is_alpha c || is_utf8_byte c)
                                (λ e. word-Makes c (word_letter c e))
                                (λ _. Triple-fail invalid_input tt))))))))
