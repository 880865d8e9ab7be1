-- ===== src/Lex/TokenTriple.antt =====
-- The triples of `SkipNumber`, `SkipIdentifier`, `SkipCharacter` and `SkipStringLiteral`.
use kcc.Lex.Actions.{Made, make_token-Made, with_budget-In, with_budget-fact, with_budget-frame}
use kcc.Lex.Assert.{In, Held, Kept, Held-Kept, next-Held, next-Ahead, put_back-In, put_back-back}
use kcc.Lex.BodyTriple.{
  NotEof, NumberLoop-In, NumberLoop-more, identifier_loop-In, identifier_loop-more,
  identifier_loop-ucn, literal_loop-In,
}
use kcc.Lex.CharType.{is_digit}
use kcc.Lex.Keywords.{Keyword, keywords, find_in, find}
use kcc.Lex.Scanner.{
  Scanner, M, ◌>>=◌, next, put_back, make_token, missing_char_end, missing_string_end,
}
use kcc.Lex.Skip.{
  front, front_in, skip_number, in_word, identifier_loop, keyword_of_buffer, skip_identifier,
  skip_character, skip_string_literal,
}
use kcc.Lex.Triple.{Holds, Triple, Triple-if, Triple-fail, Triple-fact, weaken, strengthen, ◌⟫◌}
use kcc.Prelude.{
  ℕ, suc, Bool, true, false, not, ◌&&◌, ◌||◌, List, [], ◌∷◌, ◌≡◌, ◌≢◌, refl, sym, ◌∙◌, ap, Bytes,
  arith, leb, ◌==◌, rev_onto,
}
use kcc.Token.{Tag, Token, is_eof_tag}

abbrev no_eof_in : List Keyword → Bool
no_eof_in [] = true
no_eof_in (k ∷ ks) = not (is_eof_tag k.tag) && no_eof_in ks

find_in-NotEof : (ks : List Keyword) (name : Bytes) → no_eof_in ks ≡ true → NotEof (find_in ks name)
unfolding find_in
find_in-NotEof [] name h = refl
find_in-NotEof (k ∷ ks) name h = ground (arith, find_in-NotEof ks name)

keywords_no_eof : no_eof_in keywords ≡ true
unfolding keywords
keywords_no_eof = refl

-- No keyword has the tag of the end of the text.
find-NotEof : (name : Bytes) → NotEof (find name)
unfolding find
find-NotEof name = find_in-NotEof keywords name keywords_no_eof

front_in-single :
    (P : Scanner → Type 0) (l : Bytes) (c : ℕ) (s : Scanner)
    → l ≡ c ∷ []
    → leb 0x80 c ≡ false
    → P s
    → Holds (λ b s'. (b ≡ c) × P s') (front_in l s)
unfolding front_in
front_in-single P [] c s e f h = cc
front_in-single P (x ∷ l) c s e f h = (ground arith, h)

module _ {P : Scanner → Type 0} where
  keyword_of_buffer-NotEof : Triple P keyword_of_buffer (λ tag s. NotEof tag × P s)
  unfolding keyword_of_buffer
  keyword_of_buffer-NotEof = record { at = λ s h. (find-NotEof (rev_onto s.buffer []), h) }

  -- With one byte in the buffer that byte is at its front.
  front_single :
      (c : ℕ)
      → leb 0x80 c ≡ false
      → Triple (λ s. (s.buffer ≡ c ∷ []) × P s) front (λ b s. (b ≡ c) × P s)
  unfolding front
  front_single c e = record {
    at = λ s h.
        front_in-single P (rev_onto s.buffer []) c s (ap (λ (b : Bytes). rev_onto b []) h.0) e h.1;
  }

front_in-Holds :
    (P : Scanner → Type 0) (l : Bytes) (s : Scanner) → l ≢ [] → P s → Holds (λ _. P) (front_in l s)
unfolding front_in
front_in-Holds P [] s h p = absurd (h refl)
front_in-Holds P (c ∷ l) s h p = p

rev_onto-ne-nil : (xs : Bytes) (y : ℕ) (ys : Bytes) → rev_onto xs (y ∷ ys) ≢ []
rev_onto-ne-nil [] y ys e = cc
rev_onto-ne-nil (x ∷ xs) y ys e = rev_onto-ne-nil xs x (y ∷ ys) e

module _ {start text : Bytes} {d k : ℕ} where
  front-Kept : Triple (Kept start text d k) front (λ _. Kept start text d k)
  unfolding front
  front-Kept = record {
    at = λ s h.
        front_in-Holds (Kept start text d k) (rev_onto s.buffer []) s
          (λ e.
            rev_onto-ne-nil h.held.rest h.byte []
              (ap (λ (b : Bytes). rev_onto b []) (sym h.held.last) ∙ e))
          h;
  }

  make_token-fact :
      (tag : Tag)
      → Triple (λ s. NotEof tag × In start text d k s) (make_token tag) (Made start text d k)
  make_token-fact tag = Triple-fact (make_token-Made tag)

module _ {start text : Bytes} {d k : ℕ} where
  pub skip_number-Made : Triple (Kept start text (suc d) k) skip_number (Made start text d k)
  unfolding skip_number
  skip_number-Made = front-Kept ⟫ λ c.
      with_budget-fact NotEof 0 d _ (omega arith) (λ f. NumberLoop-In f c false Tag.integer refl)
      ⟫ make_token-fact

  pub skip_identifier-Made :
      (c : ℕ) → Triple (Held start text (suc d) k c) skip_identifier (Made start text d k)
  unfolding skip_identifier
  skip_identifier-Made c = strengthen Held-Kept put_back-In ⟫ λ _. next-Held ⟫ λ b.
      strengthen Held-Kept (with_budget-In 0 d _ (omega arith) (λ f. identifier_loop-In f b)) ⟫ λ _.
      keyword_of_buffer-NotEof ⟫ make_token-fact

module _ {start text : Bytes} {d k : ℕ} where
  -- A number that begins with a digit or a period has at least one byte.
  pub skip_number-more :
      (c : ℕ)
      → (c == b'.' || is_digit c) ≡ true
      → Triple
          (λ s. (s.buffer ≡ c ∷ []) × Kept start text (suc d) k s)
          skip_number
          (Made start text (suc d) k)
  unfolding skip_number is_digit
  skip_number-more c n = front_single c (ascii c n) ⟫ λ b. Triple-fact λ e.
      with_budget-fact NotEof 1 (suc d) _ (omega arith)
        (λ f. NumberLoop-more f b (rw e n) false Tag.integer refl)
      ⟫ make_token-fact
    where
      ascii : (b : ℕ) → (b == b'.' || is_digit b) ≡ true → leb 0x80 b ≡ false
      ascii b p = ground arith

  put_back_again :
      (c : ℕ) (s : Scanner) {m : ℕ → M Token}
      → Held start text (suc d) k c s
      → ((b : ℕ)
          → b ≡ c
          → Triple
              (λ t. (t.after ≡ s.after) × Held start text (suc d) k b t)
              (m b)
              (Made start text (suc d) k))
      → Holds (Made start text (suc d) k) ((put_back >>= λ _. next true >>= m) s)
  put_back_again c s h t =
      (put_back-back c s.after ⟫ λ _.
      next-Ahead c s.after ⟫ λ b. strengthen (λ _ g. (g.0, (g.1, g.2))) (Triple-fact (t b))).at
        s (refl, h)

  -- An identifier that begins with a letter has at least one byte.
  pub skip_identifier-more :
      (c : ℕ)
      → in_word c ≡ true
      → Triple (Held start text (suc d) k c) skip_identifier (Made start text (suc d) k)
  unfolding skip_identifier
  skip_identifier-more c w = record {
    at = λ s h. put_back_again c s h λ b e.
        strengthen (λ t g. Held-Kept t g.1)
          (with_budget-In 1 (suc d) _ (omega arith) (λ f. identifier_loop-more f b (rw e w)))
        ⟫ λ _. keyword_of_buffer-NotEof ⟫ make_token-fact;
  }

  -- So has one that begins with a universal character name.
  pub skip_identifier-ucn :
      (c h : ℕ) (r : Bytes)
      → c ≡ b'\\'
      → (h == b'u' || h == b'U') ≡ true
      → Triple
          (λ s. (s.after ≡ h ∷ r) × Held start text (suc d) k c s)
          skip_identifier
          (Made start text (suc d) k)
  unfolding skip_identifier
  skip_identifier-ucn c h r slash u = record {
    at = λ s g. put_back_again c s g.1 λ b e.
        strengthen (λ t i. (i.0 ∙ g.0, Held-Kept t i.1))
          (weaken (λ _ _ i. i.1)
            (with_budget-frame (λ t. t.after ≡ h ∷ r) (λ _. Unit {0}) 1 (suc d)
              (λ fuel. identifier_loop fuel b) (omega arith)
              (λ f. rw (e, slash) (weaken (λ _ _ i. (tt, i)) (identifier_loop-ucn f h r u)))))
        ⟫ λ _. keyword_of_buffer-NotEof ⟫ make_token-fact;
  }

  pub skip_character-Made : Triple (In start text d k) skip_character (Made start text (suc d) k)
  unfolding skip_character
  skip_character-Made = next-Held ⟫ λ c.
      strengthen Held-Kept
        (with_budget-In 1 (suc d) _ (omega arith) (λ f. literal_loop-In f b'\'' c))
      ⟫ λ last.
          Triple-if (last == b'\'') (λ _. make_token-Made Tag.character refl)
            (λ _. Triple-fail missing_char_end tt)

  pub skip_string_literal-Made :
      Triple (In start text d k) skip_string_literal (Made start text (suc d) k)
  unfolding skip_string_literal
  skip_string_literal-Made = next-Held ⟫ λ c.
      strengthen Held-Kept
        (with_budget-In 1 (suc d) _ (omega arith) (λ f. literal_loop-In f b'"' c))
      ⟫ λ last.
          Triple-if (last == b'"') (λ _. make_token-Made Tag.string_literal refl)
            (λ _. Triple-fail missing_string_end tt)
