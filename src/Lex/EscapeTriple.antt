-- ===== src/Lex/EscapeTriple.antt =====
-- The triples of the escape sequences and of the encoding prefixes.
use kcc.Lex.Actions.{Tried, Tried-if, try-Tried, try-Ahead, with_budget-In}
use kcc.Lex.Assert.{
  In, Kept, Ahead, Kept-In, Held-Kept, In-le, In-weak, Kept-drop, next-Held, put_back-In,
}
use kcc.Lex.CharType.{char_to_digit, is_xdigit, is_oct_digit}
use kcc.Lex.Escape.{
  digit, pure_digit, hex_loop, handle_hex_escape, oct_loop, handle_oct_escape, ucn_loop, handle_ucn,
  simple_escape, numeric_escape, handle_escape, escape_or, char32, handle_encoding,
}
use kcc.Lex.Scanner.{Scanner, try, unknown_escape}
use kcc.Lex.Triple.{
  Triple, Triple-pure, Triple-if, Triple-fail, Triple-fact, weaken, strengthen, ◌⟫◌,
}
use kcc.Prelude.{
  ℕ, zero, suc, Bool, true, false, not, ◌||◌, Option, none, some, ◌≡◌, refl, Bytes, arith, ◌==◌,
}

char_to_digit-is_xdigit : (c : ℕ) → is_xdigit c ≡ true → char_to_digit c ≡ none → ⊥
unfolding char_to_digit is_xdigit
char_to_digit-is_xdigit c h e = ground arith

is_oct_digit-is_xdigit : (c : ℕ) → is_oct_digit c ≡ true → is_xdigit c ≡ true
unfolding is_oct_digit is_xdigit
is_oct_digit-is_xdigit c h = ground arith

module _ {P : Scanner → Type 0} where
  pure_digit-same : (o : Option ℕ) → (o ≡ none → ⊥) → Triple P (pure_digit o) (λ _. P)
  unfolding pure_digit
  pure_digit-same none h = absurd (h refl)
  pure_digit-same (some d) h = Triple-pure d (λ s p. p)

  digit-same : (c : ℕ) → is_xdigit c ≡ true → Triple P (digit c) (λ _. P)
  unfolding digit
  digit-same c e = pure_digit-same (char_to_digit c) (char_to_digit-is_xdigit c e)

module _ {start text : Bytes} where
  hex_loop-In :
      (f value c : ℕ) → Triple (Kept start text 1 f) (hex_loop f value c) (λ _. In start text 0 f)
  unfolding hex_loop
  hex_loop-In zero value c = record { at = λ s h. absurd (omega (arith, h.held.inside.room)) }
  hex_loop-In (suc f) value c =
      Triple-if (is_xdigit c)
        (λ x. digit-same c x ⟫ λ d. strengthen Kept-drop next-Held ⟫ λ b.
          weaken (λ _. In-le (omega arith) (omega arith))
            (strengthen Held-Kept (hex_loop-In f _ b)))
        (λ _. put_back-In ⟫ λ _. Triple-pure value (λ s h. h))

module _ {start text : Bytes} {d k : ℕ} where
  handle_hex_escape-In : Triple (In start text (suc d) k) handle_hex_escape (λ _. In start text d k)
  unfolding handle_hex_escape
  handle_hex_escape-In = next-Held ⟫ λ c.
      Triple-if (not (is_xdigit c)) (λ _. Triple-fail _ tt)
        (λ _. strengthen Held-Kept (with_budget-In 0 d _ (omega arith) (λ f. hex_loop-In f 0 c)))

  oct_loop-In :
      (rounds value : ℕ)
      → Triple (In start text d k) (oct_loop rounds value) (λ _. In start text d k)
  unfolding oct_loop
  oct_loop-In zero value = Triple-pure value (λ s h. h)
  oct_loop-In (suc rounds) value = next-Held ⟫ λ c.
      Triple-if (is_oct_digit c)
        (λ o. digit-same c (is_oct_digit-is_xdigit c o) ⟫ λ v.
          strengthen (λ s h. In-weak s h.inside) (oct_loop-In rounds _))
        (λ _. strengthen Held-Kept put_back-In ⟫ λ _. Triple-pure value (λ s h. h))

  handle_oct_escape-In :
      (c : ℕ)
      → is_oct_digit c ≡ true
      → Triple (In start text d k) (handle_oct_escape c) (λ _. In start text d k)
  unfolding handle_oct_escape
  handle_oct_escape-In c o = digit-same c (is_oct_digit-is_xdigit c o) ⟫ λ v.
      Triple-if (not (is_oct_digit c)) (λ _. Triple-fail _ tt) (λ _. oct_loop-In 3 v)

  ucn_loop-In :
      (rounds val : ℕ) → Triple (In start text d k) (ucn_loop rounds val) (λ _. In start text d k)
  unfolding ucn_loop
  ucn_loop-In zero val = Triple-pure val (λ s h. h)
  ucn_loop-In (suc rounds) val = next-Held ⟫ λ c.
      Triple-if (is_xdigit c)
        (λ x. digit-same c x ⟫ λ v. strengthen (λ s h. In-weak s h.inside) (ucn_loop-In rounds _))
        (λ _. Triple-fail _ tt)

  numeric_escape-In :
      (c : ℕ) → Triple (In start text (suc d) k) (numeric_escape c) (λ _. In start text d k)
  unfolding numeric_escape handle_ucn
  numeric_escape-In c =
      Triple-if (c == b'X' || c == b'x') (λ _. handle_hex_escape-In)
        (λ _.
          Triple-if (is_oct_digit c) (λ o. strengthen In-weak (handle_oct_escape-In c o))
            (λ _.
              Triple-if (c == b'u') (λ _. strengthen In-weak (ucn_loop-In 4 0))
                (λ _.
                  Triple-if (c == b'U') (λ _. strengthen In-weak (ucn_loop-In 8 0))
                    (λ _. Triple-fail unknown_escape tt))))

  escape_or-In :
      (c : ℕ) (o : Option ℕ)
      → Triple (In start text (suc d) k) (escape_or c o) (λ _. In start text d k)
  unfolding escape_or
  escape_or-In c none = numeric_escape-In c
  escape_or-In c (some v) = Triple-pure v In-weak

  pub handle_escape-In : Triple (In start text d k) handle_escape (λ _. In start text d k)
  unfolding handle_escape
  handle_escape-In =
      next-Held ⟫ λ c. strengthen (λ s h. h.inside) (escape_or-In c (simple_escape c))

  Tried-In :
      (b : Bool) (s : Scanner)
      → Tried (In start text d k) (Kept start text (suc d) k) b s
      → In start text d k s
  Tried-In true s h = In-weak s h.held.inside
  Tried-In false s h = h

  pub try-In : (c : ℕ) → Triple (In start text d k) (try c) (λ _. In start text d k)
  try-In c = weaken Tried-In (try-Tried c (λ s h. h))

module _ {start text : Bytes} {d k : ℕ} where
  -- Of the three letters one is taken.
  taken_letter :
      (c : ℕ) (rest : Bytes) (l : Bool)
      → (c == b'u' || c == b'U' || c == b'L') ≡ true
      → (c == b'u') ≡ false
      → (c == b'U') ≡ false
      → (s : Scanner)
      → Tried
          (λ s'. ((c == b'L') ≡ false) × Ahead start text d k c rest s')
          (Kept start text (suc d) k)
          l
          s
      → In start text (suc d) k s
  taken_letter c rest true e u v s h = Kept-In s h
  taken_letter c rest false e u v s h = absurd (none_left e u v h.0)
    where
      none_left :
          (c == b'u' || c == b'U' || c == b'L') ≡ true
          → (c == b'u') ≡ false
          → (c == b'U') ≡ false
          → (c == b'L') ≡ false
          → ⊥
      none_left p q r t = ground arith

  -- Behind one of the letters of a prefix at least that letter is read.
  pub handle_encoding-Ahead :
      (c : ℕ) (rest : Bytes)
      → (c == b'u' || c == b'U' || c == b'L') ≡ true
      → Triple (Ahead start text d k c rest) handle_encoding (λ _. In start text (suc d) k)
  unfolding handle_encoding
  handle_encoding-Ahead c rest e = try-Ahead c b'u' ⟫ λ u.
      Tried-if u (strengthen Kept-In (try-In b'8') ⟫ λ _. Triple-pure _ (λ s h. h)) (
        Triple-fact λ not_u. try-Ahead c b'U' ⟫ λ v. Tried-if v (Triple-pure char32 Kept-In) (
          Triple-fact
            λ not_v. try-Ahead c b'L' ⟫ λ l. Triple-pure _ (taken_letter c rest l e not_u not_v)))
