-- ===== src/Lex/BodyTriple.antt =====
-- The triples of the token bodies: a number, an identifier or a literal takes what it reads into the
-- token's text, and reads at least its first byte.
use kcc.Lex.Assert.{
  In, Kept, Kept-In, Held-Kept, In-le, In-weak, Kept-drop, next-Held, put_back-In, is_ucn-same,
  peek-Next,
}
use kcc.Lex.CharType.{is_digit, is_alnum}
use kcc.Lex.EscapeTriple.{try-In, handle_escape-In}
use kcc.Lex.Scanner.{Scanner, ◌>>=◌, pure, next, test, is_ucn}
use kcc.Lex.Skip.{
  in_number, exponent_tag, try_sign, number_body, number_loop, in_word, identifier_loop,
  literal_loop,
}
use kcc.Lex.Triple.{Triple, Triple-pure, Triple-if, Triple-fact, weaken, strengthen, ◌⟫◌}
use kcc.Prelude.{
  ℕ, zero, suc, Bool, true, false, ◌||◌, ◌∷◌, ◌≡◌, refl, Bytes, arith, if◌then◌else◌, ◌==◌,
}
use kcc.Token.{Tag, is_eof_tag}

abbrev pub NotEof : Tag → Type 0
NotEof tag = is_eof_tag tag ≡ false

module _ {P : Scanner → Type 0} where
  in_number-same : (c : ℕ) → Triple P (in_number c) (λ _. P)
  unfolding in_number
  in_number-same c =
      Triple-if (c == b'.' || is_alnum c || c == b'_') (λ _. Triple-pure true (λ s h. h))
        (λ _. is_ucn-same c ⟫ λ u. Triple-pure _ (λ s h. h))

  -- A digit or a period goes on with a number.
  in_number-true :
      (c : ℕ) → (c == b'.' || is_digit c) ≡ true → Triple P (in_number c) (λ b s. (b ≡ true) × P s)
  unfolding in_number is_alnum
  in_number-true c e =
      Triple-if (c == b'.' || is_alnum c || c == b'_') (λ _. Triple-pure true (λ s h. (refl, h)))
        (λ n. absurd (no_number c e n))
    where
      no_number :
          (b : ℕ)
          → (b == b'.' || is_digit b) ≡ true
          → (b == b'.' || is_alnum b || b == b'_') ≡ false
          → ⊥
      no_number b p q = ground arith

  test_head :
      (x h : ℕ) (r : Bytes)
      → Triple
          (λ s. (s.after ≡ h ∷ r) × P s)
          (test x)
          (λ b s. (b ≡ (h == x)) × ((s.after ≡ h ∷ r) × P s))
  unfolding test
  test_head x h r = peek-Next ⟫ λ c. Triple-pure (c == x) (λ s g. (same_test c s g, g.0))
    where
      same_test :
          (c : ℕ) (s : Scanner)
          → ((s.after ≡ h ∷ r) × P s) × ((q : Bytes) × (s.after ≡ c ∷ q))
          → (c == x) ≡ (h == x)
      same_test c s g = let e : c ≡ h = cc (g.0.0, g.1.1) in rw e

  -- A backslash and the letter of a universal character name are seen as its beginning.
  is_ucn-true :
      (h : ℕ) (r : Bytes)
      → (h == b'u' || h == b'U') ≡ true
      → Triple (λ s. (s.after ≡ h ∷ r) × P s) (is_ucn b'\\') (λ b s. (b ≡ true) × P s)
  unfolding is_ucn
  is_ucn-true h r e = test_head b'u' h r ⟫ λ u. Triple-fact λ eu.
      Triple-if u (λ _. Triple-pure true (λ s g. (refl, g.1)))
        (λ nu. weaken (λ b s g. (second u b eu nu g.0, g.1.1)) (test_head b'U' h r))
    where
      second : (u b : Bool) → u ≡ (h == b'u') → u ≡ false → b ≡ (h == b'U') → b ≡ true
      second u b p q t = ground arith

exponent_tag-NotEof :
    (saw : Bool) (c : ℕ) (tag : Tag) → NotEof tag → NotEof (exponent_tag saw c tag)
unfolding exponent_tag
exponent_tag-NotEof saw c tag h = ground arith

module _ {start text : Bytes} {d k : ℕ} where
  number_body-In :
      (saw : Bool) (tag : Tag) (c : ℕ)
      → NotEof tag
      → Triple (In start text d k) (number_body saw tag c) (λ p s. NotEof p.1 × In start text d k s)
  unfolding number_body try_sign
  number_body-In saw tag c e =
      Triple-if (c == b'e' || c == b'E' || c == b'p' || c == b'P')
        (λ _. sign ⟫ λ _. Triple-pure _ (λ s h. (exponent_tag-NotEof saw c tag e, h)))
        (λ _. is_ucn-same c ⟫ λ u.
          Triple-if u (λ _. handle_escape-In ⟫ λ _. Triple-pure _ (λ s h. (e, h)))
            (λ _.
              Triple-if (c == b'.') (λ _. Triple-pure _ (λ s h. (refl, h)))
                (λ _. Triple-pure _ (λ s h. (e, h)))))
    where
      sign : Triple (In start text d k) try_sign (λ _. In start text d k)
      sign = try-In b'-' ⟫ λ m.
          Triple-if m (λ _. Triple-pure false (λ s h. h)) (λ _. try-In b'+') ⟫ λ p.
          Triple-pure tt (λ s h. h)

abbrev pub NumberLoop : Bytes → Bytes → ℕ → ℕ → ℕ → Type 0
NumberLoop start text e f c =
    (saw : Bool) (tag : Tag)
    → NotEof tag
    → Triple (Kept start text 1 f) (number_loop f saw tag c) (λ t s. NotEof t × In start text e f s)

module _ {start text : Bytes} where
  -- One round of the loop, before the rest of it.
  number_round :
      (f : ℕ) (saw : Bool) (tag : Tag) (c : ℕ)
      → NotEof tag
      → ((b : ℕ) → NumberLoop start text 0 f b)
      → Triple
          (Kept start text 1 (suc f))
          (number_body saw tag c >>= λ p. next true >>= λ b. number_loop f p.0 p.1 b)
          (λ t s. NotEof t × In start text 0 f s)
  number_round f saw tag c e loop = strengthen Kept-drop (number_body-In saw tag c e) ⟫ λ p.
      Triple-fact λ e'. next-Held ⟫ λ b. strengthen Held-Kept (loop b p.0 p.1 e')

  pub NumberLoop-In : (f c : ℕ) → NumberLoop start text 0 f c
  unfolding number_loop
  NumberLoop-In zero c saw tag e = record { at = λ s h. absurd (omega (arith, h.held.inside.room)) }
  NumberLoop-In (suc f) c saw tag e = in_number-same c ⟫ λ more.
      Triple-if more
        (λ _.
          weaken (λ t s h. (h.0, In-le (omega arith) (omega arith) s h.1))
            (number_round f saw tag c e (NumberLoop-In f)))
        (λ _. put_back-In ⟫ λ _. Triple-pure tag (λ s h. (e, h)))

  -- From a digit or a period at least that byte stays in the number.
  pub NumberLoop-more : (f c : ℕ) → (c == b'.' || is_digit c) ≡ true → NumberLoop start text 1 f c
  unfolding number_loop
  NumberLoop-more zero c n saw tag e = record {
    at = λ s h. absurd (omega (arith, h.held.inside.room));
  }
  NumberLoop-more (suc f) c n saw tag e = in_number-true c n ⟫ λ more. Triple-fact λ go.
      Triple-if more
        (λ _.
          weaken
            (λ t s h. (
              h.0,
              record { taken = h.1.taken; whole = h.1.whole; room = omega (arith, h.1.room) },
            ))
            (number_round f saw tag c e (NumberLoop-In f)))
        (λ stop. cc (go, stop))

  identifier_round :
      (f : ℕ)
      → ((c : ℕ) → Triple (Kept start text 1 f) (identifier_loop f c) (λ _. In start text 0 f))
      → Triple (In start text 0 f) (next true >>= identifier_loop f) (λ _. In start text 0 f)
  identifier_round f loop = next-Held ⟫ λ c. strengthen Held-Kept (loop c)

  pub identifier_loop-In :
      (f c : ℕ) → Triple (Kept start text 1 f) (identifier_loop f c) (λ _. In start text 0 f)
  unfolding identifier_loop
  identifier_loop-In zero c = record { at = λ s h. absurd (omega (arith, h.held.inside.room)) }
  identifier_loop-In (suc f) c = is_ucn-same c ⟫ λ u.
      Triple-if u
        (λ _. strengthen Kept-drop handle_escape-In ⟫ λ _.
          weaken (λ _. In-le (omega arith) (omega arith))
            (identifier_round f (identifier_loop-In f)))
        (λ _.
          Triple-if (in_word c)
            (λ _. strengthen Kept-drop (
              weaken (λ _. In-le (omega arith) (omega arith))
                (identifier_round f (identifier_loop-In f))))
            (λ _. put_back-In))

  In-more : (f : ℕ) (s : Scanner) → In start text 0 f s → In start text 1 (suc f) s
  In-more f s h = record { taken = h.taken; whole = h.whole; room = omega (arith, h.room) }

  pub identifier_loop-more :
      (f c : ℕ)
      → in_word c ≡ true
      → Triple (Kept start text 1 f) (identifier_loop f c) (λ _. In start text 1 f)
  unfolding identifier_loop
  identifier_loop-more zero c w = record { at = λ s h. absurd (omega (arith, h.held.inside.room)) }
  identifier_loop-more (suc f) c w = is_ucn-same c ⟫ λ u.
      Triple-if u
        (λ _. strengthen Kept-drop handle_escape-In ⟫ λ _.
          weaken (λ _. In-more f) (identifier_round f (identifier_loop-In f)))
        (λ _.
          Triple-if (in_word c)
            (λ _.
              strengthen Kept-drop
                (weaken (λ _. In-more f) (identifier_round f (identifier_loop-In f))))
            (λ n. cc (w, n)))

  pub identifier_loop-ucn :
      (f h : ℕ) (r : Bytes)
      → (h == b'u' || h == b'U') ≡ true
      → Triple
          (λ s. (s.after ≡ h ∷ r) × Kept start text 1 f s)
          (identifier_loop f b'\\')
          (λ _. In start text 1 f)
  unfolding identifier_loop
  identifier_loop-ucn zero h r e = record {
    at = λ s g. absurd (omega (arith, g.1.held.inside.room));
  }
  identifier_loop-ucn (suc f) h r e = is_ucn-true h r e ⟫ λ u. Triple-fact λ eu.
      Triple-if u
        (λ _. strengthen Kept-drop handle_escape-In ⟫ λ _.
          weaken (λ _. In-more f) (identifier_round f (identifier_loop-In f)))
        (λ n. cc (eu, n))

  pub literal_loop-In :
      (f quote c : ℕ)
      → Triple (Kept start text 1 f) (literal_loop f quote c) (λ _. In start text 1 f)
  unfolding literal_loop
  literal_loop-In zero quote c = record { at = λ s h. absurd (omega (arith, h.held.inside.room)) }
  literal_loop-In (suc f) quote c =
      Triple-if (c == quote || c == b'\n' || c == 0) (λ _. Triple-pure c Kept-In)
        (λ _. strengthen Kept-drop escaped ⟫ λ _. next-Held ⟫ λ b.
          weaken (λ _. In-le (omega arith) (omega arith))
            (strengthen Held-Kept (literal_loop-In f quote b)))
    where
      escaped :
          Triple
            (In start text 0 f)
            (if c == b'\\' then next true else pure 0)
            (λ _. In start text 0 f)
      escaped =
          Triple-if (c == b'\\') (λ _. weaken (λ _ s h. In-weak s h.inside) next-Held)
            (λ _. Triple-pure 0 (λ s h. h))
