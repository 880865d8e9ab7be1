-- ===== src/Lex/OperatorTriple.antt =====
-- The triples of the operators and punctuators of `Scan`.
use kcc.Lex.Actions.{Tried-if, try-Tried, Made, make_token-Made}
use kcc.Lex.Assert.{In, Kept, Kept-In, In-weak, put_back-In, peek-same}
use kcc.Lex.BodyTriple.{NotEof}
use kcc.Lex.CharType.{is_digit}
use kcc.Lex.EscapeTriple.{try-In}
use kcc.Lex.Scan.{
  one_more, try_or, scan_period, scan_sharp_sharp, scan_percent, scan_less, scan_greater,
  scan_colon, scan_operator, greater_value,
}
use kcc.Lex.Scanner.{Scanner, M, ◌>>=◌, put_back, make_token}
use kcc.Lex.TokenTriple.{skip_number-more}
use kcc.Lex.Triple.{Triple, Triple-if, strengthen, ◌⟫◌}
use kcc.Prelude.{
  ℕ, suc, Bool, true, false, ◌||◌, [], ◌∷◌, Option, none, some, ◌≡◌, refl, Bytes, if◌then◌else◌,
  ◌==◌,
}
use kcc.Token.{Tag, Token}

pub if_both {ℓ κ} :
    {A : Type ℓ} (P : A → Type κ) (b : Bool) {x y : A}
    → (b ≡ true → P x)
    → P y
    → P (if b then x else y)
if_both P true px py = px refl
if_both P false px py = py

module _ {start text : Bytes} {d k : ℕ} where
  one_more-Made :
      (c : ℕ) (longer shorter : Tag)
      → NotEof longer
      → NotEof shorter
      → Triple (In start text d k) (one_more c longer shorter) (Made start text d k)
  unfolding one_more
  one_more-Made c longer shorter p q =
      try-In c ⟫ λ b. make_token-Made (if b then longer else shorter) (if_both NotEof b (λ _. p) q)

  try_or-Made :
      (c : ℕ) (tag : Tag) (other : M Token)
      → NotEof tag
      → Triple (In start text d k) other (Made start text d k)
      → Triple (In start text d k) (try_or c tag other) (Made start text d k)
  unfolding try_or
  try_or-Made c tag other p t = try-Tried c (λ s h. h) ⟫ λ b.
      Tried-if b (strengthen (λ s h. In-weak s h.held.inside) (make_token-Made tag p)) t

  scan_greater-Made : Triple (In start text d k) scan_greater (Made start text d k)
  unfolding scan_greater
  scan_greater-Made = try-In b'>' ⟫ λ g.
      Triple-if g (λ _. one_more-Made b'=' Tag.greater_greater_equal Tag.greater_greater refl refl)
        (λ _. one_more-Made b'=' Tag.greater_equal Tag.greater refl refl)

  scan_less-Made : Triple (In start text d k) scan_less (Made start text d k)
  unfolding scan_less
  scan_less-Made = try-In b'<' ⟫ λ l.
      Triple-if l (λ _. one_more-Made b'=' Tag.less_less_equal Tag.less_less refl refl)
        (λ _. try_or-Made b'=' Tag.less_equal _ refl (
          try_or-Made b':' Tag.left_square _ refl
            (try_or-Made b'%' Tag.left_brace _ refl (make_token-Made Tag.less refl))))

  pair_up :
      (c : ℕ) (longer shorter longest : Tag) (first : ℕ)
      → NotEof longer
      → NotEof shorter
      → NotEof longest
      → Triple
          (In start text d k)
          (try_or first longest (one_more c longer shorter))
          (Made start text d k)
  pair_up c longer shorter longest first p q r =
      try_or-Made first longest _ r (one_more-Made c longer shorter p q)

module _ {start text : Bytes} {d k : ℕ} where
  -- A byte that `Try` took is put back in front of the token's end.
  put_back-Made :
      (tag : Tag)
      → NotEof tag
      → Triple (Kept start text (suc d) k) (put_back >>= λ _. make_token tag) (Made start text d k)
  put_back-Made tag p = put_back-In ⟫ λ _. make_token-Made tag p

  scan_sharp_sharp-Made : Triple (In start text d k) scan_sharp_sharp (Made start text d k)
  unfolding scan_sharp_sharp
  scan_sharp_sharp-Made = try-Tried b'%' (λ s h. h) ⟫ λ p.
      Tried-if p
        (try-Tried b':' Kept-In ⟫ λ c.
          Tried-if c
            (strengthen (λ s h. In-weak s (In-weak s h.held.inside))
              (make_token-Made Tag.sharp_sharp refl))
            (put_back-Made Tag.sharp refl))
        (make_token-Made Tag.sharp refl)

  scan_percent-Made : Triple (In start text d k) scan_percent (Made start text d k)
  unfolding scan_percent
  scan_percent-Made = try_or-Made b'=' Tag.percent_equal _ refl (
      try_or-Made b'>' Tag.right_brace _ refl (
        try-In b':' ⟫ λ c.
        Triple-if c (λ _. scan_sharp_sharp-Made) (λ _. make_token-Made Tag.percent refl)))

-- The buffer holds the byte `c` only.
abbrev pub Single : Bytes → Bytes → ℕ → ℕ → ℕ → Scanner → Type 0
Single start text d k c s = (s.buffer ≡ c ∷ []) × Kept start text d k s

-- An action that makes a token of its first byte and what it reads.
abbrev pub Makes : Bytes → Bytes → ℕ → ℕ → ℕ → M Token → Type 0
Makes start text d k c m = Triple (Single start text (suc d) k c) m (Made start text (suc d) k)

abbrev pub MakesIf : Bytes → Bytes → ℕ → ℕ → ℕ → Option (M Token) → Type 0
MakesIf start text d k c none = Unit
MakesIf start text d k c (some m) = Makes start text d k c m

is_period : (c : ℕ) → (c == b'.') ≡ true → (c == b'.' || is_digit c) ≡ true
is_period c e = rw e

module _ {start text : Bytes} {d k : ℕ} where
  pub Makes-In :
      (c : ℕ) {m : M Token}
      → Triple (In start text (suc d) k) m (Made start text (suc d) k)
      → Makes start text d k c m
  Makes-In c t = strengthen (λ s h. Kept-In s h.1) t

  scan_period-Made : (c : ℕ) → (c == b'.' || is_digit c) ≡ true → Makes start text d k c scan_period
  unfolding scan_period
  scan_period-Made c e = peek-same ⟫ λ n.
      Triple-if (is_digit n) (λ _. skip_number-more c e)
        (λ _. try-Tried b'.' (λ s h. Kept-In s h.1) ⟫ λ second.
          Tried-if second
            (try-Tried b'.' Kept-In ⟫ λ third.
              Tried-if third
                (strengthen (λ s h. In-weak s (In-weak s h.held.inside))
                  (make_token-Made Tag.ellipsis refl))
                (put_back-Made Tag.period refl))
            (Makes-In c (make_token-Made Tag.period refl)))

pub scan_operator-Makes :
    (start text : Bytes) (d k c : ℕ) → MakesIf start text d k c (scan_operator c)
unfolding scan_operator scan_colon
scan_operator-Makes start text d k c =
    let P : Option (M Token) → Type 0 = MakesIf start text d k c in
    if_both P (c == b'.') (λ e. scan_period-Made c (is_period c e))
      (if_both P (c == b'+') (λ _. Makes-In c (pair_up b'=' _ _ _ b'+' refl refl refl))
        (if_both P (c == b'-')
          (λ _.
            Makes-In c (try_or-Made b'>' Tag.arrow _ refl (pair_up b'=' _ _ _ b'-' refl refl refl)))
          (if_both P (c == b'&') (λ _. Makes-In c (pair_up b'=' _ _ _ b'&' refl refl refl))
            (if_both P (c == b'*') (λ _. Makes-In c (one_more-Made b'=' _ _ refl refl))
              (if_both P (c == b'!') (λ _. Makes-In c (one_more-Made b'=' _ _ refl refl))
                (if_both P (c == b'/') (λ _. Makes-In c (one_more-Made b'=' _ _ refl refl))
                  (if_both P (c == b'%') (λ _. Makes-In c scan_percent-Made)
                    (if_both P (c == b'<') (λ _. Makes-In c scan_less-Made)
                      (if_both P (c == b'>') (λ _. Makes-In c scan_greater-Made)
                        (if_both P (c == b'=') (λ _. Makes-In c (one_more-Made b'=' _ _ refl refl))
                          (if_both P (c == b'^')
                            (λ _. Makes-In c (one_more-Made b'=' _ _ refl refl))
                            (if_both P (c == b'|')
                              (λ _. Makes-In c (pair_up b'=' _ _ _ b'|' refl refl refl))
                              (if_both P (c == b':')
                                (λ _. Makes-In c (one_more-Made greater_value _ _ refl refl))
                                tt)))))))))))))
