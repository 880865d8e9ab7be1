-- ===== src/Lex/Lossless.antt =====
-- The tokens of a text are, in order, pieces of it, with only spaces and line directives between
-- them; and the loops of the lexer end.
use kcc.Lex.Actions.{Taken, Made, make_token-Made}
use kcc.Lex.Assert.{In}
use kcc.Lex.BodyTriple.{NotEof}
use kcc.Lex.DirectiveTriple.{Reached, Beyond, skip_line_directives-Beyond}
use kcc.Lex.Gap.{
  Gap, nothing, directive, Covers, last, token, Between, Scanned, mark_location-Between, Scanned-le,
  skip_space-Between,
}
use kcc.Lex.OperatorTriple.{if_both, Single, Makes, Makes-In, MakesIf, scan_operator-Makes}
use kcc.Lex.Scan.{
  single_tag, scan_operator, scan_case, token_or, operator_or, scan_from, scan, tokenize_from,
  tokenize,
}
use kcc.Lex.ScanTriple.{scan_other-Makes}
use kcc.Lex.Scanner.{
  ok, err, Scanner, M, ◌>>=◌, pure, next, next_in, with_budget, budget, out_of_fuel, empty_buffer,
  bad_digit, new_scanner,
}
use kcc.Lex.Triple.{Holds, Holds-weaken, Triple, Triple-pure, Triple-if, weaken, strengthen, ◌⟫◌}
use kcc.Prelude.{
  ℕ, zero, suc, ◌+◌, ◌≤◌, true, false, List, [], ◌∷◌, ◌++◌, Option, none, some, ◌≡◌, ◌≢◌, refl, sym,
  ap, ◌∙◌, Bytes, length, rev_onto, arith, ◌==◌, append_assoc, ==_iff,
}
use kcc.Token.{Tag, Token, is_eof}

abbrev TagIfAny : Option Tag → Type 0
TagIfAny none = Unit
TagIfAny (some tag) = NotEof tag

single_tag-NotEof : (c : ℕ) → TagIfAny (single_tag c)
unfolding single_tag
single_tag-NotEof c =
    if_both TagIfAny (c == b'[') (λ _. refl)
      (if_both TagIfAny (c == b']') (λ _. refl)
        (if_both TagIfAny (c == b'(') (λ _. refl)
          (if_both TagIfAny (c == b')') (λ _. refl)
            (if_both TagIfAny (c == b'{') (λ _. refl)
              (if_both TagIfAny (c == b'}') (λ _. refl)
                (if_both TagIfAny (c == b'~') (λ _. refl)
                  (if_both TagIfAny (c == b'?') (λ _. refl)
                    (if_both TagIfAny (c == b';') (λ _. refl)
                      (if_both TagIfAny (c == b',') (λ _. refl) (tt))))))))))

module _ {start text : Bytes} {d k : ℕ} where
  operator_or-Makes :
      (c : ℕ) (o : Option (M Token))
      → MakesIf start text d k c o
      → Makes start text d k c (operator_or c o)
  unfolding operator_or
  operator_or-Makes c none h = scan_other-Makes c
  operator_or-Makes c (some op) h = h

  token_or-Makes : (c : ℕ) (o : Option Tag) → TagIfAny o → Makes start text d k c (token_or c o)
  unfolding token_or
  token_or-Makes c none h =
      operator_or-Makes c (scan_operator c) (scan_operator-Makes start text d k c)
  token_or-Makes c (some tag) h = Makes-In c (make_token-Made tag h)

module _ {base text : Bytes} where
  -- One token; `again` is the call of `Scan` behind a directive.
  scan_case-Scanned :
      (f c : ℕ) (gap : Bytes) (again : M Token)
      → Gap gap
      → Triple (Between base text 1 f) again (Scanned base text 2 f)
      → Triple
          (Single (gap ++ base) text 2 (suc f) c)
          (scan_case again c)
          (Scanned base text 2 (suc f))
  unfolding scan_case
  scan_case-Scanned f c gap again g t =
      Triple-if (c == b'#')
        (λ e. strengthen (reached ((==_iff c b'#').0 e)) skip_line_directives-Beyond ⟫ λ _.
          strengthen behind (weaken (Scanned-le (omega arith) (omega arith)) t))
        (λ _. weaken made (token_or-Makes c (single_tag c) (single_tag-NotEof c)))
    where
      reached :
          c ≡ b'#'
          → (s : Scanner) → Single (gap ++ base) text 2 (suc f) c s
          → Reached (b'#' ∷ (gap ++ base)) text 2 (suc f) s
      reached e s h = record {
        taken =
            h.1.held.inside.taken
            ∙ ap (λ (b : Bytes). b ++ (gap ++ base)) h.0
            ∙ ap (λ (x : ℕ). x ∷ (gap ++ base)) e;
        whole = h.1.held.inside.whole;
        room = h.1.held.inside.room;
      }

      behind :
          (s : Scanner) → Beyond (b'#' ∷ (gap ++ base)) text 2 (suc f) s → Between base text 1 f s
      behind s h = record {
        gap = h.gap ++ (b'#' ∷ gap);
        is_gap = directive h.gap g;
        taken = h.taken ∙ sym (append_assoc h.gap (b'#' ∷ gap) base);
        empty = h.empty;
        whole = h.whole;
        room = omega (arith, h.room);
      }

      made :
          (tok : Token) (s : Scanner)
          → Made (gap ++ base) text 2 (suc f) tok s
          → Scanned base text 2 (suc f) tok s
      made tok s h = record {
        gap = gap;
        is_gap = g;
        taken = h.taken;
        empty = h.empty;
        whole = h.whole;
        room = h.room;
      }

next_in-Single :
    {start text : Bytes} {d k : ℕ} (after : Bytes) (s : Scanner)
    → s.after ≡ after
    → (s.buffer ≡ []) × In start text d k s
    → Holds (λ c. Single start text (suc d) k c) (next_in true after s)
unfolding next_in
next_in-Single [] s e h = tt
next_in-Single {start} (c ∷ cs) s e h = (
  ap (◌∷◌ c) h.0,
  record {
    byte = c;
    held = record {
      inside = record {
        taken = ap (◌∷◌ c) h.1.taken;
        whole = rw e at h.1.whole;
        room = let l : length s.after ≡ suc (length cs) = ap length e in omega (arith, h.1.room);
      };
      rest = s.buffer;
      last = refl;
    };
  },
)

next-Single :
    {start text : Bytes} {d k : ℕ}
    → Triple
        (λ s. (s.buffer ≡ []) × In start text d k s)
        (next true)
        (λ c. Single start text (suc d) k c)
unfolding next
next-Single = record { at = λ s h. next_in-Single s.after s refl h }

module _ {base text : Bytes} where
  scan_from-Scanned : (f : ℕ) → Triple (Between base text 1 f) (scan_from f) (Scanned base text 2 f)
  unfolding scan_from
  scan_from-Scanned zero = record { at = λ s h. absurd (omega (arith, h.room)) }
  scan_from-Scanned (suc f) = skip_space-Between (suc f) ⟫ λ _. mark_location-Between ⟫ λ _.
      record {
        at = λ s h.
            (next-Single ⟫ λ c.
            scan_case-Scanned f c h.gap (scan_from f) h.is_gap (scan_from-Scanned f)).at
              s
              (
                h.empty,
                record {
                  taken = h.taken ∙ ap (λ (b : Bytes). b ++ (h.gap ++ base)) (sym h.empty);
                  whole = h.whole;
                  room = h.room;
                },
              );
      }

-- Between two calls of `Scan` the text read is `base` and the buffer is empty.
record Start (base text : Bytes) (d k : ℕ) (s : Scanner) : Type 0 where
  taken : s.before ≡ base
  empty : s.buffer ≡ []
  whole : rev_onto s.before s.after ≡ text
  room : length s.after + d ≤ k

-- Each call reads at least one byte.
scan-Scanned :
    {base text : Bytes} (k : ℕ) → Triple (Start base text 1 (suc k)) scan (Scanned base text 1 k)
unfolding scan with_budget
scan-Scanned k = record {
  at = λ s h.
      Holds-weaken (scan_from (budget s) s)
        (λ t s' g. record {
          gap = g.gap;
          is_gap = g.is_gap;
          taken = g.taken;
          empty = g.empty;
          whole = g.whole;
          room = omega (arith, g.room, h.room);
        })
        ((scan_from-Scanned (budget s)).at s (record {
          gap = [];
          is_gap = nothing;
          taken = h.taken;
          empty = h.empty;
          whole = h.whole;
          room = omega arith;
        }));
}

abbrev Read : Bytes → Bytes → List Token → Scanner → Type 0
Read base text ts s = Covers base ts s.before × (rev_onto s.before s.after ≡ text)

module _ {text : Bytes} where
  tokenize_last :
      (base : Bytes) (f : ℕ) (t : Token)
      → is_eof t ≡ true
      → Triple (Scanned base text 1 f t) (pure (t ∷ [])) (Read base text)
  tokenize_last base f t e = Triple-pure (t ∷ []) λ s h.
      let text_of : Taken true t.str (h.gap ++ base) s.before = rw e at h.taken in
      (rw text_of.1 (last h.is_gap e text_of.0), h.whole)

  tokenize_more :
      (base : Bytes) (f : ℕ) (t : Token)
      → is_eof t ≡ false
      → ((b : Bytes) → Triple (Start b text 1 f) (tokenize_from f) (Read b text))
      → Triple (Scanned base text 1 f t) (tokenize_from f >>= λ ts. pure (t ∷ ts)) (Read base text)
  tokenize_more base f t e rest = record {
    at = λ s h.
        (rest (rev_onto t.str (h.gap ++ base)) ⟫ λ ts.
        Triple-pure (t ∷ ts) (λ s' g. (token h.is_gap e g.0, g.1))).at
          s (record { taken = rw e at h.taken; empty = h.empty; whole = h.whole; room = h.room });
  }

  tokenize_from-Read :
      (f : ℕ) (base : Bytes) → Triple (Start base text 1 f) (tokenize_from f) (Read base text)
  unfolding tokenize_from
  tokenize_from-Read zero base = record { at = λ s h. absurd (omega (arith, h.room)) }
  tokenize_from-Read (suc f) base = scan-Scanned f ⟫ λ t.
      Triple-if (is_eof t) (tokenize_last base f t)
        (λ e. tokenize_more base f t e (tokenize_from-Read f))

tokenize-Holds : (source : Bytes) → Holds (Read [] (source ++ 0 ∷ [])) (tokenize source)
unfolding tokenize with_budget
tokenize-Holds source =
    (tokenize_from-Read (budget (new_scanner source)) []).at (new_scanner source)
      (record { taken = refl; empty = refl; whole = refl; room = omega arith })

-- When `Tokenize` returns, its tokens cover the text: each one's string is a piece of the text, in
-- order and without overlap, and what lies between two of them is white space and text behind a '#'
-- that opens a directive; only the last token is the end's, whose string is empty and which stands
-- at a zero byte. The text itself is unchanged.
pub tokenize-Covers :
    (source : Bytes) (ts : List Token) (s : Scanner)
    → tokenize source ≡ ok (ts, s)
    → Covers [] ts s.before × (rev_onto s.before s.after ≡ source ++ 0 ∷ [])
tokenize-Covers source ts s e = rw e at (tokenize-Holds source)

-- For every text `Tokenize` comes to an end: each loop of the lexer gets more fuel than it can use.
-- Nor does it fail by putting back a byte that the token does not hold, nor by taking the digit
-- value of a byte that is no digit.
pub tokenize_terminates :
    (source : Bytes)
    → (tokenize source ≢ err out_of_fuel)
      × (tokenize source ≢ err empty_buffer)
      × (tokenize source ≢ err bad_digit)
tokenize_terminates source = (
  λ e. rw e at (tokenize-Holds source),
  λ e. rw e at (tokenize-Holds source),
  λ e. rw e at (tokenize-Holds source),
)
