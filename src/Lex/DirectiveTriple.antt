-- ===== src/Lex/DirectiveTriple.antt =====
-- The triple of a line directive: it leaves the buffer empty, and what it read is behind the '#'.
use kcc.Lex.Actions.{Taken, Made, Made-le}
use kcc.Lex.Assert.{In, Held-Kept, In-weak, next-Held}
use kcc.Lex.CharType.{is_digit}
use kcc.Lex.Directive.{
  in_range, read_number, read_name, stoi, starts_with_digit, set_row_before, set_name, line_loop,
  skip_line_directives, unquote,
}
use kcc.Lex.Scanner.{
  Scanner, M, next, next_in, has_next, clear_buffer, update_location, with_budget, budget,
  no_number, bad_row, empty_file_name,
}
use kcc.Lex.TokenTriple.{skip_number-Made, skip_string_literal-Made}
use kcc.Lex.Triple.{
  Holds, Holds-weaken, Triple, Triple-pure, Triple-if, Triple-fail, weaken, strengthen, ◌⟫◌,
}
use kcc.Location.{Location}
use kcc.Prelude.{
  ℕ, zero, suc, ◌+◌, ◌≤◌, Bool, true, false, [], ◌∷◌, ◌++◌, ◌≡◌, refl, sym, ap, ◌∙◌, Bytes, length,
  rev_onto, rev_onto_split, ltb, ◌^◌, arith, ◌==◌, append_assoc,
}
use kcc.Token.{Token, is_eof}

-- The text read so far is `base`.
pub record Reached (base text : Bytes) (d k : ℕ) (s : Scanner) : Type 0 where
  pub taken : s.before ≡ base
  pub whole : rev_onto s.before s.after ≡ text
  pub room : length s.after + d ≤ k

-- The text read so far ends in `base`, and the buffer is empty.
pub record Beyond (base text : Bytes) (d k : ℕ) (s : Scanner) : Type 0 where
  pub gap : Bytes
  pub taken : s.before ≡ gap ++ base
  pub empty : s.buffer ≡ []
  pub whole : rev_onto s.before s.after ≡ text
  pub room : length s.after + d ≤ k

pub next_in-false :
    {base text : Bytes} {d k : ℕ} (after : Bytes) (s : Scanner)
    → s.after ≡ after
    → Beyond base text d k s
    → Holds (λ _. Beyond base text (suc d) k) (next_in false after s)
unfolding next_in
next_in-false [] s e h = tt
next_in-false (c ∷ cs) s e h = record {
  gap = c ∷ h.gap;
  taken = ap (◌∷◌ c) h.taken;
  empty = h.empty;
  whole = rw e at h.whole;
  room = let l : length s.after ≡ suc (length cs) = ap length e in omega (arith, h.room);
}

module _ {base text : Bytes} {d k : ℕ} where
  next-false : Triple (Beyond base text d k) (next false) (λ _. Beyond base text (suc d) k)
  unfolding next
  next-false = record { at = λ s h. next_in-false s.after s refl h }

  Beyond-weak : (s : Scanner) → Beyond base text (suc d) k s → Beyond base text d k s
  Beyond-weak s h = record {
    gap = h.gap;
    taken = h.taken;
    empty = h.empty;
    whole = h.whole;
    room = omega (arith, h.room);
  }

  pub Beyond-le :
      {e l : ℕ} → e ≤ d → k ≤ l → (s : Scanner) → Beyond base text d k s → Beyond base text e l s
  Beyond-le p q s h = record {
    gap = h.gap;
    taken = h.taken;
    empty = h.empty;
    whole = h.whole;
    room = omega (arith, h.room);
  }

  Beyond-drop : (s : Scanner) → Beyond base text (suc d) (suc k) s → Beyond base text d k s
  Beyond-drop s h = record {
    gap = h.gap;
    taken = h.taken;
    empty = h.empty;
    whole = h.whole;
    room = omega (arith, h.room);
  }

  clear_Reached : Triple (Reached base text d k) clear_buffer (λ _. Beyond base text d k)
  unfolding clear_buffer
  clear_Reached = record {
    at = λ s h. record { gap = []; taken = h.taken; empty = refl; whole = h.whole; room = h.room };
  }

  clear_Beyond : Triple (Beyond base text d k) clear_buffer (λ _. Beyond base text d k)
  unfolding clear_buffer
  clear_Beyond = record {
    at = λ s h. record {
      gap = h.gap;
      taken = h.taken;
      empty = refl;
      whole = h.whole;
      room = h.room;
    };
  }

  update_location-Beyond :
      (f : Location → Location)
      → Triple (Beyond base text d k) (update_location f) (λ _. Beyond base text d k)
  unfolding update_location
  update_location-Beyond f = record {
    at = λ s h. record {
      gap = h.gap;
      taken = h.taken;
      empty = h.empty;
      whole = h.whole;
      room = h.room;
    };
  }

  set_row_before-Beyond :
      (n : ℕ) → Triple (Beyond base text d k) (set_row_before n) (λ _. Beyond base text d k)
  unfolding set_row_before
  set_row_before-Beyond zero = Triple-fail bad_row tt
  set_row_before-Beyond (suc n) = update_location-Beyond _

  set_name-Beyond :
      (name : Bytes) → Triple (Beyond base text d k) (set_name name) (λ _. Beyond base text d k)
  unfolding set_name
  set_name-Beyond [] = Triple-fail empty_file_name tt
  set_name-Beyond (c ∷ cs) = update_location-Beyond _

module _ {P : Scanner → Type 0} where
  in_range-same : (n : ℕ) → Triple P (in_range n) (λ _. P)
  unfolding in_range
  in_range-same n =
      Triple-if (ltb n (2 ^ 31)) (λ _. Triple-pure n (λ s h. h)) (λ _. Triple-fail no_number tt)

  stoi-same : (str : Bytes) → Triple P (stoi str) (λ _. P)
  unfolding stoi starts_with_digit
  stoi-same [] = Triple-fail no_number tt
  stoi-same (c ∷ cs) = Triple-if (is_digit c) (λ _. in_range-same _) (λ _. Triple-fail no_number tt)

  has_next-same : Triple P has_next (λ _. P)
  unfolding has_next
  has_next-same = record { at = λ s h. h }

pub Taken-split :
    (b : Bool) (str start before : Bytes)
    → Taken b str start before
    → (g : Bytes) × (before ≡ g ++ start)
Taken-split false str start before h = (rev_onto str [], h ∙ rev_onto_split str [] start)
Taken-split true str start before h = (0 ∷ [], h.1)

module _ {base text : Bytes} {d k : ℕ} where
  -- A token inside a directive.
  lexeme-Beyond :
      (m : M Token)
      → ((start : Bytes) → Triple (In start text d k) m (Made start text d k))
      → Triple (Beyond base text d k) m (λ _. Beyond base text d k)
  lexeme-Beyond m t = record {
    at = λ s h.
        Holds-weaken (m s)
          (λ tok s' made.
            let (g, e) = Taken-split (is_eof tok) tok.str s.before s'.before made.taken in
            record {
              gap = g ++ h.gap;
              taken = e ∙ ap (λ (b : Bytes). g ++ b) h.taken ∙ sym (append_assoc g h.gap base);
              empty = made.empty;
              whole = made.whole;
              room = made.room;
            })
          ((t s.before).at s (record {
            taken = ap (λ (b : Bytes). b ++ s.before) (sym h.empty);
            whole = h.whole;
            room = h.room;
          }));
  }

module _ {base text : Bytes} where
  -- The loop has more fuel than bytes are ahead.
  line_loop-Beyond :
      (f : ℕ) → Triple (Beyond base text 1 f) (line_loop f) (λ _. Beyond base text 1 f)
  unfolding line_loop
  line_loop-Beyond zero = record { at = λ s h. absurd (omega (arith, h.room)) }
  line_loop-Beyond (suc f) = has_next-same ⟫ λ more.
      Triple-if more
        (λ _. next-false ⟫ λ c.
          Triple-if (c == b'\n') (λ _. Triple-pure tt (Beyond-le (omega arith) (omega arith)))
            (λ _.
              strengthen Beyond-drop
                (weaken (λ _. Beyond-le (omega arith) (omega arith)) (line_loop-Beyond f))))
        (λ _. Triple-pure tt (λ s h. h))

module _ {base text : Bytes} {d k : ℕ} where
  line_budget : Triple (Beyond base text d k) (with_budget line_loop) (λ _. Beyond base text d k)
  unfolding with_budget
  line_budget = record {
    at = λ s h.
        Holds-weaken (line_loop (budget s) s)
          (λ a s' g. record {
            gap = g.gap;
            taken = g.taken;
            empty = g.empty;
            whole = g.whole;
            room = omega (arith, g.room, h.room);
          })
          ((line_loop-Beyond (budget s)).at s (record {
            gap = h.gap;
            taken = h.taken;
            empty = h.empty;
            whole = h.whole;
            room = omega arith;
          }));
  }

  read_number-Beyond : Triple (Beyond base text d k) read_number (λ _. Beyond base text d k)
  unfolding read_number
  read_number-Beyond =
      lexeme-Beyond _ (λ start. next-Held ⟫ λ c. strengthen Held-Kept skip_number-Made)

  read_name-Beyond : Triple (Beyond base text d k) read_name (λ _. Beyond base text d k)
  unfolding read_name
  read_name-Beyond = lexeme-Beyond _ (λ start. next-Held ⟫ λ c.
      strengthen (λ s h. In-weak s h.inside)
        (weaken (Made-le (omega arith) (omega arith)) skip_string_literal-Made))

  -- A directive puts an empty buffer behind its line.
  pub skip_line_directives-Beyond :
      Triple (Reached base text d k) skip_line_directives (λ _. Beyond base text d k)
  unfolding skip_line_directives
  skip_line_directives-Beyond = clear_Reached ⟫ λ _. next-false ⟫ λ _.
      strengthen Beyond-weak read_number-Beyond ⟫ λ number. stoi-same number.str ⟫ λ row.
      set_row_before-Beyond row ⟫ λ _. next-false ⟫ λ _.
      strengthen Beyond-weak read_name-Beyond ⟫ λ name.
      set_name-Beyond (unquote name.str) ⟫ λ _. line_budget ⟫ λ _. clear_Beyond
