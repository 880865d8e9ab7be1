-- ===== src/Lex/Gap.antt =====
-- What stands between two tokens, and the triple of `SkipSpace`.
use kcc.Lex.Actions.{Taken}
use kcc.Lex.Assert.{peek-Next}
use kcc.Lex.CharType.{is_space}
use kcc.Lex.Scanner.{Scanner, next, next_in, mark_location, with_budget, budget}
use kcc.Lex.Skip.{space_loop, skip_space}
use kcc.Lex.Triple.{Holds, Holds-weaken, Triple, Triple-pure, Triple-if, weaken, strengthen, ◌⟫◌}
use kcc.Prelude.{
  ℕ, zero, suc, ◌+◌, ◌≤◌, true, false, List, [], ◌∷◌, ◌++◌, ◌≡◌, refl, ap, Bytes, length, rev_onto,
  arith,
}
use kcc.Token.{Token, is_eof}

-- What is skipped between two tokens, its last byte first: spaces, and lines behind a '#'.
pub data Gap : Bytes → Type 0 where
  nothing : Gap []
  space : {c : ℕ} {g : Bytes} → is_space c ≡ true → Gap g → Gap (c ∷ g)
  directive : {g : Bytes} (line : Bytes) → Gap g → Gap (line ++ (b'#' ∷ g))

-- `Covers before ts after`: from the text read so far, `before`, the tokens `ts` lead to `after`.
-- Both are reversed: behind a gap comes the text of each token, and at the end the terminator.
pub data Covers : Bytes → List Token → Bytes → Type 0 where
  last :
      {before gap : Bytes} {t : Token}
      → Gap gap
      → is_eof t ≡ true
      → t.str ≡ []
      → Covers before (t ∷ []) (0 ∷ (gap ++ before))
  token :
      {before gap after : Bytes} {t : Token} {ts : List Token}
      → Gap gap
      → is_eof t ≡ false
      → Covers (rev_onto t.str (gap ++ before)) ts after
      → Covers before (t ∷ ts) after

pub record Between (base text : Bytes) (d k : ℕ) (s : Scanner) : Type 0 where
  pub gap : Bytes
  pub is_gap : Gap gap
  pub taken : s.before ≡ gap ++ base
  pub empty : s.buffer ≡ []
  pub whole : rev_onto s.before s.after ≡ text
  pub room : length s.after + d ≤ k

pub record Scanned (base text : Bytes) (d k : ℕ) (t : Token) (s : Scanner) : Type 0 where
  pub gap : Bytes
  pub is_gap : Gap gap
  pub taken : Taken (is_eof t) t.str (gap ++ base) s.before
  pub empty : s.buffer ≡ []
  pub whole : rev_onto s.before s.after ≡ text
  pub room : length s.after + d ≤ k

module _ {base text : Bytes} {d k : ℕ} where
  next_in-space :
      (c : ℕ) (after : Bytes) (s : Scanner)
      → is_space c ≡ true
      → s.after ≡ after
      → Between base text d k s × ((r : Bytes) × (s.after ≡ c ∷ r))
      → Holds (λ _. Between base text (suc d) k) (next_in false after s)
  unfolding next_in
  next_in-space c [] s sp e h = tt
  next_in-space c (b ∷ bs) s sp e h =
      let same : b ≡ c = cc (e, h.1.1) in
      record {
        gap = b ∷ h.0.gap;
        is_gap = space (rw same sp) h.0.is_gap;
        taken = ap (◌∷◌ b) h.0.taken;
        empty = h.0.empty;
        whole = rw e at h.0.whole;
        room = let l : length s.after ≡ suc (length bs) = ap length e in omega (arith, h.0.room);
      }

  next-space :
      (c : ℕ)
      → is_space c ≡ true
      → Triple
          (λ s. Between base text d k s × ((r : Bytes) × (s.after ≡ c ∷ r)))
          (next false)
          (λ _. Between base text (suc d) k)
  unfolding next
  next-space c sp = record { at = λ s h. next_in-space c s.after s sp refl h }

  pub mark_location-Between :
      Triple (Between base text d k) mark_location (λ _. Between base text d k)
  unfolding mark_location
  mark_location-Between = record {
    at = λ s h. record {
      gap = h.gap;
      is_gap = h.is_gap;
      taken = h.taken;
      empty = h.empty;
      whole = h.whole;
      room = h.room;
    };
  }

  pub Between-le :
      {e l : ℕ} → e ≤ d → k ≤ l → (s : Scanner) → Between base text d k s → Between base text e l s
  Between-le p q s h = record {
    gap = h.gap;
    is_gap = h.is_gap;
    taken = h.taken;
    empty = h.empty;
    whole = h.whole;
    room = omega (arith, h.room);
  }

  pub Between-drop : (s : Scanner) → Between base text (suc d) (suc k) s → Between base text d k s
  Between-drop s h = record {
    gap = h.gap;
    is_gap = h.is_gap;
    taken = h.taken;
    empty = h.empty;
    whole = h.whole;
    room = omega (arith, h.room);
  }

  pub Scanned-le :
      {e l : ℕ}
      → e ≤ d
      → k ≤ l
      → (t : Token) (s : Scanner) → Scanned base text d k t s
      → Scanned base text e l t s
  Scanned-le p q t s h = record {
    gap = h.gap;
    is_gap = h.is_gap;
    taken = h.taken;
    empty = h.empty;
    whole = h.whole;
    room = omega (arith, h.room);
  }

module _ {base text : Bytes} where
  space_loop-Between :
      (f : ℕ) → Triple (Between base text 1 f) (space_loop f) (λ _. Between base text 1 f)
  unfolding space_loop
  space_loop-Between zero = record { at = λ s h. absurd (omega (arith, h.room)) }
  space_loop-Between (suc f) = peek-Next ⟫ λ c.
      Triple-if (is_space c)
        (λ sp. next-space c sp ⟫ λ _.
          strengthen Between-drop
            (weaken (λ _. Between-le (omega arith) (omega arith)) (space_loop-Between f)))
        (λ _. Triple-pure tt (λ s h. h.0))

  pub skip_space-Between :
      (k : ℕ) → Triple (Between base text 1 k) skip_space (λ _. Between base text 1 k)
  unfolding skip_space with_budget
  skip_space-Between k = record {
    at = λ s h.
        Holds-weaken (space_loop (budget s) s)
          (λ a s' g. record {
            gap = g.gap;
            is_gap = g.is_gap;
            taken = g.taken;
            empty = g.empty;
            whole = g.whole;
            room = omega (arith, g.room, h.room);
          })
          ((space_loop-Between (budget s)).at s (record {
            gap = h.gap;
            is_gap = h.is_gap;
            taken = h.taken;
            empty = h.empty;
            whole = h.whole;
            room = omega arith;
          }));
  }
