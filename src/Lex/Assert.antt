-- ===== src/Lex/Assert.antt =====
-- What holds of a scanner inside a token, and the triples of the primitive operations.
--
-- `start` is the part of the text before the token and `text` the whole text. A bound `d`, `k` says
-- that at most `k` bytes were ahead and that at least `d` of them have been read since.
use kcc.Lex.Scanner.{
  Scanner, peek, peek_in, next, next_in, located, put_back_in, put_back, test, is_ucn,
}
use kcc.Lex.Triple.{Holds, Holds-weaken, Triple, Triple-pure, Triple-if, weaken, ◌⟫◌}
use kcc.Location.{Location}
use kcc.Prelude.{
  ℕ, suc, ◌+◌, ◌≤◌, true, false, [], ◌∷◌, ◌++◌, Option, none, some, ◌≡◌, refl, sym, ap, ◌∙◌, Bytes,
  length, rev_onto, arith,
}

pub record In (start text : Bytes) (d k : ℕ) (s : Scanner) : Type 0 where
  pub taken : s.before ≡ s.buffer ++ start
  pub whole : rev_onto s.before s.after ≡ text
  pub room : length s.after + d ≤ k

-- The buffer is not empty, and `c` is its last byte.
pub record Held (start text : Bytes) (d k c : ℕ) (s : Scanner) : Type 0 where
  pub inside : In start text d k s
  pub rest : Bytes
  pub last : s.buffer ≡ c ∷ rest

pub record Kept (start text : Bytes) (d k : ℕ) (s : Scanner) : Type 0 where
  pub byte : ℕ
  pub held : Held start text d k byte s

-- The next byte to read is `c`, and then come those of `rest`.
pub record Ahead (start text : Bytes) (d k c : ℕ) (rest : Bytes) (s : Scanner) : Type 0 where
  pub inside : In start text d k s
  pub next_is : s.after ≡ c ∷ rest

located-Holds :
    (P : Scanner → Type 0) (o : Option Location) (s : Scanner)
    → ((l : Location) → P (record s { loc = l }))
    → Holds (λ _. P) (located o s)
unfolding located
located-Holds P none s h = tt
located-Holds P (some l) s h = h l

peek_in-Holds :
    (P : Scanner → Type 0) (after : Bytes) (s : Scanner)
    → s.after ≡ after
    → P s
    → Holds (λ c s'. P s' × ((r : Bytes) × (s'.after ≡ c ∷ r))) (peek_in after s)
unfolding peek_in
peek_in-Holds P [] s e h = tt
peek_in-Holds P (c ∷ cs) s e h = (h, (cs, e))

module _ {P : Scanner → Type 0} where
  -- The byte seen is the next one.
  pub peek-Next : Triple P peek (λ c s. P s × ((r : Bytes) × (s.after ≡ c ∷ r)))
  unfolding peek
  peek-Next = record { at = λ s h. peek_in-Holds P s.after s refl h }

  pub peek-same : Triple P peek (λ _. P)
  peek-same = weaken (λ _ _ h. h.0) peek-Next

  pub test-same : (c : ℕ) → Triple P (test c) (λ _. P)
  unfolding test
  test-same c = peek-same ⟫ λ d. Triple-pure _ (λ s h. h)

  pub is_ucn-same : (c : ℕ) → Triple P (is_ucn c) (λ _. P)
  unfolding is_ucn
  is_ucn-same c =
      Triple-if _
        (λ _. test-same b'u' ⟫ λ u.
          Triple-if u (λ _. Triple-pure true (λ s h. h)) (λ _. test-same b'U'))
        (λ _. Triple-pure false (λ s h. h))

module _ {start text : Bytes} {d k : ℕ} where
  pub Kept-In : (s : Scanner) → Kept start text d k s → In start text d k s
  Kept-In s h = h.held.inside

  pub Held-Kept : {c : ℕ} (s : Scanner) → Held start text d k c s → Kept start text d k s
  Held-Kept {c} s h = record { byte = c; held = h }

  pub In-le : {e l : ℕ} → e ≤ d → k ≤ l → (s : Scanner) → In start text d k s → In start text e l s
  In-le p q s h = record { taken = h.taken; whole = h.whole; room = omega arith }

  pub Kept-le :
      {e l : ℕ} → e ≤ d → k ≤ l → (s : Scanner) → Kept start text d k s → Kept start text e l s
  Kept-le p q s h = record {
    byte = h.byte;
    held = record { inside = In-le p q s h.held.inside; rest = h.held.rest; last = h.held.last };
  }

  pub In-weak : (s : Scanner) → In start text (suc d) k s → In start text d k s
  In-weak s h = record { taken = h.taken; whole = h.whole; room = omega (arith, h.room) }

  -- A byte that was read is no longer ahead.
  pub Kept-drop : (s : Scanner) → Kept start text (suc d) (suc k) s → In start text d k s
  Kept-drop s h = record {
    taken = h.held.inside.taken;
    whole = h.held.inside.whole;
    room = omega (arith, h.held.inside.room);
  }

  next_in-Held :
      (after : Bytes) (s : Scanner)
      → s.after ≡ after
      → In start text d k s
      → Holds (λ c. Held start text (suc d) k c) (next_in true after s)
  unfolding next_in
  next_in-Held [] s e h = tt
  next_in-Held (c ∷ cs) s e h = record {
    inside = record {
      taken = ap (◌∷◌ c) h.taken;
      whole = rw e at h.whole;
      room = let l : length s.after ≡ suc (length cs) = ap length e in omega arith;
    };
    rest = s.buffer;
    last = refl;
  }

  pub next-Held : Triple (In start text d k) (next true) (λ c. Held start text (suc d) k c)
  unfolding next
  next-Held = record { at = λ s h. next_in-Held s.after s refl h }

  next_in-Ahead :
      (after : Bytes) (c : ℕ) (rest : Bytes) (s : Scanner)
      → s.after ≡ after
      → Ahead start text d k c rest s
      → Holds
          (λ b s'. (b ≡ c) × (s'.after ≡ rest) × Held start text (suc d) k b s')
          (next_in true after s)
  unfolding next_in
  next_in-Ahead [] c rest s e h = tt
  next_in-Ahead (b ∷ bs) c rest s e h =
      (cc (e, h.next_is), cc (e, h.next_is), next_in-Held (b ∷ bs) s e h.inside)

  -- The byte read is the one ahead.
  pub next-Ahead :
      (c : ℕ) (rest : Bytes)
      → Triple
          (Ahead start text d k c rest)
          (next true)
          (λ b s. (b ≡ c) × (s.after ≡ rest) × Held start text (suc d) k b s)
  unfolding next
  next-Ahead c rest = record { at = λ s h. next_in-Ahead s.after c rest s refl h }

  put_back_in-Ahead :
      (before buffer : Bytes) (c : ℕ) (s : Scanner)
      → s.before ≡ before
      → s.buffer ≡ buffer
      → Held start text (suc d) k c s
      → Holds (λ _. Ahead start text d k c s.after) (put_back_in before buffer s)
  unfolding put_back_in
  put_back_in-Ahead [] buffer c s e f h = tt
  put_back_in-Ahead (b ∷ bs) [] c s e f h = cc (h.last, f)
  put_back_in-Ahead (b ∷ bs) (x ∷ xs) c s e f h =
      let split : b ∷ bs ≡ c ∷ (h.rest ++ start) =
        sym e ∙ h.inside.taken ∙ ap (λ l. l ++ start) h.last in
      located-Holds _ _ _ λ l. record {
        inside = record {
          taken = cc (split, f, h.last);
          whole = rw e at h.inside.whole;
          room = omega (arith, h.inside.room);
        };
        next_is = ap (λ y. y ∷ s.after) (cc split);
      }

  -- `PutBack` puts the last byte read in front of the others.
  pub put_back-Ahead :
      (c : ℕ) (s : Scanner)
      → Held start text (suc d) k c s
      → Holds (λ _. Ahead start text d k c s.after) (put_back s)
  unfolding put_back
  put_back-Ahead c s h = put_back_in-Ahead s.before s.buffer c s refl refl h

  pub put_back-In : Triple (Kept start text (suc d) k) put_back (λ _. In start text d k)
  put_back-In = record {
    at = λ s h. Holds-weaken (put_back s) (λ _ _ a. a.inside) (put_back-Ahead h.byte s h.held);
  }

  pub put_back-back :
      (c : ℕ) (rest : Bytes)
      → Triple
          (λ s. (s.after ≡ rest) × Held start text (suc d) k c s)
          put_back
          (λ _. Ahead start text d k c rest)
  put_back-back c rest = record {
    at = λ s h.
        Holds-weaken (put_back s)
          (λ _ _ a. record { inside = a.inside; next_is = a.next_is ∙ ap (◌∷◌ c) h.0 })
          (put_back-Ahead c s h.1);
  }
