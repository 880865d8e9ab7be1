-- ===== src/Lex/Actions.antt =====
-- The triples of `Try`, `MakeToken`, loops on a budget, and of the escape sequences.
use kcc.Lex.Assert.{In, Kept, Ahead, Held-Kept, next-Held, peek-same, peek-Next}
use kcc.Lex.Scanner.{Scanner, M, try, make_token, with_budget, budget}
use mathlib.Core.Path.{subst}
use kcc.Lex.Triple.{Triple, Triple-pure, Triple-if, weaken, strengthen, ◌⟫◌}
use kcc.Prelude.{
  ℕ, suc, ◌+◌, ◌≤◌, Bool, true, false, [], ◌∷◌, ◌++◌, ◌≡◌, refl, sym, ◌∙◌, Bytes, length, rev_onto,
  arith, if◌then◌else◌, ◌==◌,
}
use kcc.Token.{Tag, Token, is_eof_tag, is_eof}

-- After `Try`: one byte more in the buffer, or the state from before.
abbrev pub Tried : (P Q : Scanner → Type 0) → Bool → Scanner → Type 0
Tried P Q true = Q
Tried P Q false = P

pub Tried-if :
    {A : Type 0} {P Q : Scanner → Type 0} {m n : M A} {R : A → Scanner → Type 0} (b : Bool)
    → Triple Q m R
    → Triple P n R
    → Triple (Tried P Q b) (if b then m else n) R
Tried-if true t u = t
Tried-if false t u = u

-- The text of a token that began at `start`; the text of the end is empty.
abbrev pub Taken : Bool → Bytes → Bytes → Bytes → Type 0
Taken false str start before = before ≡ rev_onto str start
Taken true str start before = (str ≡ []) × (before ≡ 0 ∷ start)

pub record Made (start text : Bytes) (d k : ℕ) (t : Token) (s : Scanner) : Type 0 where
  pub taken : Taken (is_eof t) t.str start s.before
  pub empty : s.buffer ≡ []
  pub whole : rev_onto s.before s.after ≡ text
  pub room : length s.after + d ≤ k

rev_onto_twice : (xs ys zs : Bytes) → rev_onto (rev_onto xs ys) zs ≡ rev_onto ys (xs ++ zs)
rev_onto_twice [] ys zs = refl
rev_onto_twice (x ∷ xs) ys zs = rev_onto_twice xs (x ∷ ys) zs

module _ {start text : Bytes} {d k : ℕ} where
  pub Made-le :
      {e l : ℕ}
      → e ≤ d
      → k ≤ l
      → (t : Token) (s : Scanner) → Made start text d k t s
      → Made start text e l t s
  Made-le p q t s h = record {
    taken = h.taken;
    empty = h.empty;
    whole = h.whole;
    room = omega arith;
  }

  pub make_token-Made :
      (tag : Tag)
      → is_eof_tag tag ≡ false
      → Triple (In start text d k) (make_token tag) (Made start text d k)
  unfolding make_token
  make_token-Made tag e = record {
    at = λ s h. record {
      taken =
          subst (λ b. Taken b (rev_onto s.buffer []) start s.before) (sym e)
            (h.taken ∙ sym (rev_onto_twice s.buffer [] start));
      empty = refl;
      whole = h.whole;
      room = h.room;
    };
  }

  -- In the assertions that `Try` starts from the scanner is inside the token.
  pub try-Tried :
      {P : Scanner → Type 0} (c : ℕ)
      → ((s : Scanner) → P s → In start text d k s)
      → Triple P (try c) (Tried P (Kept start text (suc d) k))
  unfolding try
  try-Tried {P} c w = peek-same ⟫ λ b.
      Triple-if (b == c) (λ _. strengthen w next-Held ⟫ λ x. Triple-pure true Held-Kept)
        (λ _. Triple-pure false (λ s h. h))

  Ahead-head :
      (b x : ℕ) (rest : Bytes) (s : Scanner)
      → Ahead start text d k x rest s
      → (r : Bytes) × (s.after ≡ b ∷ r)
      → b ≡ x
  Ahead-head b x rest s h n = cc (h.next_is, n.1)

  -- A byte that is not ahead is not taken.
  pub try-Ahead :
      (x c : ℕ) {rest : Bytes}
      → Triple (Ahead start text d k x rest) (try c) (
          Tried
            (λ s. ((x == c) ≡ false) × Ahead start text d k x rest s)
            (Kept start text (suc d) k))
  unfolding try
  try-Ahead x c {rest} = peek-Next ⟫ λ b.
      Triple-if (b == c)
        (λ _. strengthen (λ s h. h.0.inside) next-Held ⟫ λ y. Triple-pure true Held-Kept)
        (λ e. Triple-pure false (λ s h. (rw (← Ahead-head b x rest s h.0 h.1) e, h.0)))

  -- A loop that starts behind the first byte gets more fuel than bytes are ahead. `G` is what else
  -- the loop starts from, and `F` what it finds of its result.
  pub with_budget-frame :
      {A : Type 0} (G : Scanner → Type 0) (F : A → Type 0) (e m : ℕ) (loop : ℕ → M A)
      → m ≤ e + d
      → ((f : ℕ)
          → Triple (λ s. G s × Kept start text 1 f s) (loop f) (λ a s. F a × In start text e f s))
      → Triple
          (λ s. G s × Kept start text (suc d) k s)
          (with_budget loop)
          (λ a s. F a × In start text m k s)
  unfolding with_budget
  with_budget-frame G F e m loop p t = record {
    at = λ s h.
        (weaken
            (λ a s' i.
              let bound : length s.after + suc d ≤ k = h.1.held.inside.room in
              (
                i.0,
                record { taken = i.1.taken; whole = i.1.whole; room = omega (arith, i.1.room) },
              ))
            (t (budget s))).at
          s
          (
            h.0,
            record {
              byte = h.1.byte;
              held = record {
                inside = record {
                  taken = h.1.held.inside.taken;
                  whole = h.1.held.inside.whole;
                  room = omega arith;
                };
                rest = h.1.held.rest;
                last = h.1.held.last;
              };
            },
          );
  }

  pub with_budget-fact :
      {A : Type 0} (F : A → Type 0) (e m : ℕ) (loop : ℕ → M A)
      → m ≤ e + d
      → ((f : ℕ) → Triple (Kept start text 1 f) (loop f) (λ a s. F a × In start text e f s))
      → Triple (Kept start text (suc d) k) (with_budget loop) (λ a s. F a × In start text m k s)
  with_budget-fact F e m loop p t =
      strengthen (λ s h. (tt, h))
        (with_budget-frame (λ _. Unit {0}) F e m loop p (λ f. strengthen (λ s h. h.1) (t f)))

  pub with_budget-In :
      {A : Type 0} (e m : ℕ) (loop : ℕ → M A)
      → m ≤ e + d
      → ((f : ℕ) → Triple (Kept start text 1 f) (loop f) (λ _. In start text e f))
      → Triple (Kept start text (suc d) k) (with_budget loop) (λ _. In start text m k)
  with_budget-In e m loop p t =
      weaken (λ _ _ h. h.1)
        (with_budget-fact (λ _. Unit {0}) e m loop p (λ f. weaken (λ _ _ h. (tt, h)) (t f)))
