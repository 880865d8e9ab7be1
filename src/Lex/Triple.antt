-- ===== src/Lex/Triple.antt =====
-- Pre- and postconditions of scanner actions. An error must be one that the source reports, or a
-- fault of a malformed input; it is neither the end of a loop's fuel nor a failed assertion about
-- the buffer or a digit.
use kcc.Lex.Scanner.{
  Error, empty_buffer, bad_digit, out_of_fuel, Result, ok, err, Scanner, M, ◌>>=◌, pure, fail,
  bind_in,
}
use kcc.Prelude.{Bool, true, false, ◌≡◌, refl, if◌then◌else◌}

abbrev pub Clean : Error → Type 0
Clean out_of_fuel = ⊥
Clean empty_buffer = ⊥
Clean bad_digit = ⊥
Clean _ = Unit

abbrev pub Holds : {A : Type 0} → (A → Scanner → Type 0) → Result (A × Scanner) → Type 0
Holds Q (ok (a, s)) = Q a s
Holds Q (err e) = Clean e

pub record Triple {A : Type 0} (P : Scanner → Type 0) (m : M A) (Q : A → Scanner → Type 0)
    : Type 0 where
  pub at : (s : Scanner) → P s → Holds Q (m s)

module _ {A : Type 0} {P : Scanner → Type 0} where
  pub Triple-pure :
      {Q : A → Scanner → Type 0} (a : A) → ((s : Scanner) → P s → Q a s) → Triple P (pure a) Q
  unfolding pure
  Triple-pure a h = record { at = h }

  pub Triple-fail : {Q : A → Scanner → Type 0} (e : Error) → Clean e → Triple P (fail e) Q
  unfolding fail
  Triple-fail e c = record { at = λ s h. c }

  pub Triple-if :
      {Q : A → Scanner → Type 0} (b : Bool) {m n : M A}
      → (b ≡ true → Triple P m Q)
      → (b ≡ false → Triple P n Q)
      → Triple P (if b then m else n) Q
  Triple-if true tm tn = tm refl
  Triple-if false tm tn = tn refl

pub Holds-weaken :
    {A : Type 0} {Q R : A → Scanner → Type 0} (r : Result (A × Scanner))
    → ((a : A) (s : Scanner) → Q a s → R a s)
    → Holds Q r
    → Holds R r
Holds-weaken (ok (a, s)) w h = w a s h
Holds-weaken (err e) w h = h

module _ {A : Type 0} {P : Scanner → Type 0} {Q : A → Scanner → Type 0} {m : M A} where
  pub weaken :
      {R : A → Scanner → Type 0}
      → ((a : A) (s : Scanner) → Q a s → R a s)
      → Triple P m Q
      → Triple P m R
  weaken w t = record { at = λ s h. Holds-weaken (m s) w (t.at s h) }

  pub strengthen :
      {P' : Scanner → Type 0} → ((s : Scanner) → P' s → P s) → Triple P m Q → Triple P' m Q
  strengthen w t = record { at = λ s h. t.at s (w s h) }

module _ {A B : Type 0} {Q : A → Scanner → Type 0} {R : B → Scanner → Type 0} where
  bind_in-Holds :
      (f : A → M B) (r : Result (A × Scanner))
      → Holds Q r
      → ((a : A) → Triple (Q a) (f a) R)
      → Holds R (bind_in r f)
  unfolding bind_in
  bind_in-Holds f (ok (a, s)) h k = (k a).at s h
  bind_in-Holds f (err e) h k = h

module _ {A B : Type 0} {P : Scanner → Type 0} {Q : A → Scanner → Type 0}
    {R : B → Scanner → Type 0} where
  infixl 1 ◌⟫◌
  pub ◌⟫◌ :
      {m : M A} {f : A → M B}
      → Triple P m Q
      → ((a : A) → Triple (Q a) (f a) R)
      → Triple P (m >>= f) R
  unfolding ◌>>=◌
  ◌⟫◌ {m} {f} t k = record { at = λ s h. bind_in-Holds f (m s) (t.at s h) k }

-- A fact that does not depend on the scanner can be assumed.
pub Triple-fact :
    {A F : Type 0} {P : Scanner → Type 0} {m : M A} {Q : A → Scanner → Type 0}
    → (F → Triple P m Q)
    → Triple (λ s. F × P s) m Q
Triple-fact t = record { at = λ s h. (t h.0).at s h.1 }
