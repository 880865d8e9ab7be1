-- ===== src/Prelude/Results.antt =====
-- A value or an error, for the parts that fail in their own way.
use kcc.Prelude.Tests.{if◌then◌else◌}
use mathlib.Core.Bool.{Bool, true, false}
use mathlib.Core.Path.{◌≡◌, refl, sym}
use mathlib.Core.Option.{Option, none, some}

pub data Result {ℓ} (E : Type 0) (A : Type ℓ) : Type ℓ where
  ok : A → Result E A
  err : E → Result E A

infixl 5 ◌>>=◌ ◌>>◌
abbrev pub ◌>>=◌ {ℓ κ} :
    {E : Type 0} {A : Type ℓ} {B : Type κ} → Result E A → (A → Result E B) → Result E B
ok a >>= f = f a
err e >>= f = err e

abbrev pub ◌>>◌ {κ} : {E : Type 0} {B : Type κ} → Result E (Unit {0}) → Result E B → Result E B
m >> k = m >>= λ _. k

-- The value of an option, or an error for `none`.
abbrev pub or_err {ℓ} : {E : Type 0} {A : Type ℓ} → E → Option A → Result E A
or_err e none = err e
or_err e (some a) = ok a

-- What holds of the value, if there is one.
pub data Post {ℓ κ} {E : Type 0} {A : Type ℓ} (P : A → Type κ) : Result E A → Type (ℓ ⊔ κ) where
  holds : {a : A} → P a → Post P (ok a)
  fails : {e : E} → Post P (err e)

ok_injective {ℓ} : {E : Type 0} {A : Type ℓ} {a b : A} → Path (Result E A) (ok a) (ok b) → a ≡ b
ok_injective h = cc

module _ {ℓ κ} {E : Type 0} {A : Type ℓ} {P : A → Type κ} where
  pub Post-bind {ℓ' κ'} :
      {B : Type ℓ'} {Q : B → Type κ'} {r : Result E A} {f : A → Result E B}
      → Post P r
      → ((a : A) → P a → Post Q (f a))
      → Post Q (r >>= f)
  Post-bind (holds {a} h) k = k a h
  Post-bind fails k = fails

  pub Post-if :
      (b : Bool) {x y : Result E A}
      → (b ≡ true → Post P x)
      → (b ≡ false → Post P y)
      → Post P (if b then x else y)
  Post-if true f g = f refl
  Post-if false f g = g refl

  pub Post-map {κ'} :
      {Q : A → Type κ'} {r : Result E A} → ((a : A) → P a → Q a) → Post P r → Post Q r
  Post-map f (holds {a} h) = holds (f a h)
  Post-map f fails = fails

  pub Post-both {κ'} :
      {Q : A → Type κ'} {r : Result E A} → Post P r → Post Q r → Post (λ a. P a × Q a) r
  Post-both (holds p) (holds q) = holds (p, q)
  Post-both fails q = fails

  -- What a result that is known satisfies.
  pub Post-ok : {r : Result E A} {a : A} → Post P r → r ≡ ok a → P a
  Post-ok (holds h) e = rw (sym (ok_injective e)) h
  Post-ok fails e = absurd cc

pub Post-any {ℓ} : {E : Type 0} {A : Type ℓ} (r : Result E A) → Post (λ _. Unit {0}) r
Post-any (ok a) = holds tt
Post-any (err e) = fails
