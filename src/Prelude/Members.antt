-- ===== src/Prelude/Members.antt =====
-- Members of a list, and tests of all members and of some member.
use kcc.Prelude.Tests.{if◌then◌else◌, Bool-cases}
use mathlib.Core.Bool.{Bool, true, false, ◌&&◌}
use mathlib.Core.List.{List, [], ◌∷◌}
use mathlib.Core.Logic.{inl, inr}
use mathlib.Core.Path.{◌≡◌}
use native.Mathlib.Omega.{arith}

module _ {ℓ} {A : Type ℓ} where
  pub data In : A → List A → Type ℓ where
    head : {x : A} {xs : List A} → In x (x ∷ xs)
    tail : {x y : A} {xs : List A} → In x xs → In x (y ∷ xs)

  abbrev pub every : (A → Bool) → List A → Bool
  every p [] = true
  every p (x ∷ xs) = p x && every p xs

  abbrev pub exists : (A → Bool) → List A → Bool
  exists p [] = false
  exists p (x ∷ xs) = if p x then true else exists p xs

  pub every-In : (p : A → Bool) (xs : List A) {x : A} → every p xs ≡ true → In x xs → p x ≡ true
  every-In p [] h i = elim i [ ]
  every-In p (x ∷ xs) h head = ground (arith, h)
  every-In p (x ∷ xs) h (tail i) = every-In p xs (ground (arith, h)) i

  pub exists-In :
      (p : A → Bool) (xs : List A) → exists p xs ≡ true → (x : A) × In x xs × (p x ≡ true)
  exists-In p [] h = absurd (ground (arith, h))
  exists-In p (x ∷ xs) h = elim (Bool-cases (p x)) [
    | inl e ↦ (x, head, e)
    | inr e ↦ (let r = exists-In p xs (ground (arith, h, e)) in (r.0, tail r.1, r.2))
  ]
