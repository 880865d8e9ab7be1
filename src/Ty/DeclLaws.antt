-- ===== src/Ty/DeclLaws.antt =====
-- What `ParseDeclSpec` (src/parse_decl.cpp) accepts, and how it fails.
use kcc.Prelude.{
  In, ℕ, ◌+◌, Bool, true, false, List, [], ◌∷◌, ◌++◌, Option, some, ◌≡◌, ◌≢◌, refl, sym, ◌∙◌, ap,
  arith,
}
use kcc.Ty.CType.{Ty, get_type}
use kcc.Ty.DeclPhase.{
  Phase, nothing, named, listed, pointers, is_defect, with_keyword, Stepped, on, over, failed,
  step-Stepped,
}
use kcc.Ty.DeclRow.{base_type_row, base_type_kept}
use kcc.Ty.DeclSpec.{
  Keyword, Specifier, keyword, State, initial, Result, ok, err, SpecError, null_pointer,
  bad_type_spec, type_missing, Round, more, finish, Declared, parse_decl_spec, base_type,
  finish_decl_spec,
}
use kcc.Ty.DeclTable.{Row, table, count, keywords_of}

-- The keywords, counted by `n`, are none, or those of a row whose type is the one that is declared.
pub data Names (n : Keyword → ℕ) (t : Ty) : Type 0 where
  by_name : ((c : Keyword) → n c ≡ 0) → Names n t
  by_keywords :
      (r : Row) → In r table → ((c : Keyword) → n c ≡ count c r.keywords) → t ≡ r.type → Names n t

pub record Accepted (n : Keyword → ℕ) (xs : List Specifier) (d : Declared) : Type 0 where
  pub read : List Specifier
  pub split : xs ≡ read ++ d.rest
  pub names : Names (λ c. n c + count c (keywords_of read)) (get_type d.type)

data Outcome (p : Bool) (n : Keyword → ℕ) (xs : List Specifier) : Result Declared → Type 0 where
  accepted : {d : Declared} → Accepted n xs d → Outcome p n xs (ok d)
  rejected : {e : SpecError} → is_defect p e ≡ false → Outcome p n xs (err e)

no_type : (s : State) → s.type_spec ≡ 0 → s.has_typeof ≡ false → base_type s ≡ err type_missing
unfolding base_type
no_type s h g = ground (arith, h, g)

finish-Outcome :
    (p : Bool) (s : State) (n : Keyword → ℕ) (xs : List Specifier)
    → Phase s n
    → Outcome p n xs (finish_decl_spec s xs)
unfolding finish_decl_spec
finish-Outcome p s n xs (nothing h g z) = rw (no_type s h g) (rejected refl)
finish-Outcome p s n xs (named t e k z) =
    rw (base_type_kept s t k e)
      (accepted (record { read = []; split = refl; names = by_name (λ c. omega (arith, z c)) }))
finish-Outcome p s n xs (listed r i e z) = rw (base_type_row s r i e) (
    accepted
      (record { read = []; split = refl; names = by_keywords r i (λ c. omega (arith, z c)) refl }))

with_keyword-count :
    (x : Specifier) (n : Keyword → ℕ) (c : Keyword) (xs : List Specifier)
    → with_keyword x n c + count c (keywords_of xs) ≡ n c + count c (keywords_of (x ∷ xs))
with_keyword-count (keyword k) n c xs = omega arith
with_keyword-count _ n c xs = refl

abbrev Continue : State → List Specifier → Specifier → Result Round → Result Declared
Continue s xs x r = elim r [
  | err e ↦ err e
  | ok finish ↦ finish_decl_spec s (x ∷ xs)
  | ok (more t) ↦ parse_decl_spec t xs
]

Names-same : {n m : Keyword → ℕ} {t : Ty} → ((c : Keyword) → n c ≡ m c) → Names n t → Names m t
Names-same e (by_name z) = by_name (λ c. sym (e c) ∙ z c)
Names-same e (by_keywords r i z q) = by_keywords r i (λ c. sym (e c) ∙ z c) q

-- What holds behind one more specifier.
Outcome-cons :
    {p : Bool} (x : Specifier) (n : Keyword → ℕ) (xs : List Specifier) {r : Result Declared}
    → Outcome p (with_keyword x n) xs r
    → Outcome p n (x ∷ xs) r
Outcome-cons x n xs (rejected h) = rejected h
Outcome-cons x n xs (accepted a) = accepted (record {
  read = x ∷ a.read;
  split = ap (λ (l : List Specifier). x ∷ l) a.split;
  names = Names-same (λ c. with_keyword-count x n c a.read) a.names;
})

round-Outcome :
    (p : Bool) (s : State) (n : Keyword → ℕ) (x : Specifier) (xs : List Specifier)
    → Phase s n
    → ((t : State)
        → Phase t (with_keyword x n)
        → (p ≡ true → pointers t ≡ true)
        → Outcome p (with_keyword x n) xs (parse_decl_spec t xs))
    → {r : Result Round} → Stepped p (with_keyword x n) r
    → Outcome p n (x ∷ xs) (Continue s xs x r)
round-Outcome p s n x xs h rest (on {t} h' g) = Outcome-cons x n xs (rest t h' g)
round-Outcome p s n x xs h rest over = finish-Outcome p s n (x ∷ xs) h
round-Outcome p s n x xs h rest (failed d) = rejected d

loop-Outcome :
    (p : Bool) (s : State) (n : Keyword → ℕ) (xs : List Specifier)
    → Phase s n
    → (p ≡ true → pointers s ≡ true)
    → Outcome p n xs (parse_decl_spec s xs)
unfolding parse_decl_spec
loop-Outcome p s n [] h g = finish-Outcome p s n [] h
loop-Outcome p s n (x ∷ xs) h g =
    round-Outcome p s n x xs h (λ t. loop-Outcome p t (with_keyword x n) xs)
      (step-Stepped p s n h g x)

parse_decl_spec-Outcome :
    (p : Bool) (a b c : Option ℕ) (xs : List Specifier)
    → (p ≡ true → pointers (initial a b c) ≡ true)
    → Outcome p (λ _. 0) xs (parse_decl_spec (initial a b c) xs)
parse_decl_spec-Outcome p a b c xs g =
    loop-Outcome p (initial a b c) (λ _. 0) xs (nothing refl refl (λ _. refl)) g

-- What `ParseDeclSpec` accepts is a first part of the input and the rest. The keywords of the part,
-- each as often as it stands there, are those of a row of the table of the C standard, and the type declared is
-- the row's; or there is no keyword, and the type has been named in another way.
pub parse_decl_spec-Names :
    (a b c : Option ℕ) (xs : List Specifier) (d : Declared)
    → parse_decl_spec (initial a b c) xs ≡ ok d
    → (read : List Specifier) × (xs ≡ read ++ d.rest)
      × Names (λ k. count k (keywords_of read)) (get_type d.type)
parse_decl_spec-Names a b c xs d e =
    elim (rw e at (parse_decl_spec-Outcome false a b c xs (λ x. absurd (ground (arith, x))))) [
      | accepted m ↦ (m.read, m.split, Names-same (λ k. omega arith) m.names)
    ]

no_defect :
    {n : Keyword → ℕ} {xs : List Specifier} {e : SpecError}
    → Outcome true n xs (err e)
    → is_defect true e ≢ true
no_defect (rejected h) g = ground (arith, h, g)

-- With the two pointers given, `ParseDeclSpec` reads no null pointer, and the bits that it passes to
-- `ArithmeticType::Get` are always bits of a type.
pub parse_decl_spec_safe :
    (a b : ℕ) (c : Option ℕ) (xs : List Specifier)
    → (parse_decl_spec (initial (some a) (some b) c) xs ≢ err bad_type_spec)
      × (parse_decl_spec (initial (some a) (some b) c) xs ≢ err null_pointer)
parse_decl_spec_safe a b c xs =
    let out = parse_decl_spec-Outcome true (some a) (some b) c xs (λ _. refl) in
    (λ e. no_defect (rw e at out) refl, λ e. no_defect (rw e at out) refl)
