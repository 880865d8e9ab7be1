-- ===== src/Ty/DeclPhase.antt =====
-- The loop of `ParseDeclSpec` (src/parse_decl.cpp): what its variables hold after each specifier.
use kcc.Prelude.{
  In, ℕ, ◌+◌, Bool, true, false, not, ◌&&◌, [], ◌∷◌, Option, none, some, ◌≡◌, refl, sym, ◌∙◌,
  if◌then◌else◌, ◌==◌, arith, Option-cases, inl, inr, bit_or,
}
use kcc.Ty.CType.{Ty, QualType, qual}
use kcc.Ty.DeclRow.{bits, row-Next, first-Next, row_nonzero, is_kept, kept_keyword}
use kcc.Ty.DeclSpec.{
  Keyword, Specifier, keyword, typeof, struct_union, enum, alignas, type_name, State, Result, ok,
  err, SpecError, null_pointer, bad_type_spec, Round, more, finish, add_keyword, allowed, step,
  go_on, step_keyword, step_storage, step_function, step_tagged, step_alignas, named_type,
}
use kcc.Ty.DeclTable.{Row, table, count}
use kcc.Ty.Spec.{without, k_struct_union_spec, k_enum_spec, k_typedef_name}

-- The state behind some keywords: no type yet, a type that another function made, or a row of the
-- table.
pub data Phase (s : State) (n : Keyword → ℕ) : Type 0 where
  nothing : s.type_spec ≡ 0 → s.has_typeof ≡ false → ((c : Keyword) → n c ≡ 0) → Phase s n
  named :
      (t : QualType)
      → s.ty ≡ some t
      → is_kept s.type_spec s.has_typeof ≡ true
      → ((c : Keyword) → n c ≡ 0)
      → Phase s n
  listed :
      (r : Row)
      → In r table
      → s.type_spec ≡ bits r.keywords
      → ((c : Keyword) → n c ≡ count c r.keywords)
      → Phase s n

abbrev is_given : Option ℕ → Bool
is_given none = false
is_given (some n) = true

-- Neither of the two pointers that the loop reads untested is null.
abbrev pub pointers : State → Bool
pointers s = is_given s.storage_class_spec && is_given s.func_spec

-- What `ParseDeclSpec` must not do: fail in `ArithmeticType::Get`, or read a null pointer.
abbrev pub is_defect : Bool → SpecError → Bool
is_defect p null_pointer = p
is_defect p bad_type_spec = true
is_defect p _ = false

-- One keyword more, or none.
abbrev pub with_keyword : Specifier → (Keyword → ℕ) → Keyword → ℕ
with_keyword (keyword k) n c = count c (k ∷ []) + n c
with_keyword _ n c = n c

module _ (p : Bool) (n : Keyword → ℕ) where
  -- What a case of the switch leaves.
  data Left : Result State → Type 0 where
    left : {t : State} → Phase t n → (p ≡ true → pointers t ≡ true) → Left (ok t)
    refused : {e : SpecError} → is_defect p e ≡ false → Left (err e)

  pub data Stepped : Result Round → Type 0 where
    on : {t : State} → Phase t n → (p ≡ true → pointers t ≡ true) → Stepped (ok (more t))
    over : Stepped (ok finish)
    failed : {e : SpecError} → is_defect p e ≡ false → Stepped (err e)

  Left-go_on : {r : Result State} → Left r → Stepped (go_on r)
  Left-go_on (left h g) = on h g
  Left-go_on (refused h) = failed h

  Left-if :
      (b : Bool) {x y : Result State}
      → (b ≡ true → Left x)
      → (b ≡ false → Left y)
      → Left (if b then x else y)
  Left-if true f g = f refl
  Left-if false f g = g refl

  Stepped-if :
      (b : Bool) {x y : Result Round}
      → (b ≡ true → Stepped x)
      → (b ≡ false → Stepped y)
      → Stepped (if b then x else y)
  Stepped-if true f g = f refl
  Stepped-if false f g = g refl

-- The variables that a phase reads.
Phase-same :
    {s t : State} {n : Keyword → ℕ}
    → s.type_spec ≡ t.type_spec
    → s.has_typeof ≡ t.has_typeof
    → s.ty ≡ t.ty
    → Phase s n
    → Phase t n
Phase-same a b c (nothing h g z) = nothing (sym a ∙ h) (sym b ∙ g) z
Phase-same {s} {t} a b c (named q h g z) = named q (sym c ∙ h) (rw (a, b) at g) z
Phase-same a b c (listed r i h z) = listed r i (sym a ∙ h) z

-- While no bit is set, no keyword has been read.
no_keyword :
    {s : State} {n : Keyword → ℕ} → Phase s n → (s.type_spec == 0) ≡ true → (c : Keyword) → n c ≡ 0
no_keyword (nothing h g z) e = z
no_keyword (named q h g z) e = z
no_keyword (listed r i h z) e = absurd (ground (arith, rw h at e, row_nonzero r i))

-- A keyword that is allowed leads to a row.
keyword-Phase :
    (k : Keyword) (s : State) (n : Keyword → ℕ)
    → Phase s n
    → (without s.type_spec (allowed k) == 0) ≡ true
    → s.has_typeof ≡ false
    → Phase (record s { type_spec = add_keyword k s.type_spec }) (with_keyword (keyword k) n)
unfolding bits
keyword-Phase k s n (nothing h g z) a f =
    let m = first-Next k in
    listed m.row m.listed (rw h m.same_bits) (λ c. omega (arith, z c, m.same_counts c))
keyword-Phase k s n (named q h g z) a f =
    absurd (ground (arith, f, kept_keyword s.type_spec s.has_typeof k g a))
keyword-Phase k s n (listed r i h z) a f =
    let m = row-Next r i k (rw h at a) in
    listed m.row m.listed (rw h m.same_bits) (λ c. omega (arith, z c, m.same_counts c))

module _ (p : Bool) (s : State) (n : Keyword → ℕ) (h : Phase s n)
    (g : p ≡ true → pointers s ≡ true) where
  keyword-Left : (k : Keyword) → Left p (with_keyword (keyword k) n) (step_keyword k s)
  unfolding step_keyword
  keyword-Left k =
      Left-if p (with_keyword (keyword k) n) (not (without s.type_spec (allowed k) == 0))
        (λ _. refused refl)
        (λ a.
          Left-if p (with_keyword (keyword k) n) s.has_typeof (λ _. refused refl)
            (λ f. left (keyword-Phase k s n h (ground (arith, a)) f) g))

  no_pointer : s.storage_class_spec ≡ none → is_defect p null_pointer ≡ false
  no_pointer e = ground (arith, e, rw e at g)

  no_pointer' : s.func_spec ≡ none → is_defect p null_pointer ≡ false
  no_pointer' e = ground (arith, e, rw e at g)

  storage-Left : (spec : ℕ) → Left p n (step_storage spec s s.storage_class_spec)
  unfolding step_storage
  storage-Left spec = elim (Option-cases s.storage_class_spec) [
    | inl e ↦ rw e (refused (no_pointer e))
    | inr (old, e) ↦ rw e (
        Left-if p n (not (old == 0)) (λ _. refused refl)
          (λ _. left (Phase-same refl refl refl h) (λ q. rw e at (g q))))
  ]

  function-Left : (spec : ℕ) → Left p n (step_function spec s s.func_spec)
  unfolding step_function
  function-Left spec = elim (Option-cases s.func_spec) [
    | inl e ↦ rw e (refused (no_pointer' e))
    | inr (old, e) ↦ rw e (left (Phase-same refl refl refl h) (λ q. rw e at (g q)))
  ]

  alignas-Left : (m : ℕ) → Left p n (step_alignas m s s.align)
  unfolding step_alignas
  alignas-Left m = elim (Option-cases s.align) [
    | inl e ↦ rw e (refused refl)
    | inr (old, e) ↦ rw e (left (Phase-same refl refl refl h) g)
  ]

  tagged-Left :
      (spec : ℕ) (t : Ty)
      → ((b : Bool) → is_kept (bit_or 0 spec) b ≡ true)
      → Left p n (step_tagged spec t s)
  unfolding step_tagged
  tagged-Left spec t k =
      Left-if p n (not (s.type_spec == 0)) (λ _. refused refl)
        λ a.
          Left-if p n s.has_typeof (λ _. refused refl)
            λ f.
              let zero_bits : s.type_spec ≡ 0 = ground (arith, a) in
              left
                (named (qual t 0) refl (rw zero_bits (k s.has_typeof))
                  (no_keyword h (ground (arith, a))))
                g

  named_kept :
      (s.type_spec == 0) ≡ true → is_kept (bit_or s.type_spec k_typedef_name) s.has_typeof ≡ true
  unfolding is_kept
  named_kept a = let zero_bits : s.type_spec ≡ 0 = ground (arith, a) in rw zero_bits (ground arith)

  -- One round of the loop.
  pub step-Stepped : (x : Specifier) → Stepped p (with_keyword x n) (step x s)
  unfolding step is_kept
  step-Stepped Specifier.extension = on h g
  step-Stepped (typeof t) =
      Stepped-if p n (not (s.type_spec == 0)) (λ _. failed refl)
        λ a. on (named t refl (ground (arith, a)) (no_keyword h (ground (arith, a)))) g
  step-Stepped Specifier.typedef = Left-go_on p n (storage-Left 0x1)
  step-Stepped Specifier.extern = Left-go_on p n (storage-Left 0x2)
  step-Stepped Specifier.static = Left-go_on p n (storage-Left 0x4)
  step-Stepped Specifier.auto = Left-go_on p n (storage-Left 0x10)
  step-Stepped Specifier.register = Left-go_on p n (storage-Left 0x20)
  step-Stepped Specifier.thread_local = failed refl
  step-Stepped (keyword k) = Left-go_on p (with_keyword (keyword k) n) (keyword-Left k)
  step-Stepped (struct_union t) =
      Left-go_on p n (tagged-Left k_struct_union_spec t (λ b. ground arith))
  step-Stepped (enum t) = Left-go_on p n (tagged-Left k_enum_spec t (λ b. ground arith))
  step-Stepped Specifier.complex = Stepped-if p n s.has_typeof (λ _. failed refl) (λ _. failed refl)
  step-Stepped Specifier.atomic = Stepped-if p n s.has_typeof (λ _. failed refl) (λ _. failed refl)
  step-Stepped Specifier.const = on (Phase-same refl refl refl h) g
  step-Stepped Specifier.restrict = on (Phase-same refl refl refl h) g
  step-Stepped Specifier.volatile = on (Phase-same refl refl refl h) g
  step-Stepped Specifier.inline = Left-go_on p n (function-Left 0x1)
  step-Stepped Specifier.noreturn = Left-go_on p n (function-Left 0x2)
  step-Stepped (alignas m) = Left-go_on p n (alignas-Left m)
  step-Stepped (type_name t) =
      Stepped-if p n (s.type_spec == 0)
        (λ a. on (named (named_type t) refl (named_kept a) (no_keyword h a)) g) (λ _. over)
  step-Stepped Specifier.other = over
