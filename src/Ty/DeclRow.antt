-- ===== src/Ty/DeclRow.antt =====
-- One keyword more: the masks of `ParseDeclSpec` (src/parse_decl.cpp) against the table. What is a
-- matter of finitely many rows and keywords is computed.
use kcc.Prelude.{
  In, head, tail, every, exists, every-In, exists-In, ℕ, Bool, true, false, not, ◌&&◌, ◌||◌, ◌⊎◌,
  List, [], ◌∷◌, none, some, ◌≡◌, ◌≢◌, refl, if◌then◌else◌, ◌==◌, ==_iff, arith, Option-cases,
  Bool-cases, inl, inr,
}
use kcc.Ty.Arithmetic.{ArithmeticType, arithmetic_equal, get, type_spec}
use kcc.Ty.CType.{Ty, QualType, qual}
use kcc.Ty.DeclSpec.{Keyword, State, ok, add_keyword, allowed, base_type}
use kcc.Ty.EqualLaws.{arithmetic_equal_eq}
use kcc.Ty.DeclTable.{Row, table, count, bits_of}
use kcc.Ty.Spec.{
  k_void, k_struct_union_spec, k_enum_spec, k_typedef_name, without, deal_with_type_spec,
}

abbrev all_keywords : List Keyword
all_keywords =
    Keyword.void ∷ Keyword.char ∷ Keyword.short ∷ Keyword.int ∷ Keyword.long ∷ Keyword.float
    ∷ Keyword.double ∷ Keyword.signed ∷ Keyword.unsigned ∷ Keyword.bool ∷ []

keyword-In : (k : Keyword) → In k all_keywords
keyword-In Keyword.void = head
keyword-In Keyword.char = tail head
keyword-In Keyword.short = tail (tail head)
keyword-In Keyword.int = tail (tail (tail head))
keyword-In Keyword.long = tail (tail (tail (tail head)))
keyword-In Keyword.float = tail (tail (tail (tail (tail head))))
keyword-In Keyword.double = tail (tail (tail (tail (tail (tail head)))))
keyword-In Keyword.signed = tail (tail (tail (tail (tail (tail (tail head))))))
keyword-In Keyword.unsigned = tail (tail (tail (tail (tail (tail (tail (tail head)))))))
keyword-In Keyword.bool = tail (tail (tail (tail (tail (tail (tail (tail (tail head))))))))

unfoldable pub bits : List Keyword → ℕ
unfolding add_keyword
bits ks = bits_of ks 0

-- A row has one keyword more than a list, in its bits and in its counts.
follows : Keyword → List Keyword → Row → Bool
unfolding add_keyword bits
follows k ks r =
    (add_keyword k (bits ks) == bits r.keywords)
    && every (λ c. count c (k ∷ ks) == count c r.keywords) all_keywords

next_ok : List Keyword → Keyword → Bool
unfolding follows allowed bits
next_ok ks k = if without (bits ks) (allowed k) == 0 then exists (follows k ks) table else true

-- The row that `follows` finds.
pub record Next (k : Keyword) (ks : List Keyword) : Type 0 where
  pub row : Row
  pub listed : In row table
  pub same_bits : add_keyword k (bits ks) ≡ bits row.keywords
  pub same_counts : (c : Keyword) → count c (k ∷ ks) ≡ count c row.keywords

follows-Next :
    (k : Keyword) (ks : List Keyword) (r : Row) → In r table → follows k ks r ≡ true → Next k ks
unfolding follows
follows-Next k ks r i h = record {
  row = r;
  listed = i;
  same_bits = ground (arith, h);
  same_counts = λ c.
      let e =
        every-In (λ c. count c (k ∷ ks) == count c r.keywords) all_keywords (ground (arith, h))
          (keyword-In c) in
      (==_iff (count c (k ∷ ks)) (count c r.keywords)).0 e;
}

next_ok-Next :
    (ks : List Keyword) (k : Keyword)
    → next_ok ks k ≡ true
    → (without (bits ks) (allowed k) == 0) ≡ true
    → Next k ks
unfolding next_ok
next_ok-Next ks k h e =
    let found = exists-In (follows k ks) table (ground (arith, h, e)) in
    follows-Next k ks found.0 found.1 found.2

table_closed : every (λ r. every (next_ok r.keywords) all_keywords) table ≡ true
unfolding next_ok
table_closed = refl

first_closed : every (next_ok []) all_keywords ≡ true
unfolding next_ok
first_closed = refl

-- A keyword that is allowed leads from a row to a row.
pub row-Next :
    (r : Row)
    → In r table
    → (k : Keyword) → (without (bits r.keywords) (allowed k) == 0) ≡ true
    → Next k r.keywords
row-Next r i k e =
    next_ok-Next r.keywords k
      (every-In (next_ok r.keywords) all_keywords
        (every-In (λ (r : Row). every (next_ok r.keywords) all_keywords) table table_closed i)
        (keyword-In k))
      e

none_allowed : every (λ k. without 0 (allowed k) == 0) all_keywords ≡ true
unfolding allowed
none_allowed = refl

-- Each keyword is a row.
pub first-Next : (k : Keyword) → Next k []
unfolding bits
first-Next k =
    next_ok-Next [] k (every-In (next_ok []) all_keywords first_closed (keyword-In k))
      (every-In (λ k. without 0 (allowed k) == 0) all_keywords none_allowed (keyword-In k))

-- `ArithmeticType::Get` and the switch before it, on the bits of a row.
is_type : ℕ → Ty → Bool
unfolding get deal_with_type_spec
is_type m Ty.void = m == k_void
is_type m (Ty.arithmetic a) =
    not (m == 0)
    && not (m == k_void)
    && not (m == k_struct_union_spec)
    && not (m == k_enum_spec)
    && not (m == k_typedef_name)
    && elim (get m) [ none ↦ false | some b ↦ arithmetic_equal b a ]
is_type m _ = false

table_typed : every (λ r. is_type (bits r.keywords) r.type) table ≡ true
unfolding is_type get deal_with_type_spec bits arithmetic_equal type_spec
table_typed = refl

no_type :
    (s : State) (a : ArithmeticType)
    → is_type s.type_spec (Ty.arithmetic a) ≡ true
    → get s.type_spec ≢ none
unfolding is_type
no_type s a h e = ground (arith, h, e)

found_type :
    (s : State) (a b : ArithmeticType)
    → is_type s.type_spec (Ty.arithmetic a) ≡ true
    → get s.type_spec ≡ some b
    → base_type s ≡ ok (qual (Ty.arithmetic a) 0)
unfolding is_type base_type
found_type s a b h e =
    let same : arithmetic_equal b a ≡ true = ground (arith, h, e) in
    let eq : b ≡ a = arithmetic_equal_eq b a same in ground (arith, h, e, eq)

is_type-base_type :
    (s : State) (t : Ty) → is_type s.type_spec t ≡ true → base_type s ≡ ok (qual t 0)
unfolding is_type base_type
is_type-base_type s Ty.void h = ground (arith, h)
is_type-base_type s (Ty.arithmetic a) h = elim (Option-cases (get s.type_spec)) [
  | inl e ↦ absurd (no_type s a h e)
  | inr (b, e) ↦ found_type s a b h e
]
is_type-base_type s _ h = absurd (ground (arith, h))

-- The bits of a row make the type of the row.
pub base_type_row :
    (s : State) (r : Row)
    → In r table
    → s.type_spec ≡ bits r.keywords
    → base_type s ≡ ok (qual r.type 0)
base_type_row s r i e =
    is_type-base_type s r.type
      (rw e (every-In (λ (r : Row). is_type (bits r.keywords) r.type) table table_typed i))

table_nonzero : every (λ r. not (bits r.keywords == 0)) table ≡ true
unfolding bits
table_nonzero = refl

-- A row sets some bit.
pub row_nonzero : (r : Row) → In r table → (bits r.keywords == 0) ≡ false
row_nonzero r i =
    let h = every-In (λ (r : Row). not (bits r.keywords == 0)) table table_nonzero i in
    ground (arith, h)

-- A type that `ParseDeclSpec` keeps as another function made it.
unfoldable pub is_kept : ℕ → Bool → Bool
is_kept m has_typeof =
    m == 0 && has_typeof || m == k_struct_union_spec || m == k_enum_spec || m == k_typedef_name

kept_closed :
    every
      (λ k.
        not (without k_struct_union_spec (allowed k) == 0)
        && not (without k_enum_spec (allowed k) == 0)
        && not (without k_typedef_name (allowed k) == 0))
      all_keywords
    ≡ true
unfolding allowed
kept_closed = refl

mask_cases :
    (m : ℕ)
    → (m == k_struct_union_spec || m == k_enum_spec || m == k_typedef_name) ≡ true
    → (m ≡ k_struct_union_spec) ⊎ ((m ≡ k_enum_spec) ⊎ (m ≡ k_typedef_name))
mask_cases m h = ground (arith, h)

kept_mask :
    (m : ℕ) (k : Keyword)
    → (m == k_struct_union_spec || m == k_enum_spec || m == k_typedef_name) ≡ true
    → (not (without k_struct_union_spec (allowed k) == 0)
        && not (without k_enum_spec (allowed k) == 0)
        && not (without k_typedef_name (allowed k) == 0))
      ≡ true
    → (without m (allowed k) == 0) ≢ true
kept_mask m k e c a = elim (mask_cases m e) [
  | inl x ↦ ground (arith, rw x at a, c)
  | inr (inl x) ↦ ground (arith, rw x at a, c)
  | inr (inr x) ↦ ground (arith, rw x at a, c)
]

-- No keyword is allowed behind a type that is kept, but the one that `TYPEOF_CHECK` refuses.
pub kept_keyword :
    (m : ℕ) (h : Bool) (k : Keyword)
    → is_kept m h ≡ true
    → (without m (allowed k) == 0) ≡ true
    → h ≡ true
unfolding is_kept
kept_keyword m h k e a =
    let c =
      every-In
        (λ k.
          not (without k_struct_union_spec (allowed k) == 0)
          && not (without k_enum_spec (allowed k) == 0)
          && not (without k_typedef_name (allowed k) == 0))
        all_keywords kept_closed (keyword-In k) in
    elim (Bool-cases h) [ inl x ↦ x | inr x ↦ absurd (kept_mask m k (ground (arith, e, x)) c a) ]

-- The switch behind the loop, on a type that is kept.
pub base_type_kept :
    (s : State) (t : QualType)
    → is_kept s.type_spec s.has_typeof ≡ true
    → s.ty ≡ some t
    → base_type s ≡ ok t
unfolding is_kept base_type
base_type_kept s t h e = ground (arith, h, e)
