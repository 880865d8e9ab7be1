-- ===== src/Parse/IntegerLaws.antt =====
-- `ParseInteger` of src/parse_expr.cpp and the table of the C standard.
use kcc.Ast.Expr.{constant, make_constant}
use kcc.Parse.Integer.{
  parse_suffix, decimal_type, other_type, binary_digits, is_decimal, read_value, parse_integer,
}
use kcc.Parse.IntegerTable.{
  Suffix, no_suffix, u, l, ul, ll, ull, spellings, candidates, constant_type, first_fit, bound,
}
use kcc.Prelude.{
  ℕ, Bool, true, false, ◌≡◌, refl, sym, [], ◌∷◌, ltb, ◌<◌, inl, inr, Bool-cases, ◌==◌, ==_iff, List,
  Option, none, some, Bytes, bit_or, if◌then◌else◌, In, every, every-In, arith, ap,
}
use kcc.Prelude.Results.{ok}
use kcc.Ty.Arithmetic.{ArithmeticType, get, type_spec, arithmetic_width}
use kcc.Ty.Spec.{k_unsigned, k_long, k_long_long}

-- The mask of a suffix.
abbrev mask : Suffix → ℕ
mask no_suffix = 0
mask u = k_unsigned
mask l = k_long
mask ul = bit_or k_unsigned k_long
mask ll = k_long_long
mask ull = bit_or k_unsigned k_long_long

abbrev is_mask : ℕ → Option ℕ → Bool
is_mask n none = false
is_mask n (some m) = m == n

is_mask_eq : (n : ℕ) (o : Option ℕ) → is_mask n o ≡ true → o ≡ some n
is_mask_eq n none h = cc
is_mask_eq n (some m) h = ap some ((==_iff m n).0 h)

all_spellings :
    (s : Suffix) → every (λ t. is_mask (mask s) (parse_suffix t false 0)) (spellings s) ≡ true
unfolding parse_suffix
all_spellings no_suffix = refl
all_spellings u = refl
all_spellings l = refl
all_spellings ul = refl
all_spellings ll = refl
all_spellings ull = refl

-- Each spelling of a suffix is read as its mask.
spelled : (s : Suffix) (t : Bytes) → In t (spellings s) → parse_suffix t false 0 ≡ some (mask s)
spelled s t i =
    is_mask_eq (mask s) (parse_suffix t false 0) (every-In _ (spellings s) (all_spellings s) i)

-- The mask that is chosen is that of the standard's type.
chosen :
    (d : Bool) (s : Suffix) (v : ℕ) (t : ArithmeticType)
    → constant_type d s v ≡ some t
    → (if d then decimal_type (mask s) v else other_type (mask s) v) ≡ type_spec t
unfolding type_spec decimal_type other_type
chosen true no_suffix v t h = ground (arith, h)
chosen true u v t h = ground (arith, h)
chosen true l v t h = ground (arith, h)
chosen true ul v t h = ground (arith, h)
chosen true ll v t h = ground (arith, h)
chosen true ull v t h = ground (arith, h)
chosen false no_suffix v t h = ground (arith, h)
chosen false u v t h = ground (arith, h)
chosen false l v t h = ground (arith, h)
chosen false ul v t h = ground (arith, h)
chosen false ll v t h = ground (arith, h)
chosen false ull v t h = ground (arith, h)

get-type_spec : (t : ArithmeticType) → get (type_spec t) ≡ some t
unfolding get type_spec
get-type_spec t = ground arith

some_injective : {t u : ArithmeticType} → some t ≡ some u → t ≡ u
some_injective h = cc

first_fit-fits :
    (ts : List ArithmeticType) (v : ℕ) (t : ArithmeticType) → first_fit ts v ≡ some t → v < bound t
first_fit-fits [] v t h = absurd cc
first_fit-fits (c ∷ ts) v t h = elim (Bool-cases (ltb v (bound c))) [
  | inl e ↦ rw (sym (some_injective (rw e at h))) (ground (arith, e))
  | inr e ↦ first_fit-fits ts v t (rw e at h)
]

-- A value that fits is kept by its type.
kept : (t : ArithmeticType) (v : ℕ) → v < bound t → make_constant t v ≡ constant t v
unfolding make_constant arithmetic_width
kept ArithmeticType.int v h = ap (constant ArithmeticType.int) (omega (arith, h))
kept ArithmeticType.uint v h = ap (constant ArithmeticType.uint) (omega (arith, h))
kept ArithmeticType.long v h = ap (constant ArithmeticType.long) (omega (arith, h))
kept ArithmeticType.ulong v h = ap (constant ArithmeticType.ulong) (omega (arith, h))
kept ArithmeticType.long_long v h = ap (constant ArithmeticType.long_long) (omega (arith, h))
kept ArithmeticType.ulong_long v h = ap (constant ArithmeticType.ulong_long) (omega (arith, h))
kept _ v h = absurd (omega (arith, h))

-- When `stoull` reads from the text, with base 2 behind `0b`, a value and leaves a suffix of the
-- standard, and the standard's table has a type for them and for the kind of constant, then
-- `ParseInteger` makes the constant of that type and that value.
pub parse_integer-table :
    (stoull : ℕ → Bytes → Option (ℕ × Bytes)) (str rest : Bytes) (v : ℕ) (s : Suffix)
    (t : ArithmeticType)
    → read_value stoull str (binary_digits str) ≡ some (v, rest)
    → In rest (spellings s)
    → constant_type (is_decimal str) s v ≡ some t
    → parse_integer stoull str ≡ ok (constant t v)
unfolding parse_integer
parse_integer-table stoull str rest v s t r i c =
    rw (r, spelled s rest i, chosen (is_decimal str) s v t c, get-type_spec t)
      (ap ok (kept t v (first_fit-fits (candidates (is_decimal str) s) v t c)))
