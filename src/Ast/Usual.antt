-- ===== src/Ast/Usual.antt =====
-- `BinaryOpExpr` of src/ast.cpp on two numbers: the operators whose operands take the type of the
-- usual arithmetic conversions.
use kcc.Ast.Binary.{
  make_binary, binary_check, add_op_check, sub_op_check, multi_op_check, converted,
  compared_numbers, equality_op_check, is_percent,
}
use kcc.Ast.Casts.{number_is_arithmetic}
use kcc.Ast.Expr.{
  Expr, binary, cast, ty_of, decay, may_cast_to, make_cast, convert, max_of, TypeError,
}
use kcc.Ast.Rules.{arithmetic_op, equality_op}
use kcc.Prelude.{
  true, false, not, ◌≡◌, refl, ◌⊎◌, inl, inr, ◌∙◌, Option, some, none, if◌then◌else◌, inl, inr,
  arith,
}
use kcc.Prelude.Results.{Result, ok}
use kcc.Token.{Tag}
use kcc.Ty.Arithmetic.{ArithmeticType, max_type}
use kcc.Ty.Conversion.{Kind, usual, kind, is_bool_with_float, max_type-usual, kind_of_result}
use kcc.Ty.CType.{Ty, qual}
use kcc.Ty.Equal.{equal}

-- An operand converted to the type `a`, in a cast if its type is another one.
abbrev pub coerce : Expr → ArithmeticType → Expr
coerce e a =
    if not (equal (ty_of e) (Ty.arithmetic a)) then cast e (qual (Ty.arithmetic a) 0) else e

abbrev pub Number : Expr → ArithmeticType → Type 0
Number e a = ty_of e ≡ Ty.arithmetic a

decay_number : (e : Expr) (a : ArithmeticType) → Number e a → decay e ≡ ok e
unfolding decay
decay_number e a h = rw h refl

may_cast_to_number :
    (e : Expr) (a c : ArithmeticType)
    → Number e a
    → may_cast_to e (qual (Ty.arithmetic c) 0) ≡ ok (coerce e c)
unfolding may_cast_to make_cast
may_cast_to_number e a c h = rw (decay_number e a h, h) (ground arith)

known :
    (a b : ArithmeticType)
    → is_bool_with_float a b ≡ false
    → kind_of_result (max_type a b) ≡ some (usual a b)
known a b h = max_type-usual a b ∙ (rw h refl)

result_of :
    (o : Option ArithmeticType) (k : Kind)
    → kind_of_result o ≡ some k
    → (c : ArithmeticType) × (o ≡ some c) × (kind c ≡ k)
unfolding kind_of_result
result_of none k h = cc
result_of (some c) k h = (c, refl, cc)

-- The type of the usual arithmetic conversions is found.
max_of_numbers :
    (a b : ArithmeticType)
    → is_bool_with_float a b ≡ false
    → (c : ArithmeticType) × (max_of (Ty.arithmetic a) (Ty.arithmetic b) ≡ ok (Ty.arithmetic c))
      × (kind c ≡ usual a b)
unfolding max_of
max_of_numbers a b h =
    let (c, p, q) = result_of (max_type a b) (usual a b) (known a b h) in (c, rw p refl, q)

-- `Usually op t l r e`: the node `e` has the operands `l` and `r`, converted to one type of the kind
-- `k`, and the result type that `t` gives for it.
abbrev pub Usually :
    (ArithmeticType → ArithmeticType) → Tag → Kind → Expr → Expr → Result TypeError Expr → Type 0
Usually t op k l r e =
    (c : ArithmeticType) × (kind c ≡ k)
    × (e ≡ ok (binary op (coerce l c) (coerce r c) (qual (Ty.arithmetic (t c)) 0)))

-- The result type, from the type of the converted operands.
abbrev pub result_of_op : Tag → ArithmeticType → ArithmeticType
result_of_op Tag.equal_equal c = ArithmeticType.int
result_of_op Tag.exclaim_equal c = ArithmeticType.int
result_of_op _ c = c

result_of_equality :
    (op : Tag) → equality_op op ≡ true → result_of_op op ≡ (λ c. ArithmeticType.int)
result_of_equality Tag.equal_equal o = refl
result_of_equality Tag.exclaim_equal o = refl
result_of_equality _ o = cc

result_of_arithmetic : (op : Tag) → arithmetic_op op ≡ true → result_of_op op ≡ (λ c. c)
result_of_arithmetic Tag.plus o = refl
result_of_arithmetic Tag.minus o = refl
result_of_arithmetic Tag.star o = refl
result_of_arithmetic Tag.slash o = refl
result_of_arithmetic _ o = cc

module _ (a b : ArithmeticType) (l r : Expr) (hl : Number l a) (hr : Number r b)
    (h : is_bool_with_float a b ≡ false) where
  max_of_types :
      (c : ArithmeticType)
      → max_of (Ty.arithmetic a) (Ty.arithmetic b) ≡ ok (Ty.arithmetic c)
      → max_of (ty_of l) (ty_of r) ≡ ok (Ty.arithmetic c)
  max_of_types c p = rw (hl, hr) p

  converts :
      (c : ArithmeticType)
      → max_of (Ty.arithmetic a) (Ty.arithmetic b) ≡ ok (Ty.arithmetic c)
      → convert l r ≡ ok (coerce l c, coerce r c, Ty.arithmetic c)
  unfolding convert
  converts c p =
      rw (max_of_types c p, may_cast_to_number l a c hl, may_cast_to_number r b c hr) refl

  converted-Usually : (op : Tag) → Usually (λ c. c) op (usual a b) l r (converted op l r)
  unfolding converted
  converted-Usually op = let (c, p, q) = max_of_numbers a b h in (c, q, rw (converts c p) refl)

  compared-Usually :
      (op : Tag) → Usually (λ c. ArithmeticType.int) op (usual a b) l r (compared_numbers op l r)
  unfolding compared_numbers
  compared-Usually op = let (c, p, q) = max_of_numbers a b h in (c, q, rw (converts c p) refl)

  add-converted : (op : Tag) → add_op_check op l r ≡ converted op l r
  unfolding add_op_check
  add-converted op = rw (hl, hr, number_is_arithmetic a, number_is_arithmetic b) refl

  sub-converted : (op : Tag) → sub_op_check op l r ≡ converted op l r
  unfolding sub_op_check
  sub-converted op = rw (hl, hr, number_is_arithmetic a, number_is_arithmetic b) refl

  multi-converted : (op : Tag) → is_percent op ≡ false → multi_op_check op l r ≡ converted op l r
  unfolding multi_op_check
  multi-converted op n = rw (n, hl, hr, number_is_arithmetic a, number_is_arithmetic b) refl

  equality-compared : (op : Tag) → equality_op_check op l r ≡ compared_numbers op l r
  unfolding equality_op_check
  equality-compared op = rw (hl, hr, number_is_arithmetic a, number_is_arithmetic b) refl

  make-converted : (op : Tag) → arithmetic_op op ≡ true → make_binary op l r ≡ converted op l r
  unfolding make_binary binary_check
  make-converted Tag.plus o = rw (decay_number l a hl, decay_number r b hr) (add-converted Tag.plus)
  make-converted Tag.minus o =
      rw (decay_number l a hl, decay_number r b hr) (sub-converted Tag.minus)
  make-converted Tag.star o =
      rw (decay_number l a hl, decay_number r b hr) (multi-converted Tag.star refl)
  make-converted Tag.slash o =
      rw (decay_number l a hl, decay_number r b hr) (multi-converted Tag.slash refl)
  make-converted _ o = cc

  make-compared : (op : Tag) → equality_op op ≡ true → make_binary op l r ≡ compared_numbers op l r
  unfolding make_binary binary_check
  make-compared Tag.equal_equal o =
      rw (decay_number l a hl, decay_number r b hr) (equality-compared Tag.equal_equal)
  make-compared Tag.exclaim_equal o =
      rw (decay_number l a hl, decay_number r b hr) (equality-compared Tag.exclaim_equal)
  make-compared _ o = cc

  make-Usually :
      (op : Tag)
      → (arithmetic_op op ≡ true) ⊎ (equality_op op ≡ true)
      → Usually (result_of_op op) op (usual a b) l r (make_binary op l r)
  make-Usually op (inl o) =
      rw (result_of_arithmetic op o, make-converted op o) (converted-Usually op)
  make-Usually op (inr o) = rw (result_of_equality op o, make-compared op o) (compared-Usually op)

-- A binary `+`, `-`, `*`, `/`, `==` or `!=` of two numbers succeeds, but for `_Bool` with a floating
-- type: both operands are converted to the type of the usual arithmetic conversions, which is also
-- the result type of the first four, while the comparisons give `int`.
pub make_binary-usual :
    (op : Tag) (a b : ArithmeticType) (l r : Expr)
    → (arithmetic_op op ≡ true) ⊎ (equality_op op ≡ true)
    → Number l a
    → Number r b
    → is_bool_with_float a b ≡ false
    → Usually (result_of_op op) op (usual a b) l r (make_binary op l r)
make_binary-usual op a b l r o hl hr h = make-Usually a b l r hl hr h op o
