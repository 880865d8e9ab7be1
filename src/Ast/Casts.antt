-- ===== src/Ast/Casts.antt =====
-- The implicit conversions of src/ast.cpp: what they make of a typed expression.
use kcc.Ast.Expr.{
  Expr, type_of, ty_of, decay, may_cast_to, make_cast, convert, max_of, promoted, TypeError,
  assertion, decays,
}
use kcc.Ast.Kinds.{
  is_pointer, is_float_point, is_integer_or_bool, is_integer, is_arithmetic, element_type,
}
use kcc.Ast.Rules.{Typed, Coerced, converted}
use kcc.Prelude.{ℕ, ◌⊎◌, true, not, ◌&&◌, ◌≡◌, refl, ap, none, some, Option-cases, inl, inr, arith}
use kcc.Prelude.Results.{ok, err, Post, holds, fails, Post-bind, Post-if, Post-map}
use kcc.Ty.Arithmetic.{ArithmeticType, max_type, integer_promote, is_integer_ty}
use kcc.Ty.CType.{Ty, QualType, qual, get_type, may_cast}
use kcc.Ty.Equal.{equal}
use kcc.Ty.EqualLaws.{equal_refl_comm, arithmetic_equal_eq}

equal_refl : (t : Ty) → equal t t ≡ true
equal_refl t = (equal_refl_comm t t).0

-- An arithmetic type is `Equal` to itself alone.
pub equal-arithmetic :
    (t : Ty) (a : ArithmeticType) → equal t (Ty.arithmetic a) ≡ true → t ≡ Ty.arithmetic a
unfolding equal
equal-arithmetic (Ty.arithmetic b) a h = ap Ty.arithmetic (arithmetic_equal_eq b a h)
equal-arithmetic Ty.void a h = cc
equal-arithmetic _ a h = cc

-- Promotion stays among the integers, or goes there from `_Bool`.
promote-integer :
    (a c : ArithmeticType)
    → integer_promote a ≡ some c
    → is_integer_ty a ≡ true
    → is_integer_ty c ≡ true
unfolding integer_promote
promote-integer a c h i = ground (arith, h, i)

promote-integer_or_bool :
    (a c : ArithmeticType)
    → integer_promote a ≡ some c
    → is_integer_or_bool (Ty.arithmetic c) ≡ true
unfolding integer_promote
promote-integer_or_bool a c h = ground (arith, h)

max_of-cases :
    (t u : Ty)
    → ((e : TypeError) × (max_of t u ≡ err e))
      ⊎ ((a : ArithmeticType) × (max_of t u ≡ ok (Ty.arithmetic a)))
unfolding max_of
max_of-cases (Ty.arithmetic a) (Ty.arithmetic b) = elim (Option-cases (max_type a b)) [
  | inl h ↦ inl (assertion, rw h)
  | inr (c, h) ↦ inr (c, rw h)
]
max_of-cases (Ty.arithmetic a) _ = inl (assertion, refl)
max_of-cases _ _ = inl (assertion, refl)

pub promoted-cases :
    (t : Ty)
    → ((e : TypeError) × (promoted t ≡ err e))
      ⊎ ((a : ArithmeticType) × (promoted t ≡ ok (Ty.arithmetic a))
          × (is_integer t ≡ true → is_integer_ty a ≡ true)
          × (is_integer_or_bool (Ty.arithmetic a) ≡ true))
unfolding promoted
promoted-cases (Ty.arithmetic a) = elim (Option-cases (integer_promote a)) [
  | inl h ↦ inl (assertion, rw h)
  | inr (c, h) ↦ inr (c, rw h, promote-integer a c h, promote-integer_or_bool a c h)
]
promoted-cases _ = inl (assertion, refl)

-- Numbers are arithmetic.
pub number_is_arithmetic : (a : ArithmeticType) → is_arithmetic (Ty.arithmetic a) ≡ true
unfolding is_integer_ty
number_is_arithmetic a = ground arith

pub element-cases :
    (t : Ty)
    → (element_type t ≡ none) ⊎ ((e : QualType) × (element_type t ≡ some e) × (t ≡ Ty.pointer e))
element-cases (Ty.pointer e) = inr (e, refl, refl)
element-cases _ = inl refl

-- An expression that stands for another one, under conversions.
pub record Stands (e : Expr) (d : Expr) : Type 0 where
  pub coerced : Coerced e d
  pub typed : Typed d

make_cast-Stands :
    (e d : Expr) (t : QualType)
    → Stands e d
    → Post (λ c. Stands e c × (ty_of c ≡ get_type t)) (make_cast d t)
unfolding make_cast
make_cast-Stands e d t h =
    Post-if (is_float_point (get_type t) && is_pointer (ty_of d)) (λ _. fails)
      λ a.
        Post-if (is_pointer (get_type t) && is_float_point (ty_of d)) (λ _. fails)
          λ b. holds (
            record {
              coerced = converted h.coerced;
              typed = Typed.cast h.typed (ground (arith, a, b));
            },
            refl,
          )

pub decay-Stands : (e d : Expr) → Stands e d → Post (Stands e) (decay d)
unfolding decay
decay-Stands e d h =
    Post-if (decays (ty_of d))
      (λ _. Post-map (λ c g. g.0) (make_cast-Stands e d (may_cast (type_of d)) h)) (λ _. holds h)

-- `MayCastTo` gives an operand whose type is `Equal` to the one that is asked for.
pub may_cast_to-Stands :
    (e d : Expr) (t : QualType)
    → Stands e d
    → Post (λ c. Stands e c × (equal (ty_of c) (get_type t) ≡ true)) (may_cast_to d t)
unfolding may_cast_to
may_cast_to-Stands e d t h = Post-bind (decay-Stands e d h) λ c g.
    Post-if (not (equal (ty_of c) (get_type t)))
      (λ _. Post-map (λ x k. (k.0, rw k.1 (equal_refl (get_type t)))) (make_cast-Stands e c t g))
      (λ same. holds (g, ground (arith, same)))

-- For an arithmetic type that is the type itself.
pub may_cast_to-number :
    (e d : Expr) (a : ArithmeticType) (q : ℕ)
    → Stands e d
    → Post
        (λ c. Stands e c × (ty_of c ≡ Ty.arithmetic a))
        (may_cast_to d (qual (Ty.arithmetic a) q))
may_cast_to-number e d a q h =
    Post-map (λ c g. (g.0, equal-arithmetic (ty_of c) a g.1))
      (may_cast_to-Stands e d (qual (Ty.arithmetic a) q) h)

-- What `Convert` gives: the operands, which stand for `l` and `r`, converted to one arithmetic type.
pub record Converted (l r : Expr) (t u : Ty) (x : Expr × Expr × Ty) : Type 0 where
  pub number : ArithmeticType
  pub left : Stands l x.0
  pub right : Stands r x.1
  pub left_type : ty_of x.0 ≡ Ty.arithmetic number
  pub right_type : ty_of x.1 ≡ Ty.arithmetic number
  pub result_type : x.2 ≡ Ty.arithmetic number
  pub greatest : max_of t u ≡ ok (Ty.arithmetic number)

pub convert-Converted :
    (l r x y : Expr)
    → Stands l x
    → Stands r y
    → Post (Converted l r (ty_of x) (ty_of y)) (convert x y)
unfolding convert
convert-Converted l r x y hl hr = elim (max_of-cases (ty_of x) (ty_of y)) [
  | inl (e, h) ↦ rw h fails
  | inr (a, h) ↦ rw h (
      Post-bind (may_cast_to-number l x a 0 hl) λ l' gl.
        Post-bind (may_cast_to-number r y a 0 hr) λ r' gr. holds (record {
          number = a;
          left = gl.0;
          right = gr.0;
          left_type = gl.1;
          right_type = gr.1;
          result_type = refl;
          greatest = h;
        }))
]

max_type-integer_or_bool :
    (a b c : ArithmeticType)
    → is_integer_or_bool (Ty.arithmetic a) ≡ true
    → is_integer_or_bool (Ty.arithmetic b) ≡ true
    → max_type a b ≡ some c
    → is_integer_or_bool (Ty.arithmetic c) ≡ true
unfolding max_type
max_type-integer_or_bool a b c ha hb h = ground (arith, ha, hb, h)

-- The greater of two integer types is an integer type.
pub max_of-integer_or_bool :
    (t u : Ty) (c : ArithmeticType)
    → is_integer_or_bool t ≡ true
    → is_integer_or_bool u ≡ true
    → max_of t u ≡ ok (Ty.arithmetic c)
    → is_integer_or_bool (Ty.arithmetic c) ≡ true
unfolding max_of
max_of-integer_or_bool (Ty.arithmetic a) (Ty.arithmetic b) c ha hb h =
    elim (Option-cases (max_type a b)) [
      | inl e ↦ absurd (ground (arith, e, h))
      | inr (d, e) ↦ max_type-integer_or_bool a b c ha hb (ground (arith, e, h))
    ]
max_of-integer_or_bool (Ty.arithmetic a) _ c ha hb h = cc
max_of-integer_or_bool _ u c ha hb h = cc
