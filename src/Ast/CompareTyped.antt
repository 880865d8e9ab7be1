-- ===== src/Ast/CompareTyped.antt =====
-- Comparisons follow the rules, and so does `BinaryOpExpr` as a whole.
use kcc.Ast.Binary.{
  make_binary, binary_check, ensure_compatible_convert_void_ptr, compared_pointers,
  compared_numbers, compared_with_zero, equality_op_check, relational_op_check,
}
use kcc.Ast.Casts.{Stands, decay-Stands, may_cast_to-Stands, convert-Converted, element-cases}
use kcc.Ast.Expr.{Expr, type_of, ty_of, is_zero, may_cast_to}
use kcc.Ast.Kinds.{is_void, is_real, is_pointer, is_arithmetic, is_integer}
use kcc.Ast.Rules.{Typed, unchanged, BinaryRule, last_operand, comparison_op}
use kcc.Prelude.{true, not, ◌&&◌, ◌≡◌, refl, if◌then◌else◌, inl, inr, arith}
use kcc.Prelude.Results.{ok, ◌>>=◌, Post, holds, fails, Post-bind, Post-if, Post-map}
use kcc.Token.{Tag}
use kcc.Ty.CType.{Ty, QualType, qual, get_type}
use kcc.Ty.Equal.{equal, compatible}
use kcc.Ty.EqualLaws.{equal_refl_comm, equal-compatible}
use kcc.Ast.BinaryTyped.{
  MakesBinary, in_order, exchanged, made, no_assignment, ensure_compatible-Post, assign-Makes,
  add-Makes, sub-Makes, multi-Makes, bitwise-Makes, shift-Makes, logical-Makes,
}

-- A type that is `Equal` to a pointer type is a pointer type.
pub equal-is_pointer : (t u : Ty) → equal t u ≡ true → is_pointer u ≡ true → is_pointer t ≡ true
unfolding equal
equal-is_pointer (Ty.pointer a) (Ty.pointer b) e h = refl
equal-is_pointer Ty.void (Ty.pointer b) e h = cc
equal-is_pointer _ (Ty.pointer b) e h = cc
equal-is_pointer t Ty.void e h = cc
equal-is_pointer t _ e h = cc

pointer_of_element : (t : Ty) (e : QualType) → t ≡ Ty.pointer e → is_pointer t ≡ true
pointer_of_element t e h = rw h

-- Compatible with what is `Equal` to it.
zero_rule : (t u : Ty) → equal u t ≡ true → compatible t u ≡ true
zero_rule t u h = equal-compatible t u (rw (equal_refl_comm t u).1 h)

-- The operands of a comparison of pointers.
record Pointers (l r : Expr) (x : Expr × Expr) : Type 0 where
  left : Stands l x.0
  right : Stands r x.1
  left_pointer : is_pointer (ty_of x.0) ≡ true
  same : compatible (ty_of x.0) (ty_of x.1) ≡ true

module _ (op : Tag) (l r x y : Expr) (hl : Stands l x) (hr : Stands r y) where
  -- The operands once the pointer to void, if there is one, is converted.
  abbrev Both : Expr × Expr → Type 0
  Both p = Stands l p.0 × Stands r p.1 × (is_pointer (ty_of p.0) ≡ true)

  Pointers-Post :
      is_pointer (ty_of x) ≡ true
      → is_pointer (ty_of y) ≡ true
      → Post (Pointers l r) (ensure_compatible_convert_void_ptr x y)
  unfolding ensure_compatible_convert_void_ptr
  Pointers-Post px py = elim (element-cases (ty_of x)) [
    | inl p ↦ rw p fails
    | inr (a, p, _) ↦ rw p (elim (element-cases (ty_of y)) [
      | inl q ↦ rw q fails
      | inr (b, q, _) ↦ rw q (
          Post-bind (chosen a b) λ c g.
            Post-bind (ensure_compatible-Post (ty_of c.0) (ty_of c.1))
              λ _ k. holds (record { left = g.0; right = g.1; left_pointer = g.2; same = k }))
    ])
  ]
    where
      chosen :
          (a b : QualType)
          → Post Both (
              if is_void (get_type a)
              then (may_cast_to x (type_of y) >>= λ x'. ok (x', y))
              else if is_void (get_type b)
              then (may_cast_to y (type_of x) >>= λ y'. ok (x, y'))
              else ok (x, y))
      chosen a b =
          Post-if (is_void (get_type a))
            (λ _.
              Post-bind (may_cast_to-Stands l x (type_of y) hl)
                λ c g. holds (g.0, hr, equal-is_pointer (ty_of c) (ty_of y) g.1 py))
            λ _.
              Post-if (is_void (get_type b))
                (λ _. Post-bind (may_cast_to-Stands r y (type_of x) hr) λ c g. holds (hl, g.0, px))
                (λ _. holds (hl, hr, px))

  pointers-Makes :
      comparison_op op ≡ true
      → is_pointer (ty_of x) ≡ true
      → is_pointer (ty_of y) ≡ true
      → Post (MakesBinary op l r) (compared_pointers op x y)
  unfolding compared_pointers
  pointers-Makes o px py = Post-bind (Pointers-Post px py) λ c g. holds (
      made g.left g.right (no_assignment c.0 (ground (arith, o)))
        (BinaryRule.compared_pointers o g.left_pointer g.same))

  numbers-Makes : comparison_op op ≡ true → Post (MakesBinary op l r) (compared_numbers op x y)
  unfolding compared_numbers
  numbers-Makes o = Post-bind (convert-Converted l r x y hl hr) λ c g. holds (
      made g.left g.right (no_assignment c.0 (ground (arith, o)))
        (rw (g.left_type, g.right_type) (BinaryRule.compared_numbers o)))

  zero-Makes :
      comparison_op op ≡ true
      → is_pointer (ty_of x) ≡ true
      → Post (MakesBinary op l r) (compared_with_zero op x y)
  unfolding compared_with_zero
  zero-Makes o px =
      Post-if (not (is_zero y)) (λ _. fails)
        λ _. Post-bind (may_cast_to-Stands r y (qual (ty_of x) 0) hr) λ c g. holds (
          made hl g.0 (no_assignment x (ground (arith, o)))
            (BinaryRule.compared_pointers o px (zero_rule (ty_of x) (ty_of c) g.1)))

  relational-Makes :
      comparison_op op ≡ true → Post (MakesBinary op l r) (relational_op_check op x y)
  unfolding relational_op_check
  relational-Makes o =
      Post-if (is_pointer (ty_of x) && is_pointer (ty_of y))
        (λ a. pointers-Makes o (ground (arith, a)) (ground (arith, a)))
        λ _. Post-if (is_real (ty_of x) && is_real (ty_of y)) (λ _. numbers-Makes o) λ _. fails

MakesBinary-swap : {op : Tag} {l r e : Expr} → MakesBinary op l r e → MakesBinary op r l e
MakesBinary-swap (in_order a b h) = exchanged b a h
MakesBinary-swap (exchanged a b h) = in_order b a h

equality-Makes :
    (op : Tag) (l r x y : Expr)
    → Stands l x
    → Stands r y
    → comparison_op op ≡ true
    → Post (MakesBinary op l r) (equality_op_check op x y)
unfolding equality_op_check
equality-Makes op l r x y hl hr o =
    Post-if (is_pointer (ty_of x) && is_pointer (ty_of y))
      (λ a. pointers-Makes op l r x y hl hr o (ground (arith, a)) (ground (arith, a)))
      λ _.
        Post-if (is_arithmetic (ty_of x) && is_arithmetic (ty_of y))
          (λ _. numbers-Makes op l r x y hl hr o)
          λ _.
            Post-if (is_pointer (ty_of x) && is_integer (ty_of y))
              (λ a. zero-Makes op l r x y hl hr o (ground (arith, a)))
              λ _.
                Post-if (is_integer (ty_of x) && is_pointer (ty_of y))
                  (λ a.
                    Post-map (λ e h. MakesBinary-swap h)
                      (zero-Makes op r l y x hr hl o (ground (arith, a))))
                  (λ _. fails)

binary_check-Makes :
    (op : Tag) (l r x y : Expr)
    → Stands l x
    → Stands r y
    → Post (MakesBinary op l r) (binary_check op x y)
unfolding binary_check
binary_check-Makes Tag.equal l r x y a b = assign-Makes Tag.equal l r x y a b refl
binary_check-Makes Tag.plus l r x y a b = add-Makes Tag.plus l r x y a b refl
binary_check-Makes Tag.minus l r x y a b = sub-Makes Tag.minus l r x y a b refl
binary_check-Makes Tag.star l r x y a b = multi-Makes Tag.star l r x y a b refl
binary_check-Makes Tag.percent l r x y a b = multi-Makes Tag.percent l r x y a b refl
binary_check-Makes Tag.slash l r x y a b = multi-Makes Tag.slash l r x y a b refl
binary_check-Makes Tag.amp l r x y a b = bitwise-Makes Tag.amp l r x y a b refl
binary_check-Makes Tag.pipe l r x y a b = bitwise-Makes Tag.pipe l r x y a b refl
binary_check-Makes Tag.caret l r x y a b = bitwise-Makes Tag.caret l r x y a b refl
binary_check-Makes Tag.less_less l r x y a b = shift-Makes Tag.less_less l r x y a b refl
binary_check-Makes Tag.greater_greater l r x y a b =
    shift-Makes Tag.greater_greater l r x y a b refl
binary_check-Makes Tag.amp_amp l r x y a b = logical-Makes Tag.amp_amp l r x y a b refl
binary_check-Makes Tag.pipe_pipe l r x y a b = logical-Makes Tag.pipe_pipe l r x y a b refl
binary_check-Makes Tag.exclaim_equal l r x y a b = equality-Makes Tag.exclaim_equal l r x y a b refl
binary_check-Makes Tag.equal_equal l r x y a b = equality-Makes Tag.equal_equal l r x y a b refl
binary_check-Makes Tag.less l r x y a b = relational-Makes Tag.less l r x y a b refl
binary_check-Makes Tag.less_equal l r x y a b = relational-Makes Tag.less_equal l r x y a b refl
binary_check-Makes Tag.greater l r x y a b = relational-Makes Tag.greater l r x y a b refl
binary_check-Makes Tag.greater_equal l r x y a b =
    relational-Makes Tag.greater_equal l r x y a b refl
binary_check-Makes Tag.period l r x y a b = holds (made a b (λ e. cc) (last_operand (inl refl)))
binary_check-Makes Tag.comma l r x y a b = holds (made a b (λ e. cc) (last_operand (inr refl)))
binary_check-Makes _ l r x y a b = fails

pub itself : (e : Expr) → Typed e → Stands e e
itself e h = record { coerced = unchanged; typed = h }

-- A binary node made of two typed expressions has this operator, those two under conversions as its
-- operands, exchanged at most, and follows the typing rules.
pub make_binary-Makes :
    (op : Tag) (l r : Expr) → Typed l → Typed r → Post (MakesBinary op l r) (make_binary op l r)
unfolding make_binary
make_binary-Makes Tag.period l r hl hr =
    binary_check-Makes Tag.period l r l r (itself l hl) (itself r hr)
make_binary-Makes op l r hl hr =
    Post-bind (decay-Stands l l (itself l hl))
      λ x a. Post-bind (decay-Stands r r (itself r hr)) λ y b. binary_check-Makes op l r x y a b
