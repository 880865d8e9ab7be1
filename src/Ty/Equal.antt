-- ===== src/Ty/Equal.antt =====
-- `Equal` and `Compatible` of the classes of src/type.cpp, and what they compare.
use kcc.Prelude.{Bool, true, false, not, if◌then◌else◌}
use kcc.Ty.Arithmetic.{arithmetic_equal}
use kcc.Ty.CType.{
  Ty, void, arithmetic, pointer, array, struct, function, QualType, qual, Params, nil, cons,
  struct_equal, same_size,
}

-- The virtual functions `Equal`; an argument of another class is not equal. The qualifiers are not
-- compared. `params_equal` is the length test and the loop of `FunctionType`.
unfoldable mutual
  pub equal : Ty → Ty → Bool
  equal void void = true
  equal (arithmetic a) (arithmetic b) = arithmetic_equal a b
  equal (pointer a) (pointer b) = qual_equal a b
  equal (array a n) (array b m) = if not (qual_equal a b) then false else same_size n m
  equal (struct i) (struct j) = struct_equal i j
  equal (function r ps v) (function r' ps' v') =
      if not (qual_equal r r') then false else params_equal ps ps'
  equal _ _ = false

  pub qual_equal : QualType → QualType → Bool
  qual_equal (qual a q) (qual b q') = equal a b

  pub params_equal : Params → Params → Bool
  params_equal nil nil = true
  params_equal (cons a ps) (cons b ps') =
      if not (qual_equal a b) then false else params_equal ps ps'
  params_equal _ _ = false

-- The virtual functions `Compatible`; the parameters of a function must be equal.
unfoldable mutual
  pub compatible : Ty → Ty → Bool
  compatible void void = true
  compatible (arithmetic a) (arithmetic b) = arithmetic_equal a b
  compatible (pointer a) (pointer b) = qual_compatible a b
  compatible (array a n) (array b m) = if not (qual_compatible a b) then false else same_size n m
  compatible (struct i) (struct j) = struct_equal i j
  compatible (function r ps v) (function r' ps' v') =
      if not (qual_compatible r r') then false else params_equal ps ps'
  compatible _ _ = false

  pub qual_compatible : QualType → QualType → Bool
  qual_compatible (qual a q) (qual b q') = compatible a b
