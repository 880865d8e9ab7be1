-- ===== src/Ty/EqualLaws.antt =====
-- Laws of `Equal` and `Compatible`.
use kcc.Prelude.{
  same_bytes_refl, same_bytes_comm, ℕ, Bool, true, false, not, Option, none, some, ◌≡◌, ◌≢◌, refl,
  if◌then◌else◌, arith,
}
use kcc.Ty.Arithmetic.{ArithmeticType, arithmetic_equal}
use kcc.Ty.CType.{
  StructInfo, Ty, void, arithmetic, pointer, array, struct, function, QualType, qual, Params, nil,
  cons, struct_equal, same_size,
}
use kcc.Ty.Equal.{equal, qual_equal, params_equal, compatible, qual_compatible}

struct_equal_refl : (i : StructInfo) → struct_equal i i ≡ true
unfolding struct_equal
struct_equal_refl i = ground (arith, same_bytes_refl i.name)

struct_equal_comm : (i j : StructInfo) → struct_equal i j ≡ struct_equal j i
unfolding struct_equal
struct_equal_comm i j = ground (arith, same_bytes_comm i.name j.name)

arithmetic_equal_refl : (a : ArithmeticType) → arithmetic_equal a a ≡ true
unfolding arithmetic_equal
arithmetic_equal_refl a = ground arith

arithmetic_equal_comm : (a b : ArithmeticType) → arithmetic_equal a b ≡ arithmetic_equal b a
unfolding arithmetic_equal
arithmetic_equal_comm a b = ground arith

-- Arithmetic types are singletons.
pub arithmetic_equal_eq : (a b : ArithmeticType) → arithmetic_equal a b ≡ true → a ≡ b
unfolding arithmetic_equal
arithmetic_equal_eq a b h = ground (arith, h)

same_size_refl : (n : Option ℕ) → same_size n n ≡ true
unfolding same_size
same_size_refl none = refl
same_size_refl (some n) = ground arith

same_size_comm : (n m : Option ℕ) → same_size n m ≡ same_size m n
unfolding same_size
same_size_comm (some n) (some m) = ground arith
same_size_comm (some n) none = refl
same_size_comm none none = refl
same_size_comm none (some m) = refl

mutual
  unfolding equal

  refl_of : (t : Ty) → equal t t ≡ true
  refl_of void = refl
  refl_of (arithmetic a) = arithmetic_equal_refl a
  refl_of (pointer e) = refl_of_qual e
  refl_of (array e n) = ground (arith, refl_of_qual e, same_size_refl n)
  refl_of (struct i) = struct_equal_refl i
  refl_of (function r ps v) = ground (arith, refl_of_qual r, refl_of_params ps)

  refl_of_qual : (t : QualType) → qual_equal t t ≡ true
  refl_of_qual (qual t q) = refl_of t

  refl_of_params : (ps : Params) → params_equal ps ps ≡ true
  refl_of_params nil = refl
  refl_of_params (cons t ps) = ground (arith, refl_of_qual t, refl_of_params ps)

mutual
  unfolding equal

  comm_of : (t u : Ty) → equal t u ≡ equal u t
  comm_of void void = refl
  comm_of (arithmetic a) (arithmetic b) = arithmetic_equal_comm a b
  comm_of (pointer a) (pointer b) = comm_of_qual a b
  comm_of (array a n) (array b m) = ground (arith, comm_of_qual a b, same_size_comm n m)
  comm_of (struct i) (struct j) = struct_equal_comm i j
  comm_of (function r ps v) (function r' ps' v') =
      ground (arith, comm_of_qual r r', comm_of_params ps ps')
  comm_of _ _ = refl

  comm_of_qual : (t u : QualType) → qual_equal t u ≡ qual_equal u t
  comm_of_qual (qual t q) (qual u q') = comm_of t u

  comm_of_params : (ps qs : Params) → params_equal ps qs ≡ params_equal qs ps
  comm_of_params nil nil = refl
  comm_of_params nil (cons u qs) = refl
  comm_of_params (cons t ps) nil = refl
  comm_of_params (cons t ps) (cons u qs) = ground (arith, comm_of_qual t u, comm_of_params ps qs)

-- A weaker test lets more pass.
if-weaken :
    (a b c : Bool)
    → (a ≡ true → b ≡ true)
    → (if not a then false else c) ≡ true
    → (if not b then false else c) ≡ true
if-weaken true b c f h = ground (arith, f refl)
if-weaken false b c f h = ground arith

mutual
  unfolding equal compatible

  weaker : (t u : Ty) → equal t u ≡ true → compatible t u ≡ true
  weaker void void h = refl
  weaker (arithmetic a) (arithmetic b) h = h
  weaker (pointer a) (pointer b) h = weaker_qual a b h
  weaker (array a n) (array b m) h =
      if-weaken (qual_equal a b) (qual_compatible a b) (same_size n m) (weaker_qual a b) h
  weaker (struct i) (struct j) h = h
  weaker (function r ps v) (function r' ps' v') h =
      if-weaken (qual_equal r r') (qual_compatible r r') (params_equal ps ps') (weaker_qual r r') h
  weaker _ _ h = cc

  weaker_qual : (t u : QualType) → qual_equal t u ≡ true → qual_compatible t u ≡ true
  weaker_qual (qual t q) (qual u q') h = weaker t u h

-- `Equal` is reflexive and symmetric on all types.
pub equal_refl_comm : (t u : Ty) → (equal t t ≡ true) × (equal t u ≡ equal u t)
equal_refl_comm t u = (refl_of t, comm_of t u)

-- Equal types are compatible.
pub equal-compatible : (t u : Ty) → equal t u ≡ true → compatible t u ≡ true
equal-compatible t u h = weaker t u h

-- `Equal` is not transitive: two array types of different lengths are each equal to the array type of
-- unknown length, in both directions, and not equal to one another.
pub equal_not_transitive :
    (e : QualType) (n m : ℕ)
    → n ≢ m
    → (equal (array e (some n)) (array e none) ≡ true)
      × (equal (array e none) (array e (some m)) ≡ true)
      × (equal (array e (some n)) (array e (some m)) ≡ false)
unfolding equal same_size
equal_not_transitive e n m h = ground (arith, refl_of_qual e)
