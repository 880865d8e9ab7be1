-- ===== src/Calc/Eval.antt =====
-- `CalcConstantExpr::Calc` and its visits (src/calc.cpp) of the expressions of `kcc.Ast.Expr`.
use kcc.Ast.Expr.{Expr, ty_of}
use kcc.Ast.Kinds.{is_struct_or_union, is_function}
use kcc.Calc.Cast.{CalcError, not_constant, assertion, constant_cast_to}
use kcc.Calc.Llvm.{Llvm, UnaryOpcode}
use kcc.Calc.Lower.{llvm_type}
use kcc.Calc.Operators.{
  neg_op, logic_not_op, add_op, sub_op, mul_op, div_op, mod_op, or_op, and_op, xor_op, shl_op,
  shr_op, less_op, less_equal_op, greater_op, greater_equal_op, equal_op, not_equal_op,
}
use kcc.Calc.Word.{encode, read}
use kcc.Prelude.{
  ℕ, ◌%◌, ◌^◌, Bool, true, false, not, ◌&&◌, ◌||◌, [], ◌∷◌, Option, none, some, Bytes,
  if◌then◌else◌,
}
use kcc.Prelude.Results.{Result, ok, err, ◌>>=◌, or_err}
use kcc.Token.{Tag}
use kcc.Ty.Arithmetic.{ArithmeticType, is_integer_ty, is_float_point_ty, is_unsigned}
use kcc.Ty.Conversion.{signed}
use kcc.Ty.CType.{Ty, QualType, get_type}

-- What the evaluation reads of the module and of the nodes of objects, which the model of the
-- expressions leaves out: the address of a global or of a function, that of a string, and the index
-- of a member.
pub record Globals (llvm : Llvm) : Type 0 where
  pub is_static_object : Bytes → QualType → Bool
  pub get_global_ptr : Bytes → QualType → llvm.Constant
  pub get_function : Bytes → QualType → llvm.Constant
  pub get_string_ptr : QualType → Bytes → llvm.Constant
  pub member_index : Bytes → QualType → ℕ

-- `Type::IsUnsigned`.
abbrev pub is_unsigned_ty : Ty → Bool
is_unsigned_ty (Ty.arithmetic a) = is_unsigned a
is_unsigned_ty _ = false

abbrev is_array : Ty → Bool
is_array (Ty.array e n) = true
is_array _ = false

module _ (llvm : Llvm) (globals : Globals llvm) where
  open llvm use {
    Constant, int_type, get_int, get_fp, is_zero_value, get_sext_value, get_unary, get_element_ptr,
  }
  open globals use {is_static_object, get_global_ptr, get_function, get_string_ptr, member_index}

  abbrev Calculated : Type 0
  Calculated = Result CalcError Constant

  -- `Visit` of the leaves.
  unfoldable pub visit_constant : ArithmeticType → ℕ → Calculated
  visit_constant a v =
      if is_integer_ty a then ok (get_int (llvm_type llvm (Ty.arithmetic a)) v) else err assertion

  unfoldable pub visit_floating : ArithmeticType → Bytes → Calculated
  visit_floating a s =
      if is_float_point_ty a
      then ok (get_fp (llvm_type llvm (Ty.arithmetic a)) s)
      else err assertion

  -- The value of an enumerator is a `std::int32_t`, which becomes a `std::uint64_t`.
  unfoldable pub visit_enumerator : ℕ → Calculated
  visit_enumerator v = ok (
      get_int (llvm_type llvm (Ty.arithmetic ArithmeticType.int))
        (encode 64 (read signed 32 (v % 2 ^ 32))))

  unfoldable pub visit_identifier : Bytes → QualType → Calculated
  visit_identifier n t = if is_function (get_type t) then ok (get_function n t) else err assertion

  unfoldable pub visit_object : Bytes → QualType → Calculated
  visit_object n t =
      if is_static_object n t && (is_array (get_type t) || is_struct_or_union (get_type t))
      then ok (get_global_ptr n t)
      else err not_constant

  -- A division, whose divisor must not be zero.
  unfoldable pub division :
      (Constant → Constant → Calculated) → Calculated → Calculated → Calculated
  division f l r = do
    lhs ← l
    rhs ← r
    if is_zero_value rhs then err CalcError.division_by_zero else f lhs rhs

  abbrev bool_constant : Bool → Constant
  bool_constant b = get_int (int_type 32) (if b then 1 else 0)

  unfoldable pub logic_or_op : Calculated → Calculated → Calculated
  logic_or_op l r = do
    lhs ← l
    if is_zero_value lhs
        then (do rhs ← r; ok (bool_constant (not (is_zero_value rhs))))
        else ok (bool_constant true)

  unfoldable pub logic_and_op : Calculated → Calculated → Calculated
  logic_and_op l r = do
    lhs ← l
    if is_zero_value lhs
        then ok (bool_constant false)
        else (do rhs ← r; ok (bool_constant (not (is_zero_value rhs))))

  abbrev both : (Constant → Constant → Calculated) → Calculated → Calculated → Calculated
  both f l r = do lhs ← l; rhs ← r; f lhs rhs

  -- The switch of `Visit(const BinaryOpExpr*)`; `l` and `r` are the macros `L` and `R`.
  unfoldable pub binary_op : Tag → Bool → Calculated → Calculated → Calculated
  unfolding division logic_or_op logic_and_op
  binary_op Tag.plus u l r = both (λ a b. add_op llvm a b u) l r
  binary_op Tag.minus u l r = both (λ a b. sub_op llvm a b u) l r
  binary_op Tag.star u l r = both (λ a b. mul_op llvm a b u) l r
  binary_op Tag.slash u l r = division (λ a b. div_op llvm a b u) l r
  binary_op Tag.percent u l r = division (λ a b. ok (mod_op llvm a b u)) l r
  binary_op Tag.amp u l r = both (λ a b. ok (and_op llvm a b)) l r
  binary_op Tag.pipe u l r = both (λ a b. ok (or_op llvm a b)) l r
  binary_op Tag.caret u l r = both (λ a b. ok (xor_op llvm a b)) l r
  binary_op Tag.less_less u l r = both (λ a b. ok (shl_op llvm a b)) l r
  binary_op Tag.greater_greater u l r = both (λ a b. ok (shr_op llvm a b u)) l r
  binary_op Tag.amp_amp u l r = logic_and_op l r
  binary_op Tag.pipe_pipe u l r = logic_or_op l r
  binary_op Tag.equal_equal u l r = both (equal_op llvm) l r
  binary_op Tag.exclaim_equal u l r = both (not_equal_op llvm) l r
  binary_op Tag.less u l r = both (λ a b. less_op llvm a b u) l r
  binary_op Tag.greater u l r = both (λ a b. greater_op llvm a b u) l r
  binary_op Tag.less_equal u l r = both (λ a b. less_equal_op llvm a b u) l r
  binary_op Tag.greater_equal u l r = both (λ a b. greater_equal_op llvm a b u) l r
  binary_op _ u l r = err not_constant

  -- `Visit(const BinaryOpExpr*)`: both operands are evaluated first.
  unfoldable pub visit_binary : Tag → Bool → Calculated → Calculated → Calculated
  unfolding binary_op
  visit_binary op u l r = do _ ← l; _ ← r; binary_op op u l r

  unfoldable pub visit_condition : Calculated → Calculated → Calculated → Calculated
  visit_condition c l r = do cond ← c; if is_zero_value cond then r else l

  unfoldable pub visit_cast : Calculated → QualType → Bool → Calculated
  visit_cast e t u = do v ← e; constant_cast_to llvm v (llvm_type llvm (get_type t)) u

  -- The unary operators but `&`.
  unfoldable pub unary_op : Tag → Bool → Calculated → Calculated
  unary_op Tag.plus u e = e
  unary_op Tag.minus u e = do v ← e; neg_op llvm v u
  unary_op Tag.tilde u e = do v ← e; ok (get_unary UnaryOpcode.bit_not v)
  unary_op Tag.exclaim u e = do v ← e; logic_not_op llvm v
  unary_op _ u e = err not_constant

  -- The address of a member, whose node must be an object.
  unfoldable pub member_address : Calculated → Expr → Calculated
  member_address l (Expr.object n t) = do
    lhs ← l
    ok (get_element_ptr lhs (get_int (int_type 64) (member_index n t) ∷ []))
  member_address l _ = do _ ← l; err assertion

  unfoldable mutual
    unfolding visit_constant visit_floating visit_enumerator visit_identifier visit_object
        visit_binary visit_condition visit_cast unary_op member_address

    pub calc : Expr → Calculated
    calc (Expr.constant a v) = visit_constant a v
    calc (Expr.floating a s) = visit_floating a s
    calc (Expr.string t s) = ok (get_string_ptr t s)
    calc (Expr.enumerator n v) = visit_enumerator v
    calc (Expr.identifier n t) = visit_identifier n t
    calc (Expr.object n t) = visit_object n t
    calc (Expr.unary Tag.amp e t) = addr e
    calc (Expr.unary op e t) = unary_op op (is_unsigned_ty (ty_of e)) (calc e)
    calc (Expr.cast e t) = visit_cast (calc e) t (is_unsigned_ty (ty_of e))
    calc (Expr.binary op l r t) = visit_binary op (is_unsigned_ty (ty_of l)) (calc l) (calc r)
    calc (Expr.condition c l r t) = visit_condition (calc c) (calc l) (calc r)
    calc (Expr.call f args t) = err not_constant

    -- `Addr`, of the operand of `&`.
    pub addr : Expr → Calculated
    addr (Expr.object n t) = if is_static_object n t then ok (get_global_ptr n t) else err assertion
    addr (Expr.identifier n t) = visit_identifier n t
    addr (Expr.unary Tag.star (Expr.binary Tag.plus l r t') t) = do
      lhs ← calc l
      rhs ← calc r
      ok (get_element_ptr lhs (rhs ∷ []))
    addr (Expr.binary op l r t) = member_address (calc l) r
    addr _ = err not_constant

  -- `CalcInteger`, of the result of `Calc`: the value as the pattern of a `std::int64_t`.
  unfoldable pub integer_of : Bool → Calculated → Result CalcError (Option ℕ)
  integer_of as_error (ok c) = do
    v ← or_err CalcError.integer_constant_expected (get_sext_value c)
    ok (some v)
  integer_of as_error (err CalcError.not_constant) =
      if as_error then err CalcError.constant_expected else ok none
  integer_of as_error (err e) = err e

  unfoldable pub calc_integer : Expr → Bool → Result CalcError (Option ℕ)
  unfolding calc integer_of
  calc_integer e as_error = integer_of as_error (calc e)
