-- ===== src/Calc/Operators.antt =====
-- The operators on constants: `NegOp` to `NotEqualOp` of src/calc.cpp.
use kcc.Calc.Cast.{
  CalcError, is_integer, is_floating_point, is_pointer, constant_cast_to_bool, constant_cast_to,
}
use kcc.Calc.Llvm.{Llvm, Opcode, UnaryOpcode, CastOpcode, Predicate}
use kcc.Prelude.{Bool, true, ◌&&◌, ◌||◌, [], ◌∷◌, if◌then◌else◌}
use kcc.Prelude.Results.{Result, ok, err, ◌>>=◌}

module _ (llvm : Llvm) where
  open llvm use {
    Constant, type_of, int_type, get_pointer_element_type, get_type_alloc_size, get_int, get_unary,
    get, get_cast, get_icmp, get_fcmp, get_element_ptr, is_zero_value,
  }

  abbrev Calculated : Type 0
  Calculated = Result CalcError Constant

  unfoldable pub neg_op : Constant → Bool → Calculated
  neg_op c u =
      if is_integer llvm c
      then ok (get_unary (if u then UnaryOpcode.neg else UnaryOpcode.nsw_neg) c)
      else if is_floating_point llvm c
      then ok (get_unary UnaryOpcode.fneg c)
      else err CalcError.assertion

  unfoldable pub logic_not_op : Constant → Calculated
  logic_not_op c = do
    b ← constant_cast_to_bool llvm c
    ok (get_cast CastOpcode.zext (get Opcode.xor b (get_int (int_type 1) 1)) (int_type 32))

  unfoldable pub add_op : Constant → Constant → Bool → Calculated
  add_op l r u =
      if is_integer llvm l
      then ok (get (if u then Opcode.add else Opcode.nsw_add) l r)
      else if is_floating_point llvm l
      then ok (get Opcode.fadd l r)
      else if is_pointer llvm l
      then ok (get_element_ptr l (r ∷ []))
      else err CalcError.assertion

  unfoldable pub div_op : Constant → Constant → Bool → Calculated
  div_op l r u =
      if is_integer llvm l
      then ok (get (if u then Opcode.udiv else Opcode.sdiv) l r)
      else if is_floating_point llvm l
      then ok (get Opcode.fdiv l r)
      else err CalcError.assertion

  -- The cases of `SubOp` without a pointer on the left.
  unfoldable pub sub_numbers : Constant → Constant → Bool → Calculated
  sub_numbers l r u =
      if is_integer llvm l
      then ok (get (if u then Opcode.sub else Opcode.nsw_sub) l r)
      else if is_floating_point llvm l
      then ok (get Opcode.fsub l r)
      else err CalcError.assertion

  -- The difference of two pointers, in elements.
  unfoldable pub sub_pointers : Constant → Constant → Calculated
  unfolding sub_numbers div_op
  sub_pointers l r = do
    l' ← constant_cast_to llvm l (int_type 64) true
    r' ← constant_cast_to llvm r (int_type 64) true
    v ← sub_numbers l' r' true
    div_op v (get_int (int_type 64) (get_type_alloc_size (get_pointer_element_type (type_of l))))
        true

  unfoldable pub sub_op : Constant → Constant → Bool → Calculated
  unfolding neg_op sub_numbers sub_pointers
  sub_op l r u =
      if is_integer llvm l || is_floating_point llvm l
      then sub_numbers l r u
      else if is_pointer llvm l && is_integer llvm r
      then (do n ← neg_op r u; ok (get_element_ptr l (n ∷ [])))
      else if is_pointer llvm l && is_pointer llvm r
      then sub_pointers l r
      else err CalcError.assertion

  unfoldable pub mul_op : Constant → Constant → Bool → Calculated
  mul_op l r u =
      if is_integer llvm l
      then ok (get (if u then Opcode.mul else Opcode.nsw_mul) l r)
      else if is_floating_point llvm l
      then ok (get Opcode.fmul l r)
      else err CalcError.assertion

  abbrev pub mod_op : Constant → Constant → Bool → Constant
  mod_op l r u = get (if u then Opcode.urem else Opcode.srem) l r

  abbrev pub or_op : Constant → Constant → Constant
  or_op = get Opcode.or

  abbrev pub and_op : Constant → Constant → Constant
  and_op = get Opcode.and

  abbrev pub xor_op : Constant → Constant → Constant
  xor_op = get Opcode.xor

  abbrev pub shl_op : Constant → Constant → Constant
  shl_op = get Opcode.shl

  abbrev pub shr_op : Constant → Constant → Bool → Constant
  shr_op l r u = get (if u then Opcode.lshr else Opcode.ashr) l r

  -- The common end of the comparisons.
  abbrev as_int : Constant → Calculated
  as_int c = ok (get_cast CastOpcode.zext c (int_type 32))

  unfoldable pub less_equal_op : Constant → Constant → Bool → Calculated
  less_equal_op l r u =
      if is_integer llvm l
      then as_int (get_icmp (if u then Predicate.icmp_ule else Predicate.icmp_sle) l r)
      else if is_floating_point llvm l
      then as_int (get_fcmp Predicate.fcmp_ole l r)
      else if is_pointer llvm l
      then as_int (get_icmp Predicate.icmp_ule l r)
      else err CalcError.assertion

  unfoldable pub less_op : Constant → Constant → Bool → Calculated
  less_op l r u =
      if is_integer llvm l
      then as_int (get_icmp (if u then Predicate.icmp_ult else Predicate.icmp_slt) l r)
      else if is_floating_point llvm l
      then as_int (get_fcmp Predicate.fcmp_olt l r)
      else if is_pointer llvm l
      then as_int (get_icmp Predicate.icmp_ult l r)
      else err CalcError.assertion

  unfoldable pub greater_equal_op : Constant → Constant → Bool → Calculated
  greater_equal_op l r u =
      if is_integer llvm l
      then as_int (get_icmp (if u then Predicate.icmp_uge else Predicate.icmp_sge) l r)
      else if is_floating_point llvm l
      then as_int (get_fcmp Predicate.fcmp_oge l r)
      else if is_pointer llvm l
      then as_int (get_icmp Predicate.icmp_uge l r)
      else err CalcError.assertion

  unfoldable pub greater_op : Constant → Constant → Bool → Calculated
  greater_op l r u =
      if is_integer llvm l
      then as_int (get_icmp (if u then Predicate.icmp_ugt else Predicate.icmp_sgt) l r)
      else if is_floating_point llvm l
      then as_int (get_fcmp Predicate.fcmp_ogt l r)
      else if is_pointer llvm l
      then as_int (get_icmp Predicate.icmp_ugt l r)
      else err CalcError.assertion

  unfoldable pub equal_op : Constant → Constant → Calculated
  equal_op l r =
      if is_integer llvm l || is_pointer llvm l
      then as_int (get_icmp Predicate.icmp_eq l r)
      else if is_floating_point llvm l
      then as_int (get_fcmp Predicate.fcmp_oeq l r)
      else err CalcError.assertion

  unfoldable pub not_equal_op : Constant → Constant → Calculated
  not_equal_op l r =
      if is_integer llvm l || is_pointer llvm l
      then as_int (get_icmp Predicate.icmp_ne l r)
      else if is_floating_point llvm l
      then as_int (get_fcmp Predicate.fcmp_one l r)
      else err CalcError.assertion
