-- ===== src/Layout/PlacedMembers.antt =====
-- The invariant of a struct through the operations of src/type.cpp that add a member.
use kcc.Layout.Fields.{
  Member, LlvmType, of_type, StructType, assertion, make_align, max, add_llvm_type, alignable,
  add_width,
}
use kcc.Layout.Operations.{member_type, grow, extend, add_member, merge_anonymous, merge_names}
use kcc.Layout.Placed.{
  make_align-≤, make_align-mod, also, Within-weaken, behind, Placed-weaken, limit_of, Sound,
  Sound-step, bit_size, begin_of, end_of, Aligned,
}
use kcc.Layout.PlacedSteps.{Closed, add_bit_field_before_member-Closed, max-left}
use kcc.Prelude.{
  ℕ, ◌+◌, ◌-◌, ◌*◌, ◌%◌, ◌^◌, ltb, not, Bool, Option, none, sym, ◌≤◌, true, ◌==◌, ◌≡◌, refl, ◌∙◌,
  ◌⊎◌, Bytes, ap, if_true, List, ◌∷◌, some, inl, inr, Option-cases, arith,
}
use kcc.Prelude.Results.{ok, ◌>>=◌, err, or_err, Post, holds, fails, Post-if, Post-bind, Post-any}
use kcc.Ty.CType.{Ty, width}

module _ (size : LlvmType → ℕ) (struct_size struct_align : ℕ → ℕ) where
  -- A step that adds the member `m`.
  pub Sound-push :
      (s t : StructType) (m : Member)
      → Sound struct_size s
      → t.is_struct ≡ s.is_struct
      → t.members ≡ m ∷ s.members
      → (s.bit_field_space_count ≡ 0 → Aligned struct_size m)
      → (s.bit_field_space_count ≡ 0 → limit_of struct_size s ≤ begin_of struct_size m)
      → end_of struct_size m ≤ limit_of struct_size t
      → limit_of struct_size s ≤ limit_of struct_size t
      → s.bit_field_space_count ≤ t.bit_field_space_count
      → 1 ≤ t.align
      → t.bit_field_base_type_width % 8 ≡ 0
      → t.offset ≤ t.width
      → Sound struct_size t
  Sound-push s t m h k e a b f l c g w o = record {
    struct_type = k ∙ h.struct_type;
    aligned = g;
    whole = w;
    wide = o;
    inside = rw e (also f (Within-weaken struct_size l h.inside));
    placed = λ z. rw e (
        behind (a (omega (arith, z, c))) f
          (Placed-weaken struct_size (b (omega (arith, z, c))) (h.placed (omega (arith, z, c)))));
  }

  -- A type whose width is not negative as a `std::int32_t`.
  abbrev pub is_narrow : Option ℕ → Bool
  is_narrow none = true
  is_narrow (some w) = ltb w (2 ^ 31)

  abbrev pub narrow : Ty → Bool
  narrow t = is_narrow (width struct_size (member_type t))

  -- An array without a length has no width.
  member_type-narrow : (t : Ty) → narrow t ≡ true → is_narrow (width struct_size t) ≡ true
  unfolding width
  member_type-narrow (Ty.array e none) h = refl
  member_type-narrow _ h = h

  -- What the parser makes: a member that is no bit-field, not placed yet.
  abbrev pub Plain : Member → Type 0
  Plain m = (m.bit_field_width ≡ 0) × (m.bit_field_begin ≡ 0) × (narrow m.ty ≡ true)

  width-cases :
      (t : Ty)
      → (or_err assertion (width struct_size t) ≡ err assertion)
        ⊎ ((w : ℕ) × (or_err assertion (width struct_size t) ≡ ok w)
            × (width struct_size t ≡ some w))
  width-cases t = elim (Option-cases (width struct_size t)) [
    | inl e ↦ inl (rw e refl)
    | inr (w, e) ↦ inr (w, rw e refl, e)
  ]

  pub raised :
      (s : StructType) (a : ℕ)
      → Sound struct_size s
      → Sound struct_size (record s { align = max s.align a })
  raised s a h =
      let p = max-left s.align a in
      Sound-step struct_size s _ h refl refl (omega arith) (omega arith)
        (let q = h.aligned in omega (arith, p, q)) h.whole h.wide

  -- The size in bits of a member that is no bit-field.
  plain_size :
      (m : Member) (w : ℕ)
      → m.bit_field_width ≡ 0
      → width struct_size m.ty ≡ some w
      → bit_size struct_size m ≡ 8 * w
  plain_size m w z e = rw (z, e) refl

  pub added :
      (t : Ty) (s : StructType)
      → s.is_struct ≡ true
      → add_llvm_type size struct_size struct_align t s
        ≡ record s { llvm_types = of_type t ∷ s.llvm_types }
  unfolding add_llvm_type
  added t s i = if_true _ _ i

  pub add_width-ok :
      (offset w : ℕ) → ltb w (2 ^ 31) ≡ true → Post (λ end. end ≡ offset + w) (add_width offset w)
  unfolding add_width
  add_width-ok offset w n =
      Post-if (ltb w (2 ^ 31))
        (λ _. Post-if (ltb (offset + w) (2 ^ 31)) (λ _. holds refl) (λ _. fails))
        λ m. absurd (ground (arith, m, n))

  pub grown :
      (offset w : ℕ) (s : StructType)
      → s.is_struct ≡ true
      → grow size struct_size struct_align offset w s
        ≡ (add_width offset w >>= λ end. extend size struct_size struct_align end s)
  unfolding grow
  grown offset w s i = if_true _ _ i

  -- What `AddMember` and `MergeAnonymous` end with, behind the bit-fields.
  grow-Closed :
      (t : Ty) (offset w index : ℕ) (m : Member) (scope : List (Bytes × Member)) (s : StructType)
      → Closed size struct_size struct_align s
      → (s.bit_field_space_count ≡ 0 → Aligned struct_size m)
      → (s.bit_field_space_count ≡ 0 → 8 * s.offset ≤ begin_of struct_size m)
      → end_of struct_size m ≤ 8 * (offset + w)
      → s.offset ≤ offset
      → ltb w (2 ^ 31) ≡ true
      → Post (Closed size struct_size struct_align) (
          grow size struct_size struct_align offset w (
            add_llvm_type size struct_size struct_align t
              (record s { members = m ∷ s.members; scope = scope; index = index })))
  unfolding extend
  grow-Closed t offset w index m scope s (h, z) a b e o n =
      rw
        (added t (record s { members = m ∷ s.members; scope = scope; index = index }) h.struct_type)
        (rw
          (grown offset w
            (record s {
              members = m ∷ s.members;
              scope = scope;
              index = index;
              llvm_types = of_type t ∷ s.llvm_types;
            })
            h.struct_type)
          (Post-bind (add_width-ok offset w n) λ end f.
            Post-if (alignable end s.align)
              (λ _. holds (
                Sound-push s _ m h refl refl a (λ c. let q = b c in omega (arith, q, z))
                    (omega (arith, e, f)) (omega (arith, o, z, f)) (omega arith) h.aligned h.whole
                    (make_align-≤ _ s.align h.aligned),
                z,
              ))
              (λ _. fails)))

  minus_none : (x n : ℕ) → n ≡ 0 → x - n ≡ x
  minus_none x n h = omega (arith, h)

  pub add_member-Closed :
      (m : Member) (s : StructType)
      → Plain m
      → Sound struct_size s
      → Post (Closed size struct_size struct_align) (add_member size struct_size struct_align m s)
  unfolding add_member
  add_member-Closed m s0 p h =
      Post-bind
        (add_bit_field_before_member-Closed size struct_size struct_align _ (raised s0 m.align h))
        λ s c. elim (width-cases (member_type m.ty)) [
          | inl e ↦ rw e fails
          | inr (w, e, f) ↦ rw e (
              Post-if (m.align == 0) (λ z. fails)
                λ z.
                  Post-if (not (alignable s.offset m.align)) (λ _. fails)
                    λ _.
                      let o = make_align-≤ s.offset m.align (ground (arith, z)) in
                      let placed = record m {
                        ty = member_type m.ty;
                        offset = make_align s.offset m.align - s.bit_field_space_count;
                        indexs = s.index ∷ m.indexs;
                      } in
                      let q = plain_size placed w p.0 f in
                      let b = p.1 in
                      grow-Closed (member_type m.ty) (make_align s.offset m.align) w (s.index + 1)
                        placed _ s c
                        (λ n. inr (
                          ap (λ x. x % m.align) (minus_none _ _ n)
                          ∙ make_align-mod s.offset m.align))
                        (λ n. omega (arith, n, o)) (omega (arith, q, b)) o
                        (sym (ap is_narrow f) ∙ p.2))
        ]

  pub merge_anonymous-Closed :
      (m : Member) (inner : List Member) (s : StructType)
      → Plain m
      → Sound struct_size s
      → Post
          (Closed size struct_size struct_align)
          (merge_anonymous size struct_size struct_align m inner s)
  unfolding merge_anonymous
  merge_anonymous-Closed m inner s0 p h =
      Post-bind
        (add_bit_field_before_member-Closed size struct_size struct_align _ (raised s0 m.align h))
        λ s c. elim (width-cases m.ty) [
          | inl e ↦ rw e fails
          | inr (w, e, f) ↦ rw e (
              Post-if (m.align == 0) (λ z. fails)
                λ z.
                  Post-if (not (alignable s.offset m.align)) (λ _. fails)
                    λ _.
                      let o = make_align-≤ s.offset m.align (ground (arith, z)) in
                      let placed = record m {
                        offset = make_align s.offset m.align;
                        indexs = s.index ∷ m.indexs;
                      } in
                      let q = plain_size placed w p.0 f in
                      let b = p.1 in
                      Post-bind
                        (Post-any (merge_names (make_align s.offset m.align) s.index inner s.scope))
                        λ names _.
                          grow-Closed m.ty (make_align s.offset m.align) w (s.index + 1) placed
                            names s c (λ n. inr (make_align-mod s.offset m.align))
                            (λ n. omega (arith, n, o)) (omega (arith, q, b)) o
                            (sym (ap is_narrow f) ∙ member_type-narrow m.ty p.2))
        ]
