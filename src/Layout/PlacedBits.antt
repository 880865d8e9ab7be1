-- ===== src/Layout/PlacedBits.antt =====
-- The invariant of a struct through `AddBitField` of src/type.cpp.
use kcc.Layout.Fields.{Member, LlvmType, StructType, assertion, make_align, max}
use kcc.Layout.Operations.{
  is_bit_field, last_is_bit_field, push_member, push_bit_field, use_bits, align_first, open_unit,
  first_bit_field, break_bit_field, make_room, next_bit_field, add_aligned, add_bit_field,
}
use kcc.Layout.Placed.{make_align-≤, Sound, Sound-step, bit_size}
use kcc.Layout.PlacedSteps.{
  in_int32-Post, Closed, add_space-Sound, add_space-used, bit_field_packed-Sound,
  add_space_between_bit_field-Closed,
}
use kcc.Prelude.{
  ℕ, ◌+◌, ◌-◌, ◌*◌, true, not, ◌==◌, ◌||◌, ◌&&◌, ltb, ◌≡◌, refl, ◌∙◌, ap, if_true, if_false, ◌∷◌,
  inl, inr, Bool-cases, arith,
}
use kcc.Prelude.Results.{
  ok, ◌>>=◌, or_err, Post, holds, fails, Post-if, Post-bind, Post-map, Post-any,
}
use kcc.Ty.CType.{width}
use kcc.Layout.PlacedMembers.{Sound-push}

module _ (size : LlvmType → ℕ) (struct_size struct_align : ℕ → ℕ) where
  -- A bit-field, as it is placed.
  abbrev at_bit : Member → ℕ → StructType → Member
  at_bit m begin s = record m {
    offset = s.offset;
    bit_field_begin = begin;
    indexs = s.index ∷ m.indexs;
  }

  pushed :
      (m : Member) (begin : ℕ) (s : StructType)
      → s.is_struct ≡ true
      → push_bit_field size struct_size struct_align m begin s
        ≡ ok (push_member (at_bit m begin s) s)
  unfolding push_bit_field
  pushed m begin s i = if_false {b = not s.is_struct} _ _ (ap not i)

  bit_field_size : (m : Member) → is_bit_field m ≡ true → bit_size struct_size m ≡ m.bit_field_width
  bit_field_size m b = if_true _ _ b

  -- A bit-field placed at the first bit that is free.
  bits-Sound :
      (m : Member) (s : StructType)
      → is_bit_field m ≡ true
      → Sound struct_size s
      → Post (Sound struct_size) (do
        u ← push_bit_field size struct_size struct_align m s.bit_field_used_width s
        use_bits size struct_size struct_align m.bit_field_width u)
  unfolding use_bits
  bits-Sound m s b h =
      let d = at_bit m s.bit_field_used_width s in
      let e = bit_field_size d b in
      let t = record (push_member d s) {
        bit_field_used_width = s.bit_field_used_width + m.bit_field_width;
      } in
      let g =
        Sound-push size struct_size struct_align s t d h refl refl (λ n. inl b) (λ n. omega arith)
          (omega (arith, e)) (omega arith) (omega arith) h.aligned h.whole h.wide in
      rw (pushed m s.bit_field_used_width s h.struct_type) (
        Post-if (ltb s.bit_field_base_type_width (s.bit_field_used_width + m.bit_field_width))
          (λ z. fails)
          λ z.
            Post-if (s.bit_field_used_width + m.bit_field_width == s.bit_field_base_type_width)
              (λ q.
                holds
                  (bit_field_packed-Sound size struct_size struct_align t g (ground (arith, q))))
              (λ q. holds g))

  align_first-Sound :
      (s : StructType)
      → Sound struct_size s
      → s.bit_field_used_width ≡ 0
      → Closed size struct_size struct_align (align_first size struct_size struct_align s)
  unfolding align_first
  align_first-Sound s h z =
      let w = make_align s.offset s.align in
      let t = record s { width = w } in
      let g =
        Sound-step struct_size s t h refl refl (omega arith) (omega arith) h.aligned h.whole
          (make_align-≤ s.offset s.align h.aligned) in
      elim (Bool-cases (s.is_struct && not (last_is_bit_field s.members))) [
        | inl e ↦ rw e (
          add_space-Sound size struct_size struct_align (w - s.offset) t g,
          add_space-used size struct_size struct_align (w - s.offset) t ∙ z,
        )
        | inr e ↦ rw e (h, z)
      ]

  open_unit-Sound :
      (m : Member) (w : ℕ) (s : StructType)
      → Closed size struct_size struct_align s
      → Post (Sound struct_size) (open_unit size struct_size struct_align m w s)
  unfolding open_unit
  open_unit-Sound m w s (h, z) =
      let t = record s { bit_field_base_type_width = w * 8 } in
      let g =
        Sound-step struct_size s t h refl refl (omega arith) (omega arith) h.aligned (omega arith)
          h.wide in
      Post-if (m.bit_field_width == 0) (λ n. holds g) λ n. rw⁻¹ z (bits-Sound m t (rw n refl) g)

  first-Sound :
      (m : Member) (s : StructType)
      → Closed size struct_size struct_align s
      → Post (Sound struct_size) (first_bit_field size struct_size struct_align m s)
  unfolding first_bit_field
  first-Sound m s (h, z) =
      Post-if (not (s.bit_field_base_type_width == 0)) (λ n. fails)
        λ n.
          Post-bind (Post-any (or_err assertion (width struct_size m.ty)))
            λ w _. open_unit-Sound m w _ (align_first-Sound s h z)

  break-Sound :
      (m : Member) (s : StructType)
      → Sound struct_size s
      → Post (Sound struct_size) (break_bit_field size struct_size struct_align m s)
  unfolding break_bit_field
  break-Sound m s h =
      Post-if _ (λ n. holds h)
        λ n.
          Post-map (λ t c. c.0)
            (add_space_between_bit_field-Closed size struct_size struct_align s h)

  make_room-Sound :
      (bits w : ℕ) (s : StructType)
      → Sound struct_size s
      → Post (Sound struct_size) (make_room size struct_size struct_align bits (w * 8) s)
  unfolding make_room
  make_room-Sound bits w s h =
      let t = record s { bit_field_base_type_width = max s.bit_field_base_type_width (w * 8) } in
      let g =
        Sound-step struct_size s t h refl refl (omega arith) (omega arith) h.aligned
          (let q = h.whole in ground (arith, q)) h.wide in
      Post-if
        (ltb (max s.bit_field_base_type_width (w * 8)) (s.bit_field_used_width + bits)
          && s.is_struct)
        (λ n.
          Post-bind (add_space_between_bit_field-Closed size struct_size struct_align t g) λ u c.
            holds (
              Sound-step struct_size u (record u { bit_field_base_type_width = w * 8 }) c.0 refl
                refl (omega arith) (omega arith) c.0.aligned (omega arith) c.0.wide))
        (λ n. holds g)

  next-Sound :
      (m : Member) (s : StructType)
      → is_bit_field m ≡ true
      → Sound struct_size s
      → Post (Sound struct_size) (next_bit_field size struct_size struct_align m s)
  unfolding next_bit_field
  next-Sound m s b h = Post-bind (Post-any (or_err assertion (width struct_size m.ty))) λ w _.
      Post-bind (make_room-Sound m.bit_field_width w s h)
        λ t g. rw (if_true t.bit_field_used_width 0 g.struct_type) (bits-Sound m t b g)

  aligned-Sound :
      (m : Member) (s : StructType)
      → Sound struct_size s
      → Post (Sound struct_size) (add_aligned size struct_size struct_align m s)
  unfolding add_aligned
  aligned-Sound m s h =
      Post-if (s.bit_field_used_width == 0) (λ z. first-Sound m s (h, ground (arith, z)))
        λ n.
          Post-if (m.bit_field_width == 0) (λ z. break-Sound m s h) λ z. next-Sound m s (ap not z) h

  pub add_bit_field-Sound :
      (m : Member) (s : StructType)
      → Sound struct_size s
      → Post (Sound struct_size) (add_bit_field size struct_size struct_align m s)
  unfolding add_bit_field
  add_bit_field-Sound m s h =
      let q = h.aligned in
      elim (Bool-cases (m.bit_field_width == 0 || ltb 8 m.bit_field_width)) [
        | inl e ↦ rw e (
            Post-bind
              (aligned-Sound m _ (
                Sound-step struct_size s (record s { align = max m.align s.align }) h refl refl
                  (omega arith) (omega arith) (ground (arith, q)) h.whole h.wide))
              λ t g. in_int32-Post t g)
        | inr e ↦ rw e (Post-bind (aligned-Sound m s h) λ t g. in_int32-Post t g)
      ]
