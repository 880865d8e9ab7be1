-- ===== src/Layout/PlacedSteps.antt =====
-- The invariant of a struct through the steps of src/type.cpp that add no member.
use kcc.Layout.Fields.{
  in_int32, alignable, LlvmType, StructType, make_align, max, add_space, close_bit_field,
  fill_to_align, add_bit_field_before_member, bit_field_packed, pack_struct,
  add_space_between_bit_field, reset_bit_field,
}
use kcc.Layout.Placed.{make_align-≤, limit_of, Sound, Sound-step}
use kcc.Prelude.{
  ◌&&◌, ltb, ◌^◌, ℕ, ◌+◌, ◌-◌, ◌*◌, ◌/◌, ◌≤◌, true, ◌==◌, ◌≡◌, refl, sym, subst, ap, if_true, inl,
  inr, Bool-cases, arith,
}
use kcc.Prelude.Results.{Post, holds, fails, Post-if}

-- The bytes of some bits.
bits_in_bytes : (n : ℕ) → n ≤ 8 * (make_align n 8 / 8)
bits_in_bytes n = ground arith

pub max-left : (a b : ℕ) → a ≤ max a b
max-left a b = ground arith

-- A state that is in range stays as it is.
pub in_int32-Post {ℓ} : {P : StructType → Type ℓ} (s : StructType) → P s → Post P (in_int32 s)
unfolding in_int32
in_int32-Post s h =
    Post-if (alignable s.offset s.align && ltb s.width (2 ^ 31)) (λ _. holds h) (λ _. fails)

module _ (size : LlvmType → ℕ) (struct_size struct_align : ℕ → ℕ) where
  -- No unit is open.
  abbrev pub Closed : StructType → Type 0
  Closed s = Sound struct_size s × (s.bit_field_used_width ≡ 0)

  pub add_space-Sound :
      (w : ℕ) (s : StructType)
      → Sound struct_size s
      → Sound struct_size (add_space size struct_size struct_align w s)
  unfolding add_space
  add_space-Sound w s h = elim (Bool-cases (w == 0)) [
    | inl e ↦ rw e h
    | inr e ↦ rw e (
        Sound-step struct_size s _ h refl refl (omega arith) (omega arith) h.aligned h.whole
          (make_align-≤ _ s.align h.aligned))
  ]

  pub add_space-used :
      (w : ℕ) (s : StructType)
      → (add_space size struct_size struct_align w s).bit_field_used_width ≡ s.bit_field_used_width
  unfolding add_space
  add_space-used w s = elim (Bool-cases (w == 0)) [ inl e ↦ rw e refl | inr e ↦ rw e refl ]

  close-Sound :
      (s : StructType)
      → Sound struct_size s
      → Sound struct_size (reset_bit_field (close_bit_field s))
  unfolding close_bit_field
  close-Sound s h =
      let b = bits_in_bytes s.bit_field_used_width in
      Sound-step struct_size s _ h refl refl (omega (arith, b)) (omega arith) h.aligned refl
        (make_align-≤ _ s.align h.aligned)

  -- The steps behind the closing read and write nothing of the bits.
  fill-reset :
      (s : StructType)
      → reset_bit_field (fill_to_align size struct_size struct_align s)
        ≡ fill_to_align size struct_size struct_align (reset_bit_field s)
  unfolding fill_to_align add_space
  fill-reset s = elim (Bool-cases (s.width - s.offset == 0)) [
    | inl e ↦ rw e refl
    | inr e ↦ rw e refl
  ]

  fill-Sound :
      (s : StructType)
      → Sound struct_size s
      → Sound struct_size (fill_to_align size struct_size struct_align s)
  unfolding fill_to_align
  fill-Sound s h =
      add_space-Sound (s.width - s.offset) _ (
        Sound-step struct_size s _ h refl refl (omega arith) (omega arith) h.aligned h.whole h.wide)

  pub add_bit_field_before_member-Closed :
      (s : StructType)
      → Sound struct_size s
      → Post Closed (add_bit_field_before_member size struct_size struct_align s)
  unfolding add_bit_field_before_member
  add_bit_field_before_member-Closed s h =
      Post-if (s.bit_field_used_width == 0)
        (λ z. holds (
          Sound-step struct_size s _ h refl refl (omega arith) (omega arith) h.aligned refl h.wide,
          ground (arith, z),
        ))
        λ n.
          Post-if (s.bit_field_base_type_width == 0) (λ z. fails)
            λ k.
              Post-if s.is_struct
                (λ i.
                  in_int32-Post
                    (reset_bit_field
                      (fill_to_align size struct_size struct_align (close_bit_field s)))
                    (rw (fill-reset (close_bit_field s)) (fill-Sound _ (close-Sound s h)), refl))
                (λ i. absurd (ground (arith, i, h.struct_type)))

  pack-Sound :
      (s : StructType)
      → Sound struct_size s
      → s.bit_field_used_width ≡ s.bit_field_base_type_width
      → Sound struct_size (reset_bit_field (pack_struct s))
  unfolding pack_struct
  pack-Sound s h e =
      let w = h.whole in
      Sound-step struct_size s _ h refl refl (omega (arith, e, w)) (omega arith) h.aligned refl
        (make_align-≤ _ s.align h.aligned)

  -- The members stay, and nothing that is used is given back.
  abbrev pub Keeps : StructType → StructType → Type 0
  Keeps s t = (t.members ≡ s.members) × (limit_of struct_size s ≤ limit_of struct_size t)

  add_space-Keeps : (w : ℕ) (s : StructType) → Keeps s (add_space size struct_size struct_align w s)
  unfolding add_space
  add_space-Keeps w s = elim (Bool-cases (w == 0)) [
    | inl e ↦ rw e (refl, omega arith)
    | inr e ↦ rw e (refl, omega arith)
  ]

  fill-Keeps : (s : StructType) → Keeps s (fill_to_align size struct_size struct_align s)
  unfolding fill_to_align
  fill-Keeps s =
      add_space-Keeps (s.width - s.offset)
        (record s { bit_field_space_count = s.bit_field_space_count + (s.width - s.offset) })

  closed-Keeps :
      (s : StructType)
      → Keeps s (reset_bit_field (fill_to_align size struct_size struct_align (close_bit_field s)))
  unfolding close_bit_field
  closed-Keeps s =
      let b = bits_in_bytes s.bit_field_used_width in
      let (m, l) = fill-Keeps (reset_bit_field (close_bit_field s)) in
      subst (λ t. Keeps s t) (sym (fill-reset (close_bit_field s))) (m, omega (arith, b, l))

  pub add_bit_field_before_member-Keeps :
      (s : StructType)
      → s.is_struct ≡ true
      → Post (Keeps s) (add_bit_field_before_member size struct_size struct_align s)
  unfolding add_bit_field_before_member
  add_bit_field_before_member-Keeps s h =
      Post-if (s.bit_field_used_width == 0) (λ z. holds (refl, omega arith))
        λ n.
          Post-if (s.bit_field_base_type_width == 0) (λ z. fails)
            λ k.
              Post-if s.is_struct
                (λ i.
                  in_int32-Post
                    (reset_bit_field
                      (fill_to_align size struct_size struct_align (close_bit_field s)))
                    (closed-Keeps s))
                (λ i. absurd (ground (arith, i, h)))

  pub bit_field_packed-Sound :
      (s : StructType)
      → Sound struct_size s
      → s.bit_field_used_width ≡ s.bit_field_base_type_width
      → Sound struct_size (bit_field_packed s)
  unfolding bit_field_packed
  bit_field_packed-Sound s h e =
      rw (ap reset_bit_field (if_true (pack_struct s) s h.struct_type)) (pack-Sound s h e)

  pub add_space_between_bit_field-Closed :
      (s : StructType)
      → Sound struct_size s
      → Post Closed (add_space_between_bit_field size struct_size struct_align s)
  unfolding add_space_between_bit_field close_bit_field
  add_space_between_bit_field-Closed s h =
      let b = bits_in_bytes s.bit_field_used_width in
      Post-if (s.bit_field_base_type_width == 0) (λ z. fails)
        λ n. holds (
          Sound-step struct_size s _ h refl refl (omega (arith, b)) (omega arith) h.aligned refl
              (make_align-≤ _ s.align h.aligned),
          refl,
        )
