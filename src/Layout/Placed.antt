-- ===== src/Layout/Placed.antt =====
-- What the layout of a struct promises: its members follow one another without overlap.
use kcc.Layout.Fields.{Member, StructType, make_align}
use kcc.Layout.Operations.{is_bit_field}
use kcc.Prelude.{
  ℕ, ◌+◌, ◌-◌, ◌*◌, ◌/◌, ◌%◌, ◌≤◌, true, ◌≡◌, ◌⊎◌, ◌∙◌, ap, List, [], ◌∷◌, none, some,
  if◌then◌else◌, arith,
}
use kcc.Ty.CType.{width}
use native.Mathlib.Nat.{mod-add-div, mul-add-mod_self_left, mod_self, mod-lt}

-- An aligned offset is not below the given one, and a multiple of the alignment.
pub make_align-≤ : (o a : ℕ) → 1 ≤ a → o ≤ make_align o a
make_align-≤ o a h = let p = mod-lt o {m = a} (ground (arith, h)) in ground (arith, h, p)

next_multiple : (o a : ℕ) → o + a - o % a ≡ a * (o / a) + a
next_multiple o a = let e = mod-add-div o a in omega (arith, e)

multiple-mod : (o a : ℕ) → (o + a - o % a) % a ≡ 0
multiple-mod o a =
    ap (λ x. x % a) (next_multiple o a) ∙ mul-add-mod_self_left a (o / a) a ∙ mod_self a

pub make_align-mod : (o a : ℕ) → make_align o a % a ≡ 0
make_align-mod o a = let e = multiple-mod o a in ground (arith, e)

module _ (struct_size : ℕ → ℕ) where
  -- The bits of a member.
  abbrev pub bit_size : Member → ℕ
  bit_size m =
      if is_bit_field m
      then m.bit_field_width
      else elim (width struct_size m.ty) [ none ↦ 0 | some w ↦ 8 * w ]

  abbrev pub begin_of : Member → ℕ
  begin_of m = 8 * m.offset + m.bit_field_begin

  abbrev pub end_of : Member → ℕ
  end_of m = begin_of m + bit_size m

  -- `Within limit ms`: all members end at the bit `limit` or before.
  pub data Within (limit : ℕ) : List Member → Type 0 where
    nothing : Within limit []
    also :
        {m : Member} {ms : List Member} → end_of m ≤ limit → Within limit ms → Within limit (m ∷ ms)

  -- What is no bit-field is aligned.
  abbrev pub Aligned : Member → Type 0
  Aligned m = (is_bit_field m ≡ true) ⊎ (m.offset % m.align ≡ 0)

  -- `Placed limit ms`: the members, the last one first, end at the bit `limit` or before, and each one
  -- ends where the next one begins or before.
  pub data Placed : ℕ → List Member → Type 0 where
    empty : {limit : ℕ} → Placed limit []
    behind :
        {limit : ℕ} {m : Member} {ms : List Member}
        → Aligned m
        → end_of m ≤ limit
        → Placed (begin_of m) ms
        → Placed limit (m ∷ ms)

  pub Within-weaken : {a b : ℕ} {ms : List Member} → a ≤ b → Within a ms → Within b ms
  Within-weaken h nothing = nothing
  Within-weaken h (also p w) = also (omega (arith, h, p)) (Within-weaken h w)

  pub Placed-weaken : {a b : ℕ} {ms : List Member} → a ≤ b → Placed a ms → Placed b ms
  Placed-weaken h empty = empty
  Placed-weaken h (behind a p w) = behind a (omega (arith, h, p)) w

  -- The end of what is used, in bits.
  abbrev pub limit_of : StructType → ℕ
  limit_of s = 8 * s.offset + s.bit_field_used_width

  -- The invariant of a struct while members are added. The offsets are off as soon as space behind
  -- bit-fields was counted, but stay in the struct.
  pub record Sound (s : StructType) : Type 0 where
    pub struct_type : s.is_struct ≡ true
    pub aligned : 1 ≤ s.align
    pub whole : s.bit_field_base_type_width % 8 ≡ 0
    pub wide : s.offset ≤ s.width
    pub inside : Within (limit_of s) s.members
    pub placed : s.bit_field_space_count ≡ 0 → Placed (limit_of s) s.members

  -- A step that adds no member.
  pub Sound-step :
      (s t : StructType)
      → Sound s
      → t.is_struct ≡ s.is_struct
      → t.members ≡ s.members
      → limit_of s ≤ limit_of t
      → s.bit_field_space_count ≤ t.bit_field_space_count
      → 1 ≤ t.align
      → t.bit_field_base_type_width % 8 ≡ 0
      → t.offset ≤ t.width
      → Sound t
  Sound-step s t h k m l c a b w = record {
    struct_type = k ∙ h.struct_type;
    aligned = a;
    whole = b;
    wide = w;
    inside = rw m (Within-weaken l h.inside);
    placed = λ z. rw m (Placed-weaken l (h.placed (omega (arith, z, c))));
  }
