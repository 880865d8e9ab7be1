-- ===== src/Layout/PlacedEnd.antt =====
-- What `Finish` of src/type.cpp leaves of the members of a struct.
use kcc.Layout.Fields.{LlvmType, StructType}
use kcc.Layout.Placed.{Within, Placed, limit_of, Sound}
use kcc.Layout.PlacedSteps.{Closed, Keeps}
use kcc.Prelude.{ℕ, ◌*◌, ◌≤◌, ◌≡◌}
use kcc.Prelude.Results.{◌>>=◌}

module _ (size : LlvmType → ℕ) (struct_size struct_align : ℕ → ℕ) where
  -- The state that `Finish` leaves behind `declare_all`.
  pub record Laid (s t : StructType) : Type 0 where
    pub inside : Within struct_size (8 * t.offset) t.members
    pub wide : t.offset ≤ t.width
    pub placed : s.bit_field_space_count ≡ 0 → Placed struct_size (8 * t.offset) t.members

  -- What `Finish` has made of the last unit.
  record Ended (s t : StructType) : Type 0 where
    closed : Closed size struct_size struct_align t
    keeps : s.bit_field_space_count ≡ 0 → Placed struct_size (limit_of struct_size t) t.members

  -- The alignment alone has changed.
  abbrev Aligns : StructType → StructType → Type 0
  Aligns s t =
      Sound struct_size t
      × Keeps size struct_size struct_align s t
      × (t.bit_field_space_count ≡ s.bit_field_space_count)
