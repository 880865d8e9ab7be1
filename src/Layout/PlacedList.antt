-- ===== src/Layout/PlacedList.antt =====
-- The members that `Parser::ParseStructDeclList` of src/parse_decl.cpp makes of a list of declarators.
use kcc.Ast.Kinds.{is_bool, is_function}
use kcc.Layout.Declare.{
  Declarator, BitWidth, negative, non_negative, new_member, parse_bit_field, declare_anonymous,
  declare_named, declare_with, declare, declare_all, copy, has_member, is_int, is_empty,
  is_nameless, is_open_array, is_nil,
}
use kcc.Layout.Fields.{LlvmType, StructType, assertion, get_align}
use kcc.Layout.Operations.{add_member, is_character}
use kcc.Layout.Placed.{Sound}
use kcc.Layout.PlacedBits.{add_bit_field-Sound}
use kcc.Layout.PlacedMembers.{narrow, Plain, add_member-Closed, merge_anonymous-Closed}
use kcc.Prelude.{
  ℕ, ◌*◌, ◌≡◌, every, Bool, true, false, not, ◌==◌, ◌&&◌, ◌||◌, ltb, refl, List, [], ◌∷◌, Option,
  some, none, Bytes,
}
use mathlib.Core.Bool.{and-eq-true_iff}
use kcc.Prelude.Results.{
  ok, ◌>>=◌, or_err, Post, holds, fails, Post-if, Post-bind, Post-map, Post-any,
}
use kcc.Ty.CType.{Ty, get_type, width}

module _ (size : LlvmType → ℕ) (struct_size struct_align : ℕ → ℕ) where
  new_member-Plain :
      (name : Bytes) (t : Ty) (anonymous : Bool)
      → narrow size struct_size struct_align t ≡ true
      → Post
          (Plain size struct_size struct_align)
          (new_member size struct_size struct_align name t anonymous 0)
  unfolding new_member
  new_member-Plain name t anonymous n =
      Post-bind (Post-any (or_err assertion (get_align size struct_size struct_align t)))
        λ a _. holds (refl, refl, n)

  parse_bit_field-Sound :
      (name : Bytes) (t : Ty) (w : BitWidth) (s : StructType)
      → Sound struct_size s
      → Post (Sound struct_size) (parse_bit_field size struct_size struct_align name t w s)
  unfolding parse_bit_field
  parse_bit_field-Sound name t negative s h =
      Post-if (not (is_int t) && not (is_character t)) (λ _. fails) λ _. fails
  parse_bit_field-Sound name t (non_negative n) s h =
      Post-if (not (is_int t) && not (is_character t)) (λ _. fails)
        λ _. Post-bind (Post-any (or_err assertion (width struct_size t))) λ w _.
          Post-if (n == 0 && not (is_empty name)) (λ _. fails)
            λ _.
              Post-if (ltb (w * 8) n || is_bool t && ltb 1 n) (λ _. fails)
                λ _.
                  Post-if (not (is_empty name) && has_member name s) (λ _. fails)
                    λ _.
                      Post-bind
                        (Post-any
                          (new_member size struct_size struct_align name t (is_empty name) n))
                        λ m _. add_bit_field-Sound size struct_size struct_align m s h

  declare_anonymous-Sound :
      (d : Declarator) (s : StructType)
      → narrow size struct_size struct_align (get_type (copy d)) ≡ true
      → Sound struct_size s
      → Post (Sound struct_size) (declare_anonymous size struct_size struct_align d s)
  unfolding declare_anonymous
  declare_anonymous-Sound d s n h =
      Post-if (is_nameless (get_type (copy d)))
        (λ _. Post-bind (new_member-Plain [] (get_type (copy d)) true n) λ m p.
          Post-map (λ t c. c.0)
            (merge_anonymous-Closed size struct_size struct_align m d.inner s p h))
        λ _. fails

  -- A member with a name, and whether it is the last one.
  abbrev SoundRest : Bool × StructType → Type 0
  SoundRest r = Sound struct_size r.1

  plain-Sound :
      (name : Bytes) (t : Ty) (last : Bool) (s : StructType)
      → narrow size struct_size struct_align t ≡ true
      → Sound struct_size s
      → Post SoundRest (do
        m ← new_member size struct_size struct_align name t false 0
        s' ← add_member size struct_size struct_align m s
        ok (last, s'))
  plain-Sound name t last s n h =
      Post-bind (new_member-Plain name t false n)
        λ m p. Post-bind (add_member-Closed size struct_size struct_align m s p h) λ s' c. holds c.0

  declare_named-Sound :
      (d : Declarator) (s : StructType)
      → narrow size struct_size struct_align (get_type (copy d)) ≡ true
      → Sound struct_size s
      → Post SoundRest (declare_named size struct_size struct_align d s)
  unfolding declare_named
  declare_named-Sound d s n h =
      let t = get_type (copy d) in
      Post-if (has_member d.name s) (λ _. fails)
        λ _.
          Post-if (is_open_array t)
            (λ _.
              Post-if (s.is_struct && not (is_nil s.members)) (λ _. plain-Sound d.name t true s n h)
                λ _. fails)
            λ _. Post-if (is_function t) (λ _. fails) λ _. plain-Sound d.name t false s n h

  with-Sound :
      (w : Option BitWidth) (d : Declarator) (s : StructType)
      → narrow size struct_size struct_align (get_type (copy d)) ≡ true
      → Sound struct_size s
      → Post SoundRest (declare_with size struct_size struct_align w d s)
  unfolding declare_with
  with-Sound (some w) d s n h = Post-bind (parse_bit_field-Sound d.name _ w s h) λ s' g. holds g
  with-Sound none d s n h =
      Post-if (is_empty d.name) (λ _. Post-bind (declare_anonymous-Sound d s n h) λ s' g. holds g)
        (λ _. declare_named-Sound d s n h)

  declare-Sound :
      (d : Declarator) (s : StructType)
      → narrow size struct_size struct_align (get_type (copy d)) ≡ true
      → Sound struct_size s
      → Post SoundRest (declare size struct_size struct_align d s)
  unfolding declare
  declare-Sound d s n h = with-Sound d.bit_width d s n h

  -- Every declared type has a width that is not negative.
  abbrev pub all_narrow : List Declarator → Bool
  all_narrow = every (λ d. narrow size struct_size struct_align (get_type (copy d)))

  abbrev pub SoundList : List Declarator × StructType → Type 0
  SoundList r = Sound struct_size r.1

  pub declare_all-Sound :
      (ds : List Declarator) (s : StructType)
      → all_narrow ds ≡ true
      → Sound struct_size s
      → Post SoundList (declare_all size struct_size struct_align ds s)
  unfolding declare_all
  declare_all-Sound [] s n h = holds h
  declare_all-Sound (d ∷ ds) s n h =
      Post-bind (declare-Sound d s ((and-eq-true_iff _ _).0 n).0 h) λ r g.
        Post-bind
          (Post-if r.0 {y = declare_all size struct_size struct_align ds r.1} (λ _. holds g)
            (λ _. declare_all-Sound ds r.1 ((and-eq-true_iff _ _).0 n).1 g))
          λ q k. holds k
