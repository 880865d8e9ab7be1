-- ===== src/Scope/Laws.antt =====
-- Laws of scopes (src/scope.cpp): insertion, shadowing and what a search sees.
use kcc.Prelude.{
  same_bytes_refl, same_bytes_eq, Bool, true, false, List, [], ◌∷◌, ◌++◌, Option, none, some, ◌≡◌,
  refl, sym, Bytes, same_bytes, if◌then◌else◌, Bool-cases, inl, inr,
}
use kcc.Scope.{
  ScopeType, Layer, Scope, assign, lookup, insert_tag, insert_usual, find_tag, find_usual, is_file,
  or_parent,
}

module _ {A : Type 0} where
  lookup-assign_same :
      (name : Bytes) (x : A) (m : List (Bytes × A)) → lookup name (assign name x m) ≡ some x
  unfolding lookup assign
  lookup-assign_same name x [] = rw (same_bytes_refl name)
  lookup-assign_same name x ((k, y) ∷ m) = elim (Bool-cases (same_bytes k name)) [
    | inl e ↦ rw e (rw e refl)
    | inr e ↦ rw e (rw e (lookup-assign_same name x m))
  ]

  pub lookup-assign_other :
      (name other : Bytes) (x : A) (m : List (Bytes × A))
      → same_bytes name other ≡ false
      → lookup other (assign name x m) ≡ lookup other m
  unfolding lookup assign
  lookup-assign_other name other x [] h = rw h
  lookup-assign_other name other x ((k, y) ∷ m) h = elim (Bool-cases (same_bytes k name)) [
    | inl e ↦
        let differ : same_bytes k other ≡ false = rw (same_bytes_eq k name e) h in
        rw e (rw differ refl)
    | inr e ↦ rw e (elim (Bool-cases (same_bytes k other)) [
      | inl f ↦ rw f refl
      | inr f ↦ rw f (lookup-assign_other name other x m h)
    ])
  ]

  lookup-assign :
      (name other : Bytes) (x : A) (m : List (Bytes × A))
      → lookup other (assign name x m) ≡ (if same_bytes name other then some x else lookup other m)
  lookup-assign name other x m = elim (Bool-cases (same_bytes name other)) [
    | inl e ↦ rw e (rw (← same_bytes_eq name other e) (lookup-assign_same name x m))
    | inr e ↦ rw e (lookup-assign_other name other x m e)
  ]

  or_parent-if :
      (b : Bool) (type : ScopeType) (x : A) (o rest : Option A)
      → or_parent type (if b then some x else o) rest
        ≡ (if b then some x else or_parent type o rest)
  or_parent-if true type x o rest = refl
  or_parent-if false type x o rest = refl

  -- Behind the insertion of an ordinary name, each search in this scope finds the new identifier
  -- under that name and what it found before under all others; tags are not touched.
  pub find_usual-insert_usual :
      (name other : Bytes) (x : A) (l : Layer A) (parent : Scope A)
      → (find_usual other (insert_usual name x (l ∷ parent))
          ≡ (if same_bytes name other then some x else find_usual other (l ∷ parent)))
        × (find_tag other (insert_usual name x (l ∷ parent)) ≡ find_tag other (l ∷ parent))
  unfolding find_usual find_tag insert_usual
  find_usual-insert_usual name other x l parent = (
    rw (lookup-assign name other x l.usual) (
        or_parent-if (same_bytes name other) l.type x (lookup other l.usual)
          (find_usual other parent)),
    refl,
  )

  -- Behind the insertion of a tag, each search in this scope finds the new identifier under that tag
  -- and what it found before under all others; ordinary names are not touched.
  pub find_tag-insert_tag :
      (name other : Bytes) (x : A) (l : Layer A) (parent : Scope A)
      → (find_tag other (insert_tag name x (l ∷ parent))
          ≡ (if same_bytes name other then some x else find_tag other (l ∷ parent)))
        × (find_usual other (insert_tag name x (l ∷ parent)) ≡ find_usual other (l ∷ parent))
  unfolding find_usual find_tag insert_tag
  find_tag-insert_tag name other x l parent = (
    rw (lookup-assign name other x l.tags) (
        or_parent-if (same_bytes name other) l.type x (lookup other l.tags)
          (find_tag other parent)),
    refl,
  )

  -- The names that are visible from a scope, the innermost first: nothing is visible behind the first
  -- file scope.
  unfoldable pub visible : Scope A → List (Bytes × A)
  visible [] = []
  visible (l ∷ parent) = l.usual ++ (if is_file l.type then [] else visible parent)

  lookup-append :
      (name : Bytes) (m n : List (Bytes × A)) (type : ScopeType) (rest : Option A)
      → lookup name n ≡ (if is_file type then none else rest)
      → or_parent type (lookup name m) rest ≡ lookup name (m ++ n)
  unfolding lookup
  lookup-append name [] n type rest h = sym h
  lookup-append name ((k, x) ∷ m) n type rest h = elim (Bool-cases (same_bytes k name)) [
    | inl e ↦ rw e refl
    | inr e ↦ rw e (lookup-append name m n type rest h)
  ]

  -- `FindUsual` finds the first identifier of that name among the visible ones: an inner scope hides
  -- an outer one, and the search ends at the first file scope.
  pub find_usual-visible :
      (name : Bytes) (s : Scope A) → find_usual name s ≡ lookup name (visible s)
  unfolding find_usual visible lookup
  find_usual-visible name [] = refl
  find_usual-visible name (l ∷ parent) =
      lookup-append name l.usual (if is_file l.type then [] else visible parent) l.type
        (find_usual name parent)
        (elim (Bool-cases (is_file l.type)) [
          | inl e ↦ rw e refl
          | inr e ↦ rw e (sym (find_usual-visible name parent))
        ])
