-- ===== src/Scope.antt =====
-- `Scope` of src/scope.h and src/scope.cpp: names to identifiers, in scopes that enclose one another.
--
-- A chain of scopes is a list, the innermost first: the tail stands for `parent_`, and a scope
-- without a parent ends it. An `unordered_map` is an association list; an identifier is a value of
-- any type, since the scope only passes its address on.
use kcc.Prelude.{
  ℕ, Bool, true, false, List, [], ◌∷◌, ◌++◌, Option, none, some, Bytes, same_bytes, if◌then◌else◌,
}
pub mod Laws
mod Tests

pub data ScopeType : Type 0 where
  block file func func_proto : ScopeType

module _ {A : Type 0} where
  -- `unordered_map::operator[]`, assigned to.
  unfoldable pub assign : Bytes → A → List (Bytes × A) → List (Bytes × A)
  assign name x [] = (name, x) ∷ []
  assign name x ((k, y) ∷ m) = if same_bytes k name then (k, x) ∷ m else (k, y) ∷ assign name x m

  -- `unordered_map::find`.
  unfoldable pub lookup : Bytes → List (Bytes × A) → Option A
  lookup name [] = none
  lookup name ((k, x) ∷ m) = if same_bytes k name then some x else lookup name m

pub record Layer (A : Type 0) : Type 0 where
  pub type : ScopeType
  pub tags : List (Bytes × A)
  pub usual : List (Bytes × A)

abbrev pub Scope : Type 0 → Type 0
Scope A = List (Layer A)

abbrev pub is_file : ScopeType → Bool
is_file ScopeType.file = true
is_file _ = false

module _ {A : Type 0} where
  -- `Scope::Get`.
  abbrev pub enter : ScopeType → Scope A → Scope A
  enter type parent = record { type = type; tags = []; usual = [] } ∷ parent

  -- `Scope::InsertTag` and `Scope::InsertUsual`; without a scope there is nothing to call them on.
  unfoldable pub insert_tag : Bytes → A → Scope A → Scope A
  insert_tag name x [] = []
  insert_tag name x (l ∷ parent) = record l { tags = assign name x l.tags } ∷ parent

  unfoldable pub insert_usual : Bytes → A → Scope A → Scope A
  insert_usual name x [] = []
  insert_usual name x (l ∷ parent) = record l { usual = assign name x l.usual } ∷ parent

  -- The rest of a search that has found nothing.
  abbrev pub or_parent : ScopeType → Option A → Option A → Option A
  or_parent type (some x) rest = some x
  or_parent type none rest = if is_file type then none else rest

  -- `Scope::FindTag` and `Scope::FindUsual`.
  unfoldable pub find_tag : Bytes → Scope A → Option A
  find_tag name [] = none
  find_tag name (l ∷ parent) = or_parent l.type (lookup name l.tags) (find_tag name parent)

  unfoldable pub find_usual : Bytes → Scope A → Option A
  find_usual name [] = none
  find_usual name (l ∷ parent) = or_parent l.type (lookup name l.usual) (find_usual name parent)

  -- `Scope::FindTagInCurrScope` and `Scope::FindUsualInCurrScope`.
  unfoldable pub find_tag_in_curr_scope : Bytes → Scope A → Option A
  find_tag_in_curr_scope name [] = none
  find_tag_in_curr_scope name (l ∷ parent) = lookup name l.tags

  unfoldable pub find_usual_in_curr_scope : Bytes → Scope A → Option A
  find_usual_in_curr_scope name [] = none
  find_usual_in_curr_scope name (l ∷ parent) = lookup name l.usual
