-- ===== src/Scope/Tests.antt =====
-- The properties of scopes at concrete inputs.
use kcc.Prelude.{ℕ, [], ◌∷◌, some, ◌≡◌, codes, if◌then◌else◌, same_bytes}
use kcc.Scope.{ScopeType, Layer, lookup, insert_tag, insert_usual, find_tag, find_usual}
use kcc.Scope.Laws.{find_usual-insert_usual, find_tag-insert_tag, find_usual-visible, visible}

abbrev global : Layer ℕ
global = record { type = ScopeType.file; tags = []; usual = (codes "x", 1) ∷ (codes "y", 2) ∷ [] }

abbrev local : Layer ℕ
local = record { type = ScopeType.block; tags = (codes "x", 3) ∷ []; usual = (codes "x", 4) ∷ [] }

find_usual-insert_usual_example :
    (find_usual (codes "y") (insert_usual (codes "x") 5 (local ∷ global ∷ [])) ≡ (
      if same_bytes (codes "x") (codes "y")
      then some 5
      else find_usual (codes "y") (local ∷ global ∷ [])))
    × (find_tag (codes "y") (insert_usual (codes "x") 5 (local ∷ global ∷ []))
        ≡ find_tag (codes "y") (local ∷ global ∷ []))
find_usual-insert_usual_example =
    find_usual-insert_usual (codes "x") (codes "y") 5 local (global ∷ [])

find_tag-insert_tag_example :
    (find_tag (codes "x") (insert_tag (codes "x") 5 (local ∷ global ∷ [])) ≡ some 5)
    × (find_usual (codes "x") (insert_tag (codes "x") 5 (local ∷ global ∷ []))
        ≡ find_usual (codes "x") (local ∷ global ∷ []))
find_tag-insert_tag_example = find_tag-insert_tag (codes "x") (codes "x") 5 local (global ∷ [])

find_usual-visible_example :
    find_usual (codes "y") (local ∷ global ∷ [])
    ≡ lookup (codes "y") (visible (local ∷ global ∷ []))
find_usual-visible_example = find_usual-visible (codes "y") (local ∷ global ∷ [])
