-- ===== src/Ty/Tests.antt =====
-- The properties of types at concrete inputs.
use kcc.Prelude.{head, tail, true, false, some, none, List, [], ◌∷◌, ◌++◌, ◌≡◌, ◌≢◌, refl, arith}
use kcc.Ty.Arithmetic.{ArithmeticType, max_type, arithmetic_equal, get}
use kcc.Ty.CType.{Ty, QualType, qual, get_type, nil, cons, same_size}
use kcc.Ty.Conversion.{kind_of_result, integer, signed, max_type-usual}
use kcc.Ty.DeclLaws.{Names, parse_decl_spec-Names, parse_decl_spec_safe}
use kcc.Ty.DeclOrder.{parse_decl_spec-table}
use kcc.Ty.DeclSpec.{
  Keyword, Specifier, keyword, Result, ok, err, null_pointer, bad_type_spec, initial, Declared,
  parse_decl_spec, step, step_keyword, step_storage, allowed, add_keyword, base_type,
  finish_decl_spec,
}
use kcc.Ty.DeclTable.{count, keywords_of}
use kcc.Ty.Spec.{deal_with_type_spec}
use kcc.Ty.Equal.{equal, compatible}
use kcc.Ty.EqualLaws.{equal_refl_comm, equal-compatible, equal_not_transitive}

abbrev const_int : QualType
const_int = qual (Ty.arithmetic ArithmeticType.int) 1

abbrev callback : Ty
callback = Ty.function const_int (cons (qual (Ty.pointer const_int) 0) nil) false

abbrev row : Ty
row = Ty.array const_int (some 3)

abbrev open_row : Ty
open_row = Ty.array const_int none

max_type-usual_example :
    kind_of_result (max_type ArithmeticType.uint ArithmeticType.long) ≡ some (integer signed 4 64)
max_type-usual_example = max_type-usual ArithmeticType.uint ArithmeticType.long

equal_refl_comm_example :
    (equal callback callback ≡ true) × (equal callback row ≡ equal row callback)
equal_refl_comm_example = equal_refl_comm callback row

equal-compatible_example : compatible row open_row ≡ true
unfolding equal arithmetic_equal same_size
equal-compatible_example = equal-compatible row open_row refl

equal_not_transitive_example :
    (equal (Ty.array const_int (some 3)) (Ty.array const_int none) ≡ true)
    × (equal (Ty.array const_int none) (Ty.array const_int (some 4)) ≡ true)
    × (equal (Ty.array const_int (some 3)) (Ty.array const_int (some 4)) ≡ false)
equal_not_transitive_example = equal_not_transitive const_int 3 4 (λ e. omega (arith, e))

abbrev specifiers : List Specifier
specifiers =
    Specifier.static
    ∷ keyword Keyword.unsigned
    ∷ Specifier.const
    ∷ keyword Keyword.long
    ∷ Specifier.other
    ∷ []

-- Opens the declaration specifiers, for runs.
parse : List Specifier → Result Declared
unfolding parse_decl_spec step step_keyword step_storage allowed add_keyword base_type
    finish_decl_spec get deal_with_type_spec
parse xs = parse_decl_spec (initial (some 0) (some 0) none) xs

abbrev declared : Result Declared → Declared
declared (ok d) = d
declared (err e) = record { type = const_int; state = initial none none none; rest = [] }

parse_decl_spec-Names_example :
    (read : List Specifier) × (specifiers ≡ read ++ (declared (parse specifiers)).rest)
    × Names (λ k. count k (keywords_of read)) (get_type (declared (parse specifiers)).type)
unfolding parse
parse_decl_spec-Names_example =
    parse_decl_spec-Names (some 0) (some 0) none specifiers (declared (parse specifiers)) refl

parse_decl_spec_safe_example :
    (parse_decl_spec (initial (some 0) (some 0) none) specifiers ≢ err bad_type_spec)
    × (parse_decl_spec (initial (some 0) (some 0) none) specifiers ≢ err null_pointer)
parse_decl_spec_safe_example = parse_decl_spec_safe 0 0 none specifiers

parse_decl_spec-table_example :
    (d : Declared) × (parse_decl_spec (initial (some 0) none none) (keyword Keyword.char ∷ [])
      ≡ ok d)
    × (equal (get_type d.type) (Ty.arithmetic ArithmeticType.char) ≡ true)
parse_decl_spec-table_example =
    parse_decl_spec-table (some 0) none none
      (record { keywords = Keyword.char ∷ []; type = Ty.arithmetic ArithmeticType.char })
      (tail head)
