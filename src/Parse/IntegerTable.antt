-- ===== src/Parse/IntegerTable.antt =====
-- The types of integer constants in the C standard, 6.4.4.1: the first type of a list in which the
-- value fits.
use kcc.Prelude.{
  ℕ, ◌^◌, Bool, true, false, ltb, List, [], ◌∷◌, Option, none, some, Bytes, codes, if◌then◌else◌,
}
use kcc.Ty.Arithmetic.{ArithmeticType}

pub data Suffix : Type 0 where
  no_suffix u l ul ll ull : Suffix

-- The spellings of a suffix.
abbrev pub spellings : Suffix → List Bytes
spellings no_suffix = [] ∷ []
spellings u = codes "u" ∷ codes "U" ∷ []
spellings l = codes "l" ∷ codes "L" ∷ []
spellings ul =
    codes "ul"
    ∷ codes "uL"
    ∷ codes "Ul"
    ∷ codes "UL"
    ∷ codes "lu"
    ∷ codes "lU"
    ∷ codes "Lu"
    ∷ codes "LU"
    ∷ []
spellings ll = codes "ll" ∷ codes "LL" ∷ []
spellings ull =
    codes "ull"
    ∷ codes "uLL"
    ∷ codes "Ull"
    ∷ codes "ULL"
    ∷ codes "llu"
    ∷ codes "llU"
    ∷ codes "LLu"
    ∷ codes "LLU"
    ∷ []

-- The list of types, for a decimal constant or one of another base.
abbrev pub candidates : Bool → Suffix → List ArithmeticType
candidates true no_suffix = ArithmeticType.int ∷ ArithmeticType.long ∷ ArithmeticType.long_long ∷ []
candidates false no_suffix =
    ArithmeticType.int ∷ ArithmeticType.uint ∷ ArithmeticType.long ∷ ArithmeticType.ulong
    ∷ ArithmeticType.long_long ∷ ArithmeticType.ulong_long ∷ []
candidates d u = ArithmeticType.uint ∷ ArithmeticType.ulong ∷ ArithmeticType.ulong_long ∷ []
candidates true l = ArithmeticType.long ∷ ArithmeticType.long_long ∷ []
candidates false l =
    ArithmeticType.long ∷ ArithmeticType.ulong ∷ ArithmeticType.long_long
    ∷ ArithmeticType.ulong_long ∷ []
candidates d ul = ArithmeticType.ulong ∷ ArithmeticType.ulong_long ∷ []
candidates true ll = ArithmeticType.long_long ∷ []
candidates false ll = ArithmeticType.long_long ∷ ArithmeticType.ulong_long ∷ []
candidates d ull = ArithmeticType.ulong_long ∷ []

-- The values of an integer type are below this bound.
abbrev pub bound : ArithmeticType → ℕ
bound ArithmeticType.int = 2 ^ 31
bound ArithmeticType.uint = 2 ^ 32
bound ArithmeticType.long = 2 ^ 63
bound ArithmeticType.ulong = 2 ^ 64
bound ArithmeticType.long_long = 2 ^ 63
bound ArithmeticType.ulong_long = 2 ^ 64
bound _ = 0

abbrev pub first_fit : List ArithmeticType → ℕ → Option ArithmeticType
first_fit [] v = none
first_fit (t ∷ ts) v = if ltb v (bound t) then some t else first_fit ts v

-- The type that the standard gives, if there is one.
abbrev pub constant_type : Bool → Suffix → ℕ → Option ArithmeticType
constant_type d s v = first_fit (candidates d s) v
